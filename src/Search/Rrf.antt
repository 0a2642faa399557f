-- ===== src/Search/Rrf.antt =====
-- module5-search/app/utils/rrf.py: reciprocal rank fusion. A paper's UUID is a number; a score is the
-- exact fraction that the floating-point number approximates. The order in which Python goes through
-- the set of all papers is an argument.
pub mod Scores
pub mod Ranking
use prompt_flow_ai.Prelude.{
  ℕ, zero, suc, ◌+◌, ◌*◌, Bool, true, false, Option, none, some, List, [], ◌∷◌, map, ltb, leb, ◌==◌,
  if◌then◌else◌,
}

pub record Fraction : Type 0 where
  pub num : ℕ
  pub den : ℕ

abbrev pub at_most : Fraction → Fraction → Bool
at_most a b = leb (a.num * b.den) (b.num * a.den)

-- {paper_id: idx + 1 for idx, paper_id in enumerate(results)}.get(paper_id): a later index wins
rank_from : ℕ → (paper_id : ℕ) → List ℕ → Option ℕ
rank_from r x [] = none
rank_from r x (y ∷ ys) =
    let later = rank_from (suc r) x ys in
    let here = if x == y then some r else none in elim later [ none ↦ here | some s ↦ some s ]

unfoldable pub rank_of : (paper_id : ℕ) → List ℕ → Option ℕ
unfolding rank_from
rank_of = rank_from 1

-- one summand, 1 / (k + rank), when the rank is there
unfoldable pub summand : (k : ℕ) → Option ℕ → Fraction
summand k none = record { num = 0; den = 1 }
summand k (some r) = record { num = 1; den = k + r }

abbrev pub plus : Fraction → Fraction → Fraction
plus a b = record { num = a.num * b.den + b.num * a.den; den = a.den * b.den }

unfoldable pub rrf_score : (k : ℕ) → (keyword_rank semantic_rank : Option ℕ) → Fraction
unfolding summand
rrf_score k keyword_rank semantic_rank = plus (summand k keyword_rank) (summand k semantic_rank)

pub data Mode : Type 0 where
  keyword semantic : Mode

-- `keyword_rank < semantic_rank`, where a missing rank is infinite
unfoldable pub is_above : Option ℕ → Option ℕ → Bool
is_above none r = false
is_above (some a) none = true
is_above (some a) (some b) = ltb a b

unfoldable pub dominant_mode : (keyword_rank semantic_rank : Option ℕ) → Mode
unfolding is_above
dominant_mode keyword_rank semantic_rank =
    if is_above keyword_rank semantic_rank then keyword else semantic

pub record Entry : Type 0 where
  pub paper_id : ℕ
  pub score : Fraction
  pub mode : Mode

-- One paper's entry.
unfoldable pub entry :
    (k : ℕ) → (keyword_results semantic_results : List ℕ) → (paper_id : ℕ) → Entry
unfolding rank_of rrf_score dominant_mode
entry k keyword_results semantic_results paper_id =
    let a = rank_of paper_id keyword_results in
    let b = rank_of paper_id semantic_results in
    record { paper_id = paper_id; score = rrf_score k a b; mode = dominant_mode a b }

-- `combine`; the papers are the set of those in either list, in the order of its iteration
unfoldable pub combine :
    (k : ℕ) → (all_paper_ids keyword_results semantic_results : List ℕ) → List Entry
unfolding entry
combine k all_paper_ids keyword_results semantic_results =
    map (entry k keyword_results semantic_results) all_paper_ids

-- `sorted(…, reverse=True)` is stable: of equal scores the earlier stays first
insert : Entry → List Entry → List Entry
insert e [] = e ∷ []
insert e (d ∷ ds) =
    let later = insert e ds in if at_most d.score e.score then e ∷ d ∷ ds else d ∷ later

unfoldable pub sorted : List Entry → List Entry
unfolding insert
sorted [] = []
sorted (e ∷ es) = insert e (sorted es)

-- max(score …) of a list that is not empty
unfoldable pub max_score : Fraction → List Entry → Fraction
max_score best [] = best
max_score best (e ∷ es) = max_score (if at_most e.score best then best else e.score) es

-- score / max_score if max_score > 0 else 0.0
unfoldable pub normalized : Fraction → Entry → Entry
normalized m e =
    if ltb 0 m.num
    then record e { score = record { num = e.score.num * m.den; den = e.score.den * m.num } }
    else record e { score = record { num = 0; den = 1 } }

unfoldable pub rank : List Entry → List Entry
unfolding sorted max_score normalized
rank [] = []
rank (e ∷ es) = map (normalized (max_score e.score es)) (sorted (e ∷ es))
