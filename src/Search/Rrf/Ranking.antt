-- ===== src/Search/Rrf/Ranking.antt =====
-- The ranking of module5-search/app/utils/rrf.py: its order, its papers and its scores.
use native.Mathlib.Nat.{mul-le-mul_right, mul-pos, le_of_mul-le-mul_right}
use prompt_flow_ai.Prelude.{
  ℕ, suc, ◌*◌, ◌≡◌, ◌≤◌, ◌<◌, refl, ap, ◌∙◌, Bool, true, false, List, [], ◌∷◌, map, arith, inl, inr,
  Bool-cases, Option-cases, All, ltb, ◌==◌, if◌then◌else◌,
}
use prompt_flow_ai.Search.Rrf.{
  Fraction, at_most, rank_from, rank_of, summand, rrf_score, Entry, entry, combine, insert, sorted,
  max_score, normalized, rank,
}
use prompt_flow_ai.Search.Rrf.Scores.{LessEqual}

abbrev pub Descending : List Entry → Type 0
Descending [] = Unit
Descending (e ∷ []) = Unit
Descending (e ∷ d ∷ ds) = LessEqual d.score e.score × Descending (d ∷ ds)

insert-Descending : (e : Entry) (ds : List Entry) → Descending ds → Descending (insert e ds)
unfolding insert
insert-Descending e [] h = tt
insert-Descending e (d ∷ []) h = elim (Bool-cases (at_most d.score e.score)) [
  | inl t ↦ rw t (ground arith, tt)
  | inr t ↦ rw t (ground arith, tt)
]
insert-Descending e (d ∷ f ∷ ds) (h, hs) = elim (Bool-cases (at_most d.score e.score)) [
  | inl t ↦ rw t (ground arith, (h, hs))
  | inr t ↦ rw t (under (at_most f.score e.score) (ground arith) (insert-Descending e (f ∷ ds) hs))
]
  where
    under :
        (b : Bool)
        → LessEqual e.score d.score
        → Descending (if b then e ∷ f ∷ ds else f ∷ insert e ds)
        → Descending (d ∷ (if b then e ∷ f ∷ ds else f ∷ insert e ds))
    under true l k = (l, k)
    under false l k = (h, k)

sorted-Descending : (es : List Entry) → Descending (sorted es)
unfolding sorted
sorted-Descending [] = tt
sorted-Descending (e ∷ es) = insert-Descending e (sorted es) (sorted-Descending es)

normalized-LessEqual :
    (m : Fraction) (d e : Entry)
    → LessEqual d.score e.score
    → LessEqual (normalized m d).score (normalized m e).score
unfolding normalized
normalized-LessEqual m d e h = elim (Bool-cases (ltb 0 m.num)) [
  | inl t ↦ rw t (omega (arith, mul-le-mul_right (m.den * m.num) h))
  | inr t ↦ rw t (omega arith)
]

map-Descending :
    (m : Fraction) (es : List Entry) → Descending es → Descending (map (normalized m) es)
map-Descending m [] h = tt
map-Descending m (e ∷ []) h = tt
map-Descending m (e ∷ d ∷ ds) (h, hs) = (normalized-LessEqual m d e h, map-Descending m (d ∷ ds) hs)

rank-Descending : (es : List Entry) → Descending (rank es)
unfolding rank
rank-Descending [] = tt
rank-Descending (e ∷ es) = map-Descending _ (sorted (e ∷ es)) (sorted-Descending (e ∷ es))

-- How often a paper stands in a list.
abbrev pub occurrences : ℕ → List Entry → ℕ
occurrences x [] = 0
occurrences x (e ∷ es) = let rest = occurrences x es in if e.paper_id == x then suc rest else rest

occurrences-insert :
    (x : ℕ) (e : Entry) (ds : List Entry) → occurrences x (insert e ds) ≡ occurrences x (e ∷ ds)
unfolding insert
occurrences-insert x e [] = refl
occurrences-insert x e (d ∷ ds) = ground (arith, occurrences-insert x e ds)

occurrences-sorted : (x : ℕ) (es : List Entry) → occurrences x (sorted es) ≡ occurrences x es
unfolding sorted
occurrences-sorted x [] = refl
occurrences-sorted x (e ∷ es) =
    occurrences-insert x e (sorted es)
    ∙ ap (λ n. if e.paper_id == x then suc n else n) (occurrences-sorted x es)

normalized-paper_id : (m : Fraction) (e : Entry) → (normalized m e).paper_id ≡ e.paper_id
unfolding normalized
normalized-paper_id m e = ground arith

occurrences-map :
    (x : ℕ) (m : Fraction) (es : List Entry)
    → occurrences x (map (normalized m) es) ≡ occurrences x es
occurrences-map x m [] = refl
occurrences-map x m (e ∷ es) =
    rw (normalized-paper_id m e)
      (ap (λ n. if e.paper_id == x then suc n else n) (occurrences-map x m es))

occurrences-rank : (x : ℕ) (es : List Entry) → occurrences x (rank es) ≡ occurrences x es
unfolding rank
occurrences-rank x [] = refl
occurrences-rank x (e ∷ es) =
    occurrences-map x (max_score e.score es) (sorted (e ∷ es)) ∙ occurrences-sorted x (e ∷ es)

abbrev Positive : Fraction → Type 0
Positive a = 0 < a.den

LessEqual-trans : (a b c : Fraction) → Positive b → LessEqual a b → LessEqual b c → LessEqual a c
LessEqual-trans a b c p h k =
    le_of_mul-le-mul_right {k = b.den}
      (omega (arith, mul-le-mul_right c.den h, mul-le-mul_right a.den k)) p

-- The maximum bounds the scores.
record Bounds (best : Fraction) (es : List Entry) (m : Fraction) : Type 0 where
  positive : Positive m
  first : LessEqual best m
  others : All (λ e. LessEqual e.score m) es

max_score-Bounds :
    (best : Fraction) (es : List Entry)
    → Positive best
    → All (λ e. Positive e.score) es
    → Bounds best es (max_score best es)
unfolding max_score
max_score-Bounds best [] p ps = record { positive = p; first = omega arith; others = tt }
max_score-Bounds best (e ∷ es) p (q, ps) = elim (Bool-cases (at_most e.score best)) [
  | inl t ↦
      let b = max_score-Bounds best es p ps in
      rw t (record {
        positive = b.positive;
        first = b.first;
        others = (LessEqual-trans e.score best _ p (ground arith) b.first, b.others);
      })
  | inr t ↦
      let b = max_score-Bounds e.score es q ps in
      rw t (record {
        positive = b.positive;
        first = LessEqual-trans best e.score _ q (ground arith) b.first;
        others = (b.first, b.others);
      })
]

-- A normalized score is at most 1.
abbrev pub AtMostOne : Entry → Type 0
AtMostOne e = e.score.num ≤ e.score.den

normalized-AtMostOne : (m : Fraction) (e : Entry) → LessEqual e.score m → AtMostOne (normalized m e)
unfolding normalized
normalized-AtMostOne m e h = elim (Bool-cases (ltb 0 m.num)) [
  | inl t ↦ rw t (omega (arith, h))
  | inr t ↦ rw t (omega arith)
]

map-AtMostOne :
    (m : Fraction) (es : List Entry)
    → All (λ e. LessEqual e.score m) es
    → All AtMostOne (map (normalized m) es)
map-AtMostOne m [] h = tt
map-AtMostOne m (e ∷ es) (h, hs) = (normalized-AtMostOne m e h, map-AtMostOne m es hs)

insert-All :
    (P : Entry → Type 0) (e : Entry) (ds : List Entry) → P e → All P ds → All P (insert e ds)
unfolding insert
insert-All P e [] p h = (p, tt)
insert-All P e (d ∷ ds) p (q, h) = elim (Bool-cases (at_most d.score e.score)) [
  | inl t ↦ rw t (p, (q, h))
  | inr t ↦ rw t (q, insert-All P e ds p h)
]

sorted-All : (P : Entry → Type 0) (es : List Entry) → All P es → All P (sorted es)
unfolding sorted
sorted-All P [] h = tt
sorted-All P (e ∷ es) (p, h) = insert-All P e (sorted es) p (sorted-All P es h)

rank-AtMostOne : (es : List Entry) → All (λ e. Positive e.score) es → All AtMostOne (rank es)
unfolding rank
rank-AtMostOne [] h = tt
rank-AtMostOne (e ∷ es) (p, h) =
    let b = max_score-Bounds e.score es p h in
    map-AtMostOne _ (sorted (e ∷ es)) (sorted-All _ (e ∷ es) (b.first, b.others))

-- Ranks count from 1, so no denominator is zero.
rank_from-Positive : (k r x : ℕ) (ys : List ℕ) → 1 ≤ r → 0 < (summand k (rank_from r x ys)).den
unfolding rank_from summand
rank_from-Positive k r x [] h = omega arith
rank_from-Positive k r x (y ∷ ys) h = elim (Option-cases (rank_from (suc r) x ys)) [
  | inl e ↦ elim (Bool-cases (x == y)) [
    | inl t ↦ rw (e, t) (omega arith)
    | inr t ↦ rw (e, t) (omega arith)
  ]
  | inr (s, e) ↦ rw e (rw e at (rank_from-Positive k (suc r) x ys (omega arith)))
]

entry-Positive : (k : ℕ) (ks ss : List ℕ) (x : ℕ) → Positive (entry k ks ss x).score
unfolding entry rank_of rrf_score
entry-Positive k ks ss x =
    mul-pos (rank_from-Positive k 1 x ks (omega arith)) (rank_from-Positive k 1 x ss (omega arith))

combine-Positive :
    (k : ℕ) (papers ks ss : List ℕ) → All (λ e. Positive e.score) (combine k papers ks ss)
unfolding combine
combine-Positive k [] ks ss = tt
combine-Positive k (x ∷ papers) ks ss = (entry-Positive k ks ss x, combine-Positive k papers ks ss)

-- The fused ranking is in descending order of score, holds every combined paper as often as the combined list does and no other, and no
-- normalized score is above 1, whatever the constant k, the two result lists and the order of the papers are.
pub rank_lem :
    (k : ℕ) (all_paper_ids keyword_results semantic_results : List ℕ)
    → let es = combine k all_paper_ids keyword_results semantic_results in
      Descending (rank es)
      × ((x : ℕ) → occurrences x (rank es) ≡ occurrences x es)
      × All AtMostOne (rank es)
rank_lem k papers ks ss =
    let es = combine k papers ks ss in
    (
      rank-Descending es,
      λ x. occurrences-rank x es,
      rank-AtMostOne es (combine-Positive k papers ks ss),
    )
