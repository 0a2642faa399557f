-- ===== src/Search/Repository.antt =====
-- module5-search/app/repositories/paper_repository.py: the two searches, under the row-level policy
-- that module 4's migration puts on the papers table. Full-text search and vectors are parameters.
use prompt_flow_ai.Prelude.{
  ℕ, ◌≡◌, All, String, Bool, true, false, ◌&&◌, ◌||◌, Option, none, some, List, [], ◌∷◌, map, take,
  drop, length, leb, ◌==◌, str_eq, if◌then◌else◌,
}
use prompt_flow_ai.Prelude.Text.{Text}

pub data PaperStatus : Type 0 where
  published draft pending_review rejected : PaperStatus

-- A row of the papers table; confidences are counted in hundredths.
pub record Paper : Type 0 where
  pub paper_id : ℕ
  pub department_code : String
  pub faculty_id : String
  pub status : PaperStatus
  pub year : ℕ
  pub paper_type : String
  pub overall_confidence : ℕ

-- The settings that `set_rls_context` makes.
pub record Context : Type 0 where
  pub department_code : String
  pub role : String
  pub user_id : String

pub record Filters : Type 0 where
  pub department_code : Option String
  pub year : Option ℕ
  pub paper_type : Option String
  pub min_confidence : Option ℕ
  pub offset : Option ℕ

-- What PostgreSQL answers: the text match with its rank and headline, the similarity of a paper's
-- embedding (`none` where there is none), and the order of rows by falling relevance, which adds
-- no rows.
pub record Database : Type 0 where
  pub matches : (query : Text) → Paper → Bool
  pub ts_rank : (query : Text) → Paper → ℕ
  pub ts_headline : (query : Text) → Paper → Text
  pub similarity : (embedding : Text) → Paper → Option ℕ
  pub by_relevance : List (Paper × ℕ) → List (Paper × ℕ)
  pub by_relevance-All :
      (p : Paper → Bool) (rows : List (Paper × ℕ))
      → All (λ x. p x.0 ≡ true) rows
      → All (λ x. p x.0 ≡ true) (by_relevance rows)

pub record Row : Type 0 where
  pub paper : Paper
  pub relevance_score : ℕ
  pub highlight_snippet : Option Text

-- `dept_scoped_paper_access`
unfoldable pub is_visible : Context → Paper → Bool
is_visible k p =
    str_eq k.role "admin"
    || str_eq p.department_code k.department_code && elim p.status [
      | published ↦ true
      | draft ↦ str_eq p.faculty_id k.user_id
      | pending_review ↦ true
      | rejected ↦ true
    ]

abbrev pub is_published : PaperStatus → Bool
is_published published = true
is_published draft = false
is_published pending_review = false
is_published rejected = false

-- The conditions that the facet filters add: the year, the type and the confidence, not the
-- department.
unfoldable pub passes : Filters → Paper → Bool
passes f p =
    elim f.year [ none ↦ true | some y ↦ p.year == y ]
    && elim f.paper_type [ none ↦ true | some t ↦ str_eq p.paper_type t ]
    && elim f.min_confidence [ none ↦ true | some c ↦ leb c p.overall_confidence ]

-- The rows of a query with their scores; `none` leaves a paper out.
abbrev pub scored : Paper → Option ℕ → List (Paper × ℕ) → List (Paper × ℕ)
scored p none rest = rest
scored p (some n) rest = (p, n) ∷ rest

unfoldable pub select : (Paper → Option ℕ) → List Paper → List (Paper × ℕ)
select score [] = []
select score (p ∷ ps) = scored p (score p) (select score ps)

-- What every query of a session may return.
unfoldable pub in_scope : Context → Filters → Paper → Bool
unfolding is_visible passes
in_scope k f p = is_visible k p && is_published p.status && passes f p

unfoldable pub keyword_score : Database → Context → Text → Filters → Paper → Option ℕ
unfolding in_scope
keyword_score d k query f p =
    if in_scope k f p && d.matches query p then some (d.ts_rank query p) else none

abbrev pub similar_enough : Bool → (similarity_threshold : ℕ) → Option ℕ → Option ℕ
similar_enough allowed threshold none = none
similar_enough allowed threshold (some n) = if allowed && leb threshold n then some n else none

unfoldable pub semantic_score :
    Database → Context → Text → (similarity_threshold : ℕ) → Filters → Paper → Option ℕ
unfolding in_scope
semantic_score d k embedding threshold f p =
    similar_enough (in_scope k f p) threshold (d.similarity embedding p)

abbrev pub page : (limit offset : ℕ) → List (Paper × ℕ) → List (Paper × ℕ)
page limit offset rows = take limit (drop offset rows)

abbrev pub keyword_row : Database → Text → Paper × ℕ → Row
keyword_row d query x = record {
  paper = x.0;
  relevance_score = x.1;
  highlight_snippet = some (d.ts_headline query x.0);
}

abbrev pub semantic_row : Paper × ℕ → Row
semantic_row x = record { paper = x.0; relevance_score = x.1; highlight_snippet = none }

-- `search_keyword`: a page of rows, and the count of all.
unfoldable pub search_keyword :
    Database → Context → Text → (limit offset : ℕ) → Filters → List Paper → List Row × ℕ
unfolding select keyword_score
search_keyword d k query limit offset f papers =
    let found = select (keyword_score d k query f) papers in
    (map (keyword_row d query) (page limit offset (d.by_relevance found)), length found)

-- `search_semantic`
unfoldable pub search_semantic :
    Database
    → Context
    → (embedding : Text) → (limit offset : ℕ) → (similarity_threshold : ℕ) → Filters
    → List Paper
    → List Row × ℕ
unfolding select semantic_score
search_semantic d k embedding limit offset threshold f papers =
    let found = select (semantic_score d k embedding threshold f) papers in
    (map semantic_row (page limit offset (d.by_relevance found)), length found)
