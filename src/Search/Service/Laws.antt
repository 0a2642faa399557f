-- ===== src/Search/Service/Laws.antt =====
-- What a search that is not answered from the cache may return.
use mathlib.Core.Path.{subst}
use prompt_flow_ai.Prelude.{
  All-weaken, ℕ, suc, ◌≤◌, ◌≡◌, refl, sym, ap, Bool, true, ◌&&◌, Option, none, some, List, [], ◌∷◌,
  map, take, drop, length, length-take, length-map, All, All-take, All-drop, All-map, arith, both,
  not_some, or_else, ◌⊎◌, if-elim, leb, ◌==◌, non_empty, inl, inr, if◌then◌else◌,
}
use prompt_flow_ai.Prelude.Text.{Text}
use prompt_flow_ai.Reports.Access.{UserContext}
use prompt_flow_ai.Search.Rrf.{Entry}
use prompt_flow_ai.Search.Repository.{
  Paper, Context, Filters, Database, Row, in_scope, scored, similar_enough, select, keyword_score,
  semantic_score, keyword_row, semantic_row, page, search_keyword, search_semantic,
}
use prompt_flow_ai.Search.Service.{
  World, State, SearchMode, keyword_mode, semantic_mode, hybrid_mode, SearchRequest, SearchResult,
  Found, context_of, search_keyword_mode, embedding_of, semantic_found, last_row, row_lookup,
  with_row, fused_results, candidate_pool_size, ranked_of, fuse, search_hybrid_mode, dispatch,
  offset_of, response_of, sanitize_query, key_of, get_cached, after_lookup, search,
}

-- The papers of a list that a user may see and asked for.
abbrev pub InScope : Context → Filters → Paper → Type 0
InScope k f p = in_scope k f p ≡ true

or_else-cases :
    {A : Type 0} (a b : Option A) (x : A) → or_else a b ≡ some x → (a ≡ some x) ⊎ (b ≡ some x)
or_else-cases none b x e = inr e
or_else-cases (some a) b x e = inl e

row_or : Row → Option Row → Row
row_or d none = d
row_or d (some r) = r

module _ (k : Context) (f : Filters) where
  scored-InScope :
      (p : Paper) (o : Option ℕ) (rest : List (Paper × ℕ))
      → ((n : ℕ) → o ≡ some n → InScope k f p)
      → All (λ x. InScope k f x.0) rest
      → All (λ x. InScope k f x.0) (scored p o rest)
  scored-InScope p none rest g h = h
  scored-InScope p (some n) rest g h = (g n refl, h)

  select-InScope :
      (score : Paper → Option ℕ)
      → ((p : Paper) (n : ℕ) → score p ≡ some n → InScope k f p)
      → (ps : List Paper) → All (λ x. InScope k f x.0) (select score ps)
  unfolding select
  select-InScope score h [] = tt
  select-InScope score h (p ∷ ps) =
      scored-InScope p (score p) (select score ps) (h p) (select-InScope score h ps)

  conditional :
      (b c : Bool) (n m : ℕ)
      → ◌≡◌ {A = Option ℕ} (if b && c then some n else none) (some m)
      → b ≡ true
  conditional b c n m =
      if-elim (λ o. o ≡ some m → b ≡ true) (b && c) _ _ (λ t _. (both t).0)
        (λ _ e. absurd (not_some e))

  keyword_score-InScope :
      (d : Database) (query : Text) (p : Paper) (n : ℕ)
      → keyword_score d k query f p ≡ some n
      → InScope k f p
  unfolding keyword_score
  keyword_score-InScope d query p n = conditional (in_scope k f p) (d.matches query p) _ n

  similar_enough-allowed :
      (allowed : Bool) (threshold n : ℕ) (o : Option ℕ)
      → similar_enough allowed threshold o ≡ some n
      → allowed ≡ true
  similar_enough-allowed allowed threshold n none e = absurd (not_some e)
  similar_enough-allowed allowed threshold n (some m) e =
      conditional allowed (leb threshold m) m n e

  semantic_score-InScope :
      (d : Database) (embedding : Text) (threshold : ℕ) (p : Paper) (n : ℕ)
      → semantic_score d k embedding threshold f p ≡ some n
      → InScope k f p
  unfolding semantic_score
  semantic_score-InScope d embedding threshold p n =
      similar_enough-allowed (in_scope k f p) threshold n (d.similarity embedding p)

  -- A page of rows in the order of relevance.
  page-InScope :
      (d : Database) (limit offset : ℕ) (rows : List (Paper × ℕ))
      → All (λ x. InScope k f x.0) rows
      → All (λ x. InScope k f x.0) (page limit offset (d.by_relevance rows))
  page-InScope d limit offset rows h =
      All-take (λ x. InScope k f x.0) limit (drop offset (d.by_relevance rows))
        (All-drop (λ x. InScope k f x.0) offset (d.by_relevance rows)
          (d.by_relevance-All (in_scope k f) rows h))

  search_keyword-InScope :
      (d : Database) (query : Text) (limit offset : ℕ) (ps : List Paper)
      → All (λ r. InScope k f r.paper) (search_keyword d k query limit offset f ps).0
  unfolding search_keyword
  search_keyword-InScope d query limit offset ps =
      All-map (λ r. InScope k f r.paper) (keyword_row d query) _
        (page-InScope d limit offset _
          (select-InScope (keyword_score d k query f) (keyword_score-InScope d query) ps))

  search_semantic-InScope :
      (d : Database) (embedding : Text) (limit offset threshold : ℕ) (ps : List Paper)
      → All (λ r. InScope k f r.paper) (search_semantic d k embedding limit offset threshold f ps).0
  unfolding search_semantic
  search_semantic-InScope d embedding limit offset threshold ps =
      All-map (λ r. InScope k f r.paper) semantic_row _
        (page-InScope d limit offset _ (
          select-InScope (semantic_score d k embedding threshold f)
            (semantic_score-InScope d embedding threshold) ps))

  last_row-InScope :
      (i : ℕ) (rows : List Row) (r : Row)
      → All (λ r. InScope k f r.paper) rows
      → last_row i rows ≡ some r
      → InScope k f r.paper
  unfolding last_row row_or
  last_row-InScope i [] r h e = absurd (not_some e)
  last_row-InScope i (x ∷ rows) r (p, h) e =
      elim (or_else-cases (last_row i rows) (if x.paper.paper_id == i then some x else none) r e) [
        | inl later ↦ last_row-InScope i rows r h later
        | inr here ↦
            if-elim (λ o. o ≡ some r → InScope k f r.paper) (x.paper.paper_id == i) _ _
              (λ _ s. subst (λ y. InScope k f y.paper) (ap (row_or x) s) p)
              (λ _ s. absurd (not_some s)) here
      ]

  row_lookup-InScope :
      (i : ℕ) (rows others : List Row) (r : Row)
      → All (λ r. InScope k f r.paper) rows
      → All (λ r. InScope k f r.paper) others
      → row_lookup rows others i ≡ some r
      → InScope k f r.paper
  unfolding row_lookup
  row_lookup-InScope i rows others r h g e =
      elim (or_else-cases (last_row i rows) (last_row i others) r e) [
        | inl a ↦ last_row-InScope i rows r h a
        | inr b ↦ last_row-InScope i others r g b
      ]

  -- Results of papers in scope, at most as many as asked for.
  pub record IsPage (limit : ℕ) (results : List SearchResult) : Type 0 where
    pub all_in_scope : All (λ r. InScope k f r.paper) results
    pub at_most : length results ≤ limit

  nothing : (limit : ℕ) → IsPage limit []
  nothing limit = record { all_in_scope = tt; at_most = omega arith }

  rows-IsPage :
      (g : Row → SearchResult)
      → ((r : Row) → (g r).paper ≡ r.paper)
      → (limit : ℕ) (rows : List Row) → All (λ r. InScope k f r.paper) rows
      → length rows ≤ limit
      → IsPage limit (map g rows)
  rows-IsPage g same limit rows h l = record {
    all_in_scope =
        All-map (λ r. InScope k f r.paper) g rows
          (All-weaken (λ r. InScope k f r.paper) (λ r. InScope k f (g r).paper) rows
            (λ r x. subst (InScope k f) (sym (same r)) x) h);
    at_most = omega (arith, length-map g rows);
  }

module _ (w : World) (k : Context) (f : Filters) where
  page-length :
      (limit offset : ℕ) (rows : List (Paper × ℕ)) → length (page limit offset rows) ≤ limit
  page-length limit offset rows = length-take limit (drop offset rows)

  search_keyword-length :
      (query : Text) (limit offset : ℕ) (ps : List Paper)
      → length (search_keyword w.database k query limit offset f ps).0 ≤ limit
  unfolding search_keyword
  search_keyword-length query limit offset ps = omega (
    arith,
    length-map (keyword_row w.database query) (
        page limit offset
          (w.database.by_relevance (select (keyword_score w.database k query f) ps))),
    page-length limit offset
        (w.database.by_relevance (select (keyword_score w.database k query f) ps)),
  )

  search_semantic-length :
      (embedding : Text) (limit offset threshold : ℕ) (ps : List Paper)
      → length (search_semantic w.database k embedding limit offset threshold f ps).0 ≤ limit
  unfolding search_semantic
  search_semantic-length embedding limit offset threshold ps = omega (
    arith,
    length-map semantic_row (
        page limit offset (
          w.database.by_relevance (select (semantic_score w.database k embedding threshold f) ps))),
    page-length limit offset
        (w.database.by_relevance (select (semantic_score w.database k embedding threshold f) ps)),
  )

  -- Fused results come from one of the two lists of rows.
  with_row-InScope :
      (e : Entry) (o : Option Row) (rest : List SearchResult)
      → ((r : Row) → o ≡ some r → InScope k f r.paper)
      → All (λ r. InScope k f r.paper) rest
      → All (λ r. InScope k f r.paper) (with_row e o rest)
  with_row-InScope e none rest g h = h
  with_row-InScope e (some r) rest g h = (g r refl, h)

  with_row-length :
      (e : Entry) (o : Option Row) (rest : List SearchResult)
      → length (with_row e o rest) ≤ suc (length rest)
  with_row-length e none rest = omega arith
  with_row-length e (some r) rest = omega arith

  module _ (keyword_rows semantic_rows : List Row) where
    fused_results-length :
        (es : List Entry) → length (fused_results keyword_rows semantic_rows es) ≤ length es
    unfolding fused_results
    fused_results-length [] = omega arith
    fused_results-length (e ∷ es) = omega (
      arith,
      fused_results-length es,
      with_row-length e (row_lookup keyword_rows semantic_rows e.paper_id)
          (fused_results keyword_rows semantic_rows es),
    )

    fused_results-InScope :
        (es : List Entry)
        → All (λ r. InScope k f r.paper) keyword_rows
        → All (λ r. InScope k f r.paper) semantic_rows
        → All (λ r. InScope k f r.paper) (fused_results keyword_rows semantic_rows es)
    unfolding fused_results
    fused_results-InScope [] h g = tt
    fused_results-InScope (e ∷ es) h g =
        with_row-InScope e (row_lookup keyword_rows semantic_rows e.paper_id) _
          (λ r x. row_lookup-InScope k f e.paper_id keyword_rows semantic_rows r h g x)
          (fused_results-InScope es h g)

    fuse-IsPage :
        (limit offset : ℕ)
        → All (λ r. InScope k f r.paper) keyword_rows
        → All (λ r. InScope k f r.paper) semantic_rows
        → IsPage k f limit (fuse w limit offset keyword_rows semantic_rows).0
    unfolding fuse
    fuse-IsPage limit offset h g =
        let places = take limit (drop offset (ranked_of w keyword_rows semantic_rows)) in
        record {
          all_in_scope = fused_results-InScope places h g;
          at_most = omega (
            arith,
            fused_results-length places,
            length-take limit (drop offset (ranked_of w keyword_rows semantic_rows)),
          );
        }

  semantic_found-IsPage :
      (e : Option Text) (limit offset : ℕ) (s : State)
      → IsPage k f limit (semantic_found w k e limit offset f s).0
  unfolding semantic_found
  semantic_found-IsPage none limit offset s = nothing k f limit
  semantic_found-IsPage (some e) limit offset s =
      rows-IsPage k f _ (λ r. refl) limit
        (search_semantic w.database k e limit offset 50 f s.papers).0
        (search_semantic-InScope k f w.database e limit offset 50 s.papers)
        (search_semantic-length e limit offset 50 s.papers)

  abbrev FoundPage : ℕ → Found → Type 0
  FoundPage limit r = IsPage k f limit r.0

  dispatch-IsPage :
      (mode : SearchMode) (embedding : Option Text) (query : Text) (limit offset : ℕ) (s : State)
      → IsPage k f limit (dispatch w k mode embedding query limit offset f s).0
  unfolding dispatch search_keyword_mode search_hybrid_mode
  dispatch-IsPage keyword_mode embedding query limit offset s =
      if-elim (FoundPage limit) (non_empty query) _ _
        (λ _.
          rows-IsPage k f _ (λ r. refl) limit
            (search_keyword w.database k query limit offset f s.papers).0
            (search_keyword-InScope k f w.database query limit offset s.papers)
            (search_keyword-length query limit offset s.papers))
        (λ _. nothing k f limit)
  dispatch-IsPage semantic_mode embedding query limit offset s =
      semantic_found-IsPage (embedding_of w embedding query) limit offset s
  dispatch-IsPage hybrid_mode embedding query limit offset s =
      if-elim (FoundPage limit) (non_empty query) _ _
        (λ _.
          fuse-IsPage _ _ limit offset
            (search_keyword-InScope k f w.database query (candidate_pool_size w limit) 0 s.papers)
            (search_semantic-InScope k f w.database _ (candidate_pool_size w limit) 0 30 s.papers))
        (λ _. nothing k f limit)

-- A search that the cache does not answer gives, in every mode, at most `limit` results, each a
-- published paper that the row-level policy shows to this user and that passes the filters for the
-- year, the type and the confidence.
pub search-IsPage :
    (w : World) (u : UserContext) (q : SearchRequest) (s : State)
    → get_cached w.now (key_of w u (sanitize_query w.settings q.query) q) s ≡ none
    → IsPage (context_of u) q.filters q.limit (search w u q s).0.results
unfolding search after_lookup response_of
search-IsPage w u q s miss =
    subst
      (λ o.
        IsPage (context_of u) q.filters q.limit
          (after_lookup w u (sanitize_query w.settings q.query) q o s).0.results)
      (sym miss)
      (dispatch-IsPage w (context_of u) q.filters q.mode q.embedding
        (sanitize_query w.settings q.query) q.limit (offset_of w q.cursor q.filters) s)
