-- ===== src/Search/Service/Cache.antt =====
-- What the cache and the cursor make of a search.
use mathlib.Core.Path.{subst}
use text.Mathlib.TextPositions.{eq_refl}
use prompt_flow_ai.Prelude.{
  ℕ, ◌+◌, ◌<◌, ◌≡◌, ◌∙◌, refl, sym, ap, String, false, ◌&&◌, Option, none, some, arith, if-elim,
  ltb, non_empty, if◌then◌else◌,
}
use prompt_flow_ai.Prelude.Text.{Text}
use prompt_flow_ai.Reports.Access.{UserContext}
use prompt_flow_ai.Search.Repository.{Context, Filters}
use prompt_flow_ai.Search.Service.{
  World, State, SearchRequest, SearchResponse, context_of, offset_of, response_of, sanitize_query,
  key_of, unexpired, get_cached, set_cached, after_lookup, search, dispatch, next_cursor,
}

get_cached-set_cached :
    (t now ttl : ℕ) (key : String) (r : SearchResponse) (s : State)
    → t < now + ttl
    → get_cached t key (set_cached now key r ttl s) ≡ some r
unfolding get_cached set_cached
get_cached-set_cached t now ttl key r s l =
    ap
      (λ b.
        unexpired t (if b then some (record { value = r; expires = now + ttl }) else s.cache key))
      (eq_refl key)
    ∙ if-elim (λ o. o ≡ some r) (ltb t (now + ttl)) _ _ (λ _. refl)
        (λ f. absurd (expired (now + ttl) l f))
  where
    expired : (b : ℕ) → t < b → ltb t b ≡ false → ⊥
    expired b l f = ground arith

module _ (w : World) (u : UserContext) (q : SearchRequest) (s : State) where
  abbrev query : Text
  query = sanitize_query w.settings q.query

  search-miss :
      get_cached w.now (key_of w u query q) s ≡ none
      → search w u q s ≡ (
        response_of w (context_of u) query q s,
        set_cached w.now
            (key_of w u query q)
            (response_of w (context_of u) query q s)
            w.settings.redis_search_cache_ttl
            s,
      )
  unfolding search after_lookup
  search-miss miss = ap (λ o. after_lookup w u query q o s) miss

  search-hit :
      (r : SearchResponse)
      → get_cached w.now (key_of w u query q) s ≡ some r
      → search w u q s ≡ (r, s)
  unfolding search after_lookup
  search-hit r hit = ap (λ o. after_lookup w u query q o s) hit

-- The key of the cache knows the department of a user, but neither the role nor the user: until the
-- entry expires, everybody of the department who asks the same gets the answer that was computed
-- for the first, an admin's view of all departments included.
pub search_shared :
    (w : World) (later : ℕ) (first second : UserContext) (q : SearchRequest) (s : State)
    → second.department_code ≡ first.department_code
    → get_cached w.now (key_of w first (sanitize_query w.settings q.query) q) s ≡ none
    → later < w.now + w.settings.redis_search_cache_ttl
    → search (record w { now = later }) second q (search w first q s).1 ≡ search w first q s
unfolding key_of
search_shared w later first second q s same miss l =
    let key = key_of w first (query w first q s) q in
    let response = response_of w (context_of first) (query w first q s) q s in
    let after = set_cached w.now key response w.settings.redis_search_cache_ttl s in
    subst (λ x. search (record w { now = later }) second q x.1 ≡ x)
      (sym (search-miss w first q s miss))
      (search-hit (record w { now = later }) second q after response
        (subst
          (λ d.
            get_cached later
              (w.digest (record {
                query = query w first q s;
                mode = q.mode;
                dept = d;
                filters = q.filters;
                limit = q.limit;
                cursor = q.cursor;
              }))
              after
            ≡ some response)
          (sym same)
          (get_cached-set_cached later w.now w.settings.redis_search_cache_ttl key response s l)))

offset-zero :
    (w : World) (cursor : Option Text) (f : Filters) → f.offset ≡ none → offset_of w cursor f ≡ 0
unfolding offset_of
offset-zero w none f h = refl
offset-zero w (some c) f h =
    if-elim (λ n. n ≡ 0) (non_empty c && w.decodes_cursor c) _ _
      (λ _. ap (λ o. elim o as (λ _. ℕ) [ none ↦ 0 | some n ↦ n ]) h) (λ _. refl)

-- The endpoint never fills in an offset, so a cursor changes nothing: the page after any cursor is
-- the first page again, with the same cursor to go on from.
pub search-cursor :
    (w : World) (u : UserContext) (q : SearchRequest) (cursor : Option Text) (s : State)
    → q.filters.offset ≡ none
    → get_cached w.now (key_of w u (sanitize_query w.settings q.query) q) s ≡ none
    → get_cached w.now
        (key_of w u (sanitize_query w.settings q.query) (record q { cursor = cursor }))
        s
      ≡ none
    → (search w u (record q { cursor = cursor }) s).0 ≡ (search w u q s).0
unfolding response_of
search-cursor w u q cursor s h a b =
    ap (λ x. x.0) (search-miss w u (record q { cursor = cursor }) s b)
    ∙ ap (at_offset w (context_of u) (sanitize_query w.settings q.query) q s)
        (offset-zero w cursor q.filters h ∙ sym (offset-zero w q.cursor q.filters h))
    ∙ sym (ap (λ x. x.0) (search-miss w u q s a))
  where
    at_offset : World → Context → Text → SearchRequest → State → ℕ → SearchResponse
    at_offset w k t q s n =
        let found = dispatch w k q.mode q.embedding t q.limit n q.filters s in
        record {
          results = found.0;
          total_count = found.1;
          mode = q.mode;
          query = t;
          limit = q.limit;
          next_cursor = next_cursor w q.limit n found;
        }
