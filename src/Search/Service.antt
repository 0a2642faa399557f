-- ===== src/Search/Service.antt =====
-- module5-search/app/services/search_service.py with the cache of services/redis_service.py and the
-- endpoint of routes/search.py. A relevance score is a fraction; the latency of an answer is left
-- out.
pub mod Laws
pub mod Cache
use prompt_flow_ai.Prelude.{
  ℕ, zero, suc, ◌+◌, ◌*◌, String, Bool, true, false, not, ◌&&◌, ◌||◌, Option, none, some, List, [],
  ◌∷◌, ◌++◌, map, take, drop, length, ltb, leb, ◌==◌, non_empty, or_else, str_eq, if◌then◌else◌,
}
use prompt_flow_ai.Prelude.Text.{Text, is_space, strip}
use prompt_flow_ai.Reports.Access.{UserContext}
use prompt_flow_ai.Search.Rrf.{Fraction, Entry, Mode, keyword, semantic, combine, rank}
use prompt_flow_ai.Search.Repository.{
  Paper, Context, Filters, Database, Row, search_keyword, search_semantic,
}

pub record Settings : Type 0 where
  pub query_max_length : ℕ
  pub rrf_k : ℕ
  pub search_results_max : ℕ
  pub redis_search_cache_ttl : ℕ

abbrev pub settings : Settings
settings = record {
  query_max_length = 200;
  rrf_k = 60;
  search_results_max = 100;
  redis_search_cache_ttl = 300;
}

-- `_SANITIZE_PATTERN`: control characters and semicolons become spaces.
unfoldable pub cleaned : ℕ → ℕ
cleaned c = if c == 59 || leb c 31 || c == 127 then 32 else c

-- `re.sub(r"\s+", " ", ...)`; the flag tells that the last code point was white space.
unfoldable pub collapse : Bool → Text → Text
unfolding is_space
collapse after_space [] = []
collapse after_space (c ∷ t) =
    let more = collapse true t in
    let fresh = collapse false t in
    if is_space c then (if after_space then more else 32 ∷ more) else c ∷ fresh

unfoldable pub sanitize_query : Settings → Text → Text
unfolding cleaned collapse strip
sanitize_query c raw = take c.query_max_length (strip (collapse false (map cleaned raw)))

pub data SearchMode : Type 0 where
  keyword_mode semantic_mode hybrid_mode : SearchMode

pub record SearchRequest : Type 0 where
  pub query : Text
  pub mode : SearchMode
  pub embedding : Option Text
  pub limit : ℕ
  pub cursor : Option Text
  pub filters : Filters

pub record SearchResult : Type 0 where
  pub paper : Paper
  pub relevance_score : Fraction
  pub search_mode : SearchMode
  pub highlight_snippet : Option Text

pub record SearchResponse : Type 0 where
  pub results : List SearchResult
  pub total_count : ℕ
  pub mode : SearchMode
  pub query : Text
  pub limit : ℕ
  pub next_cursor : Option Text

-- The fields that the key of the cache hashes.
pub record KeyFields : Type 0 where
  pub query : Text
  pub mode : SearchMode
  pub dept : String
  pub filters : Filters
  pub limit : ℕ
  pub cursor : Option Text

-- The database, the embedding model, the digest of the key's JSON, the cursor's codec (`decode`
-- tells whether it raises), and the order in which Python goes through the set of paper ids.
pub record World : Type 0 where
  pub settings : Settings
  pub now : ℕ
  pub database : Database
  pub encode_query : Text → Text
  pub digest : KeyFields → String
  pub encode_cursor : Paper → Text
  pub decodes_cursor : Text → Bool
  pub set_of_ids : List ℕ → List ℕ → List ℕ

pub record CacheEntry : Type 0 where
  pub value : SearchResponse
  pub expires : ℕ

pub record State : Type 0 where
  pub papers : List Paper
  pub cache : String → Option CacheEntry

-- `user` of the endpoint, for `set_rls_context`
abbrev pub context_of : UserContext → Context
context_of u = record { department_code = u.department_code; role = u.role; user_id = u.user_id }

-- `_row_to_search_result`: the score between 0 and 1, in ten-thousandths.
abbrev pub row_to_search_result : SearchMode → Row → SearchResult
row_to_search_result mode r = record {
  paper = r.paper;
  relevance_score = record {
    num = if ltb r.relevance_score 10000 then r.relevance_score else 10000;
    den = 10000;
  };
  search_mode = mode;
  highlight_snippet = r.highlight_snippet;
}

abbrev pub Found : Type 0
Found = List SearchResult × ℕ

unfoldable pub search_keyword_mode :
    World → Context → Text → (limit offset : ℕ) → Filters → State → Found
unfolding search_keyword
search_keyword_mode w k query limit offset f s =
    if non_empty query
    then (let r = search_keyword w.database k query limit offset f s.papers in
        (map (row_to_search_result keyword_mode) r.0, r.1))
    else ([], 0)

-- The embedding of a search by meaning; `none` when there is neither an embedding nor a query.
unfoldable pub embedding_of : World → Option Text → Text → Option Text
embedding_of w (some e) query = some e
embedding_of w none query = if non_empty query then some (w.encode_query query) else none

unfoldable pub semantic_found :
    World → Context → Option Text → (limit offset : ℕ) → Filters → State → Found
unfolding search_semantic
semantic_found w k none limit offset f s = ([], 0)
semantic_found w k (some embedding) limit offset f s =
    let r = search_semantic w.database k embedding limit offset 50 f s.papers in
    (
      map (λ row. record (row_to_search_result semantic_mode row) { highlight_snippet = none }) r.0,
      r.1,
    )

abbrev pub ids : List Row → List ℕ
ids rows = map (λ (r : Row). r.paper.paper_id) rows

-- `row_lookup`, where a later row of a list wins, and the keyword rows win
unfoldable pub last_row : ℕ → List Row → Option Row
last_row i [] = none
last_row i (r ∷ rs) = or_else (last_row i rs) (if r.paper.paper_id == i then some r else none)

unfoldable pub row_lookup : (keyword_rows semantic_rows : List Row) → ℕ → Option Row
unfolding last_row
row_lookup keyword_rows semantic_rows i =
    or_else (last_row i keyword_rows) (last_row i semantic_rows)

-- The result of one place of the fused ranking.
abbrev pub fused_result : Entry → Row → SearchResult
fused_result e r = record (row_to_search_result hybrid_mode r) {
  relevance_score = e.score;
  highlight_snippet = elim e.mode [ keyword ↦ r.highlight_snippet | semantic ↦ none ];
}

abbrev pub with_row : Entry → Option Row → List SearchResult → List SearchResult
with_row e none rest = rest
with_row e (some r) rest = fused_result e r ∷ rest

unfoldable pub fused_results :
    (keyword_rows semantic_rows : List Row) → List Entry → List SearchResult
unfolding row_lookup
fused_results keyword_rows semantic_rows [] = []
fused_results keyword_rows semantic_rows (e ∷ es) =
    with_row e (row_lookup keyword_rows semantic_rows e.paper_id)
      (fused_results keyword_rows semantic_rows es)

-- `min(limit * 3, SEARCH_RESULTS_MAX)`
abbrev pub candidate_pool_size : World → ℕ → ℕ
candidate_pool_size w limit =
    if ltb (limit * 3) w.settings.search_results_max
    then limit * 3
    else w.settings.search_results_max

unfoldable pub ranked_of : World → (keyword_rows semantic_rows : List Row) → List Entry
unfolding combine rank
ranked_of w keyword_rows semantic_rows = rank (
    combine w.settings.rrf_k (w.set_of_ids (ids keyword_rows) (ids semantic_rows))
      (ids keyword_rows) (ids semantic_rows))

-- `_search_hybrid` after the two searches
unfoldable pub fuse : World → (limit offset : ℕ) → (keyword_rows semantic_rows : List Row) → Found
unfolding ranked_of fused_results
fuse w limit offset keyword_rows semantic_rows =
    let ranked = ranked_of w keyword_rows semantic_rows in
    (fused_results keyword_rows semantic_rows (take limit (drop offset ranked)), length ranked)

unfoldable pub search_hybrid_mode :
    World → Context → Option Text → Text → (limit offset : ℕ) → Filters → State → Found
unfolding search_keyword search_semantic fuse
search_hybrid_mode w k embedding query limit offset f s =
    let pool = candidate_pool_size w limit in
    let vector : Text = elim embedding [ none ↦ w.encode_query query | some e ↦ e ] in
    if non_empty query
    then fuse w limit offset (search_keyword w.database k query pool 0 f s.papers).0
        (search_semantic w.database k vector pool 0 30 f s.papers).0
    else ([], 0)

unfoldable pub dispatch :
    World → Context → SearchMode → Option Text → Text → (limit offset : ℕ) → Filters → State → Found
unfolding search_keyword_mode semantic_found embedding_of search_hybrid_mode
dispatch w k keyword_mode embedding query limit offset f s =
    search_keyword_mode w k query limit offset f s
dispatch w k semantic_mode embedding query limit offset f s =
    semantic_found w k (embedding_of w embedding query) limit offset f s
dispatch w k hybrid_mode embedding query limit offset f s =
    search_hybrid_mode w k embedding query limit offset f s

-- The offset is taken from the filters when there is a cursor and it decodes.
unfoldable pub offset_of : World → Option Text → Filters → ℕ
offset_of w none f = 0
offset_of w (some cursor) f =
    if non_empty cursor && w.decodes_cursor cursor
    then elim f.offset [ none ↦ 0 | some n ↦ n ]
    else 0

unfoldable pub last_result : List SearchResult → Option SearchResult
last_result [] = none
last_result (r ∷ rs) = elim (last_result rs) [ none ↦ some r | some l ↦ some l ]

-- `results[-1]` raises on an empty list; a limit is at least 1.
unfoldable pub next_cursor : World → (limit offset : ℕ) → Found → Option Text
unfolding last_result
next_cursor w limit offset (results, total) =
    if length results == limit && ltb (offset + limit) total
    then elim (last_result results) [ none ↦ none | some r ↦ some (w.encode_cursor r.paper) ]
    else none

unfoldable pub key_of : World → UserContext → Text → SearchRequest → String
key_of w u query q = w.digest (record {
  query = query;
  mode = q.mode;
  dept = u.department_code;
  filters = q.filters;
  limit = q.limit;
  cursor = q.cursor;
})

-- GET of a key: a value lasts for its time to live.
abbrev pub unexpired : ℕ → Option CacheEntry → Option SearchResponse
unexpired now none = none
unexpired now (some e) = if ltb now e.expires then some e.value else none

unfoldable pub get_cached : ℕ → String → State → Option SearchResponse
get_cached now key s = unexpired now (s.cache key)

-- SET with EX
unfoldable pub set_cached : ℕ → String → SearchResponse → ℕ → State → State
set_cached now key value ttl s = record s {
  cache =
      λ k. if str_eq k key then some (record { value = value; expires = now + ttl }) else s.cache k;
}

unfoldable pub response_of : World → Context → Text → SearchRequest → State → SearchResponse
unfolding dispatch next_cursor offset_of
response_of w k query q s =
    let offset = offset_of w q.cursor q.filters in
    let found = dispatch w k q.mode q.embedding query q.limit offset q.filters s in
    record {
      results = found.0;
      total_count = found.1;
      mode = q.mode;
      query = query;
      limit = q.limit;
      next_cursor = next_cursor w q.limit offset found;
    }

unfoldable pub after_lookup :
    World
    → UserContext
    → Text
    → SearchRequest
    → Option SearchResponse
    → State
    → SearchResponse × State
unfolding response_of set_cached key_of
after_lookup w u query q (some cached) s = (cached, s)
after_lookup w u query q none s =
    let response = response_of w (context_of u) query q s in
    (response, set_cached w.now (key_of w u query q) response w.settings.redis_search_cache_ttl s)

-- `SearchService.search`
unfoldable pub search : World → UserContext → SearchRequest → State → SearchResponse × State
unfolding after_lookup get_cached key_of sanitize_query
search w u q s =
    let query = sanitize_query w.settings q.query in
    after_lookup w u query q (get_cached w.now (key_of w u query q) s) s
