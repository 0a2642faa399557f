-- ===== src/Search/Tests.antt =====
-- Concrete runs of module 5, and its theorems at them.
use prompt_flow_ai.Prelude.{
  ℕ, ◌≡◌, refl, String, true, none, some, [], ◌∷◌, map, All, arith, str_eq,
}
use prompt_flow_ai.Prelude.Text.{codes, strip, is_space}
use prompt_flow_ai.Reports.Access.{UserContext}
use prompt_flow_ai.Search.Repository.{
  Paper, published, Database, Filters, search_keyword, search_semantic, keyword_score,
  semantic_score, select, in_scope, is_visible, passes,
}
use prompt_flow_ai.Search.Service.{
  World, State, settings, SearchRequest, SearchResult, keyword_mode, context_of, search, get_cached,
  set_cached, key_of, sanitize_query, response_of, dispatch, search_keyword_mode,
  search_hybrid_mode, fuse, next_cursor, offset_of,
}
use prompt_flow_ai.Search.Service.Laws.{IsPage, search-IsPage}
use prompt_flow_ai.Search.Service.Cache.{search_shared}
use prompt_flow_ai.Search.Rrf.{combine, rank}
use prompt_flow_ai.Search.Rrf.Ranking.{Descending, occurrences, AtMostOne, rank_lem}

rank_lem_example :
    let es = combine 60 (1 ∷ 2 ∷ 3 ∷ []) (2 ∷ 1 ∷ []) (3 ∷ 2 ∷ []) in
    Descending (rank es)
    × ((x : ℕ) → occurrences x (rank es) ≡ occurrences x es)
    × All AtMostOne (rank es)
rank_lem_example = rank_lem 60 (1 ∷ 2 ∷ 3 ∷ []) (2 ∷ 1 ∷ []) (3 ∷ 2 ∷ [])

-- The service: an admin and a faculty member of CSE, and papers of two departments.
searches : Unit {0}
unfolding search get_cached set_cached key_of sanitize_query response_of dispatch
    search_keyword_mode search_hybrid_mode search_keyword search_semantic keyword_score
    semantic_score select in_scope is_visible passes fuse next_cursor offset_of strip is_space
    combine rank
searches = tt

abbrev paper : ℕ → String → Paper
paper n department = record {
  paper_id = n;
  department_code = department;
  faculty_id = "f1";
  status = published;
  year = 2025;
  paper_type = "journal";
  overall_confidence = 90;
}

abbrev database : Database
database = record {
  matches = λ q p. true;
  ts_rank = λ q p. 5000;
  ts_headline = λ q p. codes "<mark>";
  similarity = λ e p. some 90;
  by_relevance = λ rows. rows;
  by_relevance-All = λ p rows h. h;
}

abbrev world : World
world = record {
  settings = settings;
  now = 100;
  database = database;
  encode_query = λ q. q;
  digest = λ k. k.dept;
  encode_cursor = λ p. codes "cursor";
  decodes_cursor = λ c. true;
  set_of_ids = λ a b. a;
}

abbrev caller : String → UserContext
caller role = record {
  user_id = "user_1";
  department_code = "CSE";
  role = role;
  faculty_id = none;
  is_admin = str_eq role "admin";
}

abbrev no_filters : Filters
no_filters = record {
  department_code = none;
  year = none;
  paper_type = none;
  min_confidence = none;
  offset = none;
}

abbrev asked : SearchRequest
asked = record {
  query = codes "graphs";
  mode = keyword_mode;
  embedding = none;
  limit = 1;
  cursor = none;
  filters = no_filters;
}

abbrev start : State
start = record { papers = paper 1 "ECE" ∷ paper 2 "CSE" ∷ []; cache = λ k. none }

-- What is seen is the paper of the other department.
leaks :
    map
      (λ (r : SearchResult). r.paper.department_code)
      (search
        (record world { now = 200 })
        (caller "faculty")
        asked
        (search world (caller "admin") asked start).1).0.results
    ≡ "ECE" ∷ []
unfolding searches
leaks = refl

search_shared_example :
    search
      (record world { now = 200 })
      (caller "faculty")
      asked
      (search world (caller "admin") asked start).1
    ≡ search world (caller "admin") asked start
unfolding searches
search_shared_example =
    search_shared world 200 (caller "admin") (caller "faculty") asked start refl refl (omega arith)

search-IsPage_example :
    IsPage
      (context_of (caller "faculty"))
      no_filters
      1
      (search world (caller "faculty") asked start).0.results
unfolding searches
search-IsPage_example = search-IsPage world (caller "faculty") asked start refl
