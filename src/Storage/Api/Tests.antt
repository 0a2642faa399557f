-- ===== src/Storage/Api/Tests.antt =====
-- Concrete requests to module 4, and its theorems at them.
use prompt_flow_ai.Prelude.{
  ℕ, ◌≡◌, refl, true, false, Option, none, some, List, [], ◌∷◌, map, length,
}
use prompt_flow_ai.Prelude.Text.{Text, codes, text_eq}
use prompt_flow_ai.Http.{Answer, ok, http_error, unhandled}
use prompt_flow_ai.Storage.Schemas.{published, PaperCreate}
use prompt_flow_ai.Storage.Api.Tables.{Version, Database, versions_of}
use prompt_flow_ai.Storage.Api.Context.{World, Headers}
use prompt_flow_ai.Storage.Api.Papers.{create_paper}
use prompt_flow_ai.Storage.Api.Updates.{PaperUpdate, update_paper}
use prompt_flow_ai.Storage.Api.Reads.{Filters, list_papers, export_papers}
use prompt_flow_ai.Storage.Api.Steps.{has_id, updated}
use prompt_flow_ai.Storage.Api.Chain.{IsVersioned}
use prompt_flow_ai.Storage.Api.History.{Step-IsVersioned}
use prompt_flow_ai.Storage.Api.Scope.{IsScoped, list_papers-IsScoped}

-- What the definitions compute through.
api : Unit {0}
unfolding create_paper update_paper list_papers export_papers versions_of has_id text_eq
api = tt

abbrev digits : Text
digits = codes "0123456789abcdef0123456789abcdef0123456789abcdef0123456789abcdef"

abbrev paper : PaperCreate
paper = record {
  ingestion_idempotency_key = digits;
  extraction_id = codes "e1";
  title = codes "Proof Checking in Practice";
  authors = record { name = codes "Ada Lovelace"; affiliation = none; order = 1 } ∷ [];
  venue = none;
  year = 2021;
  doi = none;
  paper_type = codes "journal";
  faculty_id = codes "f1";
  faculty_email = codes "ada@srmap.edu.in";
  department_code = codes "CSE";
  status = published;
  overall_confidence = 9012;
  raw_text_hash = digits;
  attachment_uris = [];
  embedding = none;
}

abbrev world : World
world = record {
  allow_missing_auth_headers = false;
  now = 5;
  current_year = 2025;
  new_id = 1;
  trace_id = 7;
  commits = true;
}

abbrev headers : Text → Headers
headers department = record {
  x_department_code = some department;
  x_role = some (codes "coordinator");
  x_user_id = some (codes "c1");
}

abbrev empty_database : Database
empty_database = record { papers = []; versions = []; issues = []; audit_log = [] }

abbrev correction : PaperUpdate
correction = record {
  title = some (codes "Proof Checking in Theory");
  venue = none;
  year = none;
  doi = none;
  paper_type = none;
  status = none;
  overall_confidence = none;
  embedding = none;
  change_reason = codes "wrong title";
}

abbrev numbers : ℕ → Database → List ℕ
unfolding versions_of
numbers id db = map Version.version_number (versions_of id db.versions)

abbrev length_of : {A : Type 0} → Answer (List A) → Option ℕ
length_of (ok xs) = some (length xs)
length_of (http_error status detail) = none
length_of unhandled = none

-- One paper with its first version.
one_paper : Database
unfolding create_paper
one_paper = (create_paper world (headers (codes "CSE")) paper empty_database).1

first : numbers 1 one_paper ≡ 1 ∷ []
unfolding one_paper api text_eq
first = refl

one_paper-IsVersioned : IsVersioned one_paper
unfolding one_paper api text_eq
one_paper-IsVersioned = (((refl, refl, tt), tt), (refl, tt))

second :
    numbers 1 (update_paper world (headers (codes "CSE")) 1 correction one_paper).1 ≡ 2 ∷ 1 ∷ []
unfolding one_paper api text_eq
second = refl

-- Of another department: no row is seen.
not_found :
    (update_paper world (headers (codes "ECE")) 1 correction one_paper).0
    ≡ http_error 404 "not found"
unfolding one_paper api text_eq
not_found = refl

Step-IsVersioned_example :
    IsVersioned (update_paper world (headers (codes "CSE")) 1 correction one_paper).1
Step-IsVersioned_example =
    Step-IsVersioned one_paper _ (updated world (headers (codes "CSE")) 1 correction)
      one_paper-IsVersioned

abbrev no_filters : Filters
no_filters = record { department_code = none; status = none; year = none; faculty_id = none }

listed_one :
    length_of (list_papers world (headers (codes "CSE")) no_filters 50 0 one_paper).0 ≡ some 1
unfolding one_paper api text_eq
listed_one = refl

list_papers-IsScoped_example :
    IsScoped no_filters
      (headers (codes "CSE"))
      (list_papers world (headers (codes "CSE")) no_filters 50 0 one_paper).0
    × IsScoped no_filters
        (headers (codes "CSE"))
        (export_papers world (headers (codes "CSE")) no_filters 50 one_paper).0
list_papers-IsScoped_example =
    list_papers-IsScoped world (headers (codes "CSE")) no_filters 50 0 one_paper refl
