-- ===== src/Storage/Api/Papers.antt =====
-- How a request of module 4 is served, and the creation of a paper: module4-storage/app/main.py, with
-- the queries of app/repository/repository.py and the session of app/database.py.
use prompt_flow_ai.Prelude.{
  Bool, false, not, ◌&&◌, ◌||◌, Option, none, some, List, [], ◌∷◌, any, ◌==◌, if◌then◌else◌,
}
use prompt_flow_ai.Prelude.Text.{Text, text_eq}
use prompt_flow_ai.Http.{Answer, ok, http_error, unhandled}
use prompt_flow_ai.Storage.Schemas.{PaperCreate, valid_paper}
use prompt_flow_ai.Storage.Api.Tables.{
  Row, Version, paper_created, Database, Session, sees_paper, where_rows, initial_version, audited,
  column_values,
}
use prompt_flow_ai.Storage.Api.Context.{World, Headers, rls_context}

-- `get_db_session`: what the handler did is committed when it returned, and rolled back when it
-- raised; the answer is sent before.
unfoldable pub finish : {A : Type 0} → World → Database → Answer A × Database → Answer A × Database
finish w db (ok a, db') = (ok a, if w.commits then db' else db)
finish w db (http_error status detail, db') = (http_error status detail, db)
finish w db (unhandled, db') = (unhandled, db)

-- A request: the headers, then the fields, then the handler.
unfoldable pub served :
    {A : Type 0}
    → World
    → Answer Session
    → (is_valid : Bool) → (Session → Database → Answer A × Database)
    → Database
    → Answer A × Database
unfolding finish
served w (ok s) is_valid handler db =
    if is_valid then finish w db (handler s db) else (http_error 422 "Unprocessable Entity", db)
served w (http_error status detail) is_valid handler db = (http_error status detail, db)
served w unhandled is_valid handler db = (unhandled, db)

-- `scalar_one_or_none`
unfoldable pub one_or_none {ℓ} : {A : Type ℓ} → List A → Option (Option A)
one_or_none [] = some none
one_or_none (a ∷ []) = some (some a)
one_or_none (a ∷ (b ∷ rest)) = none

-- One row, or the 404 of the handler.
unfoldable pub found : {A : Type 0} → Option (Option A) → Answer A
found none = unhandled
found (some none) = http_error 404 "not found"
found (some (some a)) = ok a

unfoldable pub both_same : (doi doi' : Option Text) (department department' : Text) → Bool
both_same none doi' department department' = false
both_same (some a) none department department' = false
both_same (some a) (some b) department department' = text_eq a b && text_eq department department'

-- The unique indexes of `papers`, all of which hold the time of creation.
unfoldable pub clashes : Row → List Row → Bool
unfolding both_same
clashes new papers =
    any
      (λ r.
        not (r.paper_id == new.paper_id)
        && r.created_at == new.created_at
        && (text_eq r.paper.ingestion_idempotency_key new.paper.ingestion_idempotency_key
            || both_same r.paper.doi new.paper.doi r.paper.department_code
                new.paper.department_code))
      papers

unfoldable pub new_row : World → PaperCreate → Row
unfolding column_values
new_row w body = record {
  paper_id = w.new_id;
  paper = column_values body;
  created_at = w.now;
  updated_at = w.now;
}

unfoldable pub with_paper :
    Session → World → Row → Database → Option (List Version) → Option (Row × Database)
unfolding audited
with_paper s w new db none = none
with_paper s w new db (some vs) = some (
  new,
  record db {
    papers = new ∷ db.papers;
    versions = vs;
    audit_log = audited s w.now paper_created new db.audit_log;
  },
)

-- `PaperRepository.create`: the policy and the unique indexes, then the triggers; the constraints of
-- the columns are among those of the request.
unfoldable pub create : Session → World → PaperCreate → Database → Option (Row × Database)
unfolding new_row sees_paper clashes initial_version with_paper
create s w body db =
    let new = new_row w body in
    if sees_paper s new.paper && not (clashes new db.papers)
    then with_paper s w new db (initial_version s w.now (new ∷ db.papers) new db.versions)
    else none

unfoldable pub with_key : Session → Text → List Row → List Row
unfolding where_rows sees_paper
with_key s key papers =
    where_rows (λ r. sees_paper s r.paper && text_eq r.paper.ingestion_idempotency_key key) papers

-- `upsert_on_conflict_ignore`, and what `create_paper` makes of it
unfoldable pub inserted : Database → Option (Row × Database) → Answer Row × Database
inserted db none = (unhandled, db)
inserted db (some (new, db')) = (ok new, db')

unfoldable pub upserted :
    Option (Option Row) → Database → Option (Row × Database) → Answer Row × Database
unfolding inserted
upserted none db made = (unhandled, db)
upserted (some none) db made = inserted db made
upserted (some (some r)) db made = (http_error 409 "Paper already exists", db)

unfoldable pub create_paper : World → Headers → PaperCreate → Database → Answer Row × Database
unfolding served rls_context valid_paper one_or_none with_key create upserted
create_paper w h body db =
    served w (rls_context w h) (valid_paper w.current_year body)
      (λ s db.
        upserted (one_or_none (with_key s body.ingestion_idempotency_key db.papers)) db
          (create s w body db))
      db
