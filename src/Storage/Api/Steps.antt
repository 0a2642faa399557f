-- ===== src/Storage/Api/Steps.antt =====
-- The requests of module 4 as steps of its database, and what a step needs to keep of it.
use prompt_flow_ai.Prelude.{ℕ, ◌≡◌, Bool, true, false, List, [], ◌==◌, any, if-elim}
use prompt_flow_ai.Prelude.Text.{Text}
use prompt_flow_ai.Http.{Answer, ok, http_error, unhandled}
use prompt_flow_ai.Storage.Schemas.{PaperCreate}
use prompt_flow_ai.Storage.Api.Tables.{Row, Database, Session, versions_of}
use prompt_flow_ai.Storage.Api.Context.{World, Headers}
use prompt_flow_ai.Storage.Api.Papers.{served, finish, create_paper}
use prompt_flow_ai.Storage.Api.Updates.{PaperUpdate, update_paper}
use prompt_flow_ai.Storage.Api.Reads.{
  Filters, get_paper, list_papers, export_papers, get_paper_versions, get_paper_version,
  get_validation_issues, resolve_issue, get_audit_log,
}

unfoldable pub has_id : ℕ → List Row → Bool
has_id id papers = any (λ r. r.paper_id == id) papers

-- No paper and no version has the identifier.
abbrev pub IsFresh : ℕ → Database → Type 0
IsFresh id db = (has_id id db.papers ≡ false) × (versions_of id db.versions ≡ [])

-- What a request leaves in the database. The identifier of a new paper is a fresh one.
pub data Step (db : Database) : Database → Type 0 where
  created :
      (w : World) (h : Headers) (p : PaperCreate)
      → IsFresh w.new_id db
      → Step db (create_paper w h p db).1
  updated :
      (w : World) (h : Headers) (id : ℕ) (u : PaperUpdate) → Step db (update_paper w h id u db).1
  resolved : (w : World) (h : Headers) (id : ℕ) (by : Text) → Step db (resolve_issue w h id by db).1
  got : (w : World) (h : Headers) (id : ℕ) → Step db (get_paper w h id db).1
  listed :
      (w : World) (h : Headers) (f : Filters) (limit offset : ℕ)
      → Step db (list_papers w h f limit offset db).1
  exported :
      (w : World) (h : Headers) (f : Filters) (limit : ℕ) → Step db (export_papers w h f limit db).1
  got_versions : (w : World) (h : Headers) (id : ℕ) → Step db (get_paper_versions w h id db).1
  got_version : (w : World) (h : Headers) (id n : ℕ) → Step db (get_paper_version w h id n db).1
  got_issues : (w : World) (h : Headers) (id : ℕ) → Step db (get_validation_issues w h id db).1
  got_audit_log :
      (w : World) (h : Headers) (kind : Text) (id limit : ℕ)
      → Step db (get_audit_log w h kind id limit db).1

finish-keeps {ℓ} :
    {A : Type 0} (P : Database → Type ℓ) (w : World) (db : Database) (r : Answer A × Database)
    → P db
    → P r.1
    → P (finish w db r).1
unfolding finish
finish-keeps P w db (ok a, db') h k = if-elim P w.commits db' db (λ _. k) (λ _. h)
finish-keeps P w db (http_error status detail, db') h k = h
finish-keeps P w db (unhandled, db') h k = h

-- What holds of the database and of what the handler leaves holds after the request.
pub served-keeps {ℓ} :
    {A : Type 0} (P : Database → Type ℓ) (w : World) (a : Answer Session) (is_valid : Bool)
    (handler : Session → Database → Answer A × Database) (db : Database)
    → P db
    → ((s : Session) → P (handler s db).1)
    → P (served w a is_valid handler db).1
unfolding served
served-keeps P w (ok s) true handler db h k = finish-keeps P w db (handler s db) h (k s)
served-keeps P w (ok s) false handler db h k = h
served-keeps P w (http_error status detail) is_valid handler db h k = h
served-keeps P w unhandled is_valid handler db h k = h
