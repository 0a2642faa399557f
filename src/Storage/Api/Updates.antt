-- ===== src/Storage/Api/Updates.antt =====
-- The update of a paper: module4-storage/app/main.py, repository/repository.py and models/schemas.py,
-- with the triggers of migrations/versions/001_initial_schema.py.
use prompt_flow_ai.Prelude.{
  ℕ, ◌+◌, Bool, true, not, ◌&&◌, Option, none, some, List, [], ◌∷◌, map, length, leb, ◌==◌, ◌>>=◌,
  if◌then◌else◌,
}
use prompt_flow_ai.Prelude.Text.{Text}
use prompt_flow_ai.Http.{Answer, unhandled}
use prompt_flow_ai.Storage.Schemas.{Status, PaperCreate, valid_embedding, within, is_paper_type}
use prompt_flow_ai.Storage.Api.Tables.{
  Row, paper_updated, Database, Session, sees_paper, paper_version, audited, column_values,
}
use prompt_flow_ai.Storage.Api.Context.{World, Headers, rls_context}
use prompt_flow_ai.Storage.Api.Papers.{served, one_or_none, found, clashes}

-- `PaperUpdate`
pub record PaperUpdate : Type 0 where
  pub title : Option Text
  pub venue : Option Text
  pub year : Option ℕ
  pub doi : Option Text
  pub paper_type : Option Text
  pub status : Option Status
  pub overall_confidence : Option ℕ
  pub embedding : Option (List ℕ)
  pub change_reason : Text

unfoldable pub holds {ℓ} : {A : Type ℓ} → (A → Bool) → Option A → Bool
holds p none = true
holds p (some a) = p a

unfoldable pub valid_update : PaperUpdate → Bool
unfolding holds valid_embedding is_paper_type
valid_update u =
    holds (λ t. leb 10 (length t)) u.title
    && within 500 u.venue
    && holds (leb 2000) u.year
    && within 200 u.doi
    && holds is_paper_type u.paper_type
    && holds (λ c. leb c 10000) u.overall_confidence
    && valid_embedding u.embedding
    && leb 5 (length u.change_reason)
    && leb (length u.change_reason) 500

-- `exclude_none`: a field that is null keeps the column.
unfoldable pub or_column {ℓ} : {A : Type ℓ} → Option A → A → A
or_column none a = a
or_column (some b) a = b

unfoldable pub or_nullable {ℓ} : {A : Type ℓ} → Option A → Option A → Option A
or_nullable none a = a
or_nullable (some b) a = some b

unfoldable pub assigned : PaperUpdate → PaperCreate → PaperCreate
unfolding or_column or_nullable column_values
assigned u p = column_values (record p {
  title = or_column u.title p.title;
  venue = or_nullable u.venue p.venue;
  year = or_column u.year p.year;
  doi = or_nullable u.doi p.doi;
  paper_type = or_column u.paper_type p.paper_type;
  status = or_column u.status p.status;
  overall_confidence = or_column u.overall_confidence p.overall_confidence;
  embedding = or_nullable u.embedding p.embedding;
})

-- One row of the `UPDATE`, with the trigger on `updated_at`; `none` is a violated constraint.
unfoldable pub amended : Session → World → PaperUpdate → List Row → Row → Option Row
unfolding assigned sees_paper clashes
amended s w u papers r =
    let new = record r { paper = assigned u r.paper; updated_at = w.now } in
    if sees_paper s new.paper && leb new.paper.year (w.current_year + 1) && not (clashes new papers)
    then some new
    else none

abbrev pub kept_row :
    Row → Option (List Row × List (Row × Row)) → Option (List Row × List (Row × Row))
kept_row r none = none
kept_row r (some (rs, changes)) = some (r ∷ rs, changes)

abbrev pub changed_row :
    Row → Option Row → Option (List Row × List (Row × Row)) → Option (List Row × List (Row × Row))
changed_row r none rest = none
changed_row r (some new) none = none
changed_row r (some new) (some (rs, changes)) = some (new ∷ rs, (r, new) ∷ changes)

-- The `UPDATE` of the rows that the session sees: the table, and the changed rows before and after.
unfoldable pub update_rows :
    Session
    → World
    → ℕ
    → PaperUpdate
    → (all papers : List Row) → Option (List Row × List (Row × Row))
unfolding sees_paper amended
update_rows s w id u all [] = some ([], [])
update_rows s w id u all (r ∷ rs) =
    let rest = update_rows s w id u all rs in
    if r.paper_id == id && sees_paper s r.paper
    then changed_row r (amended s w u all r) rest
    else kept_row r rest

-- The triggers of the changed rows.
unfoldable pub log_changes :
    Session → (now : ℕ) → List Row → List (Row × Row) → Database → Option Database
unfolding paper_version audited
log_changes s now papers [] db = some (record db { papers = papers })
log_changes s now papers ((old, new) ∷ changes) db =
    paper_version s now papers old new db.versions >>= λ vs.
    log_changes s now papers changes
      (record db { versions = vs; audit_log = audited s now paper_updated new db.audit_log })

-- `PaperRepository.update`
unfoldable pub update : Session → World → ℕ → PaperUpdate → Database → Option (List Row × Database)
unfolding update_rows log_changes
update s w id u db =
    let s' = record s { change_reason = u.change_reason } in
    update_rows s' w id u db.papers db.papers >>= λ x.
    log_changes s' w.now x.0 x.1 db >>= λ db'. some (map (λ c. c.1) x.1, db')

unfoldable pub answer_update : Database → Option (List Row × Database) → Answer Row × Database
unfolding found one_or_none
answer_update db none = (unhandled, db)
answer_update db (some (rows, db')) = (found (one_or_none rows), db')

unfoldable pub update_paper : World → Headers → ℕ → PaperUpdate → Database → Answer Row × Database
unfolding served rls_context valid_update update answer_update
update_paper w h id u db =
    served w (rls_context w h) (valid_update u) (λ s db. answer_update db (update s w id u db)) db
