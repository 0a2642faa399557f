-- ===== src/Storage/Api/Reads.antt =====
-- The endpoints of module4-storage/app/main.py that read, and the resolution of an issue.
use prompt_flow_ai.Prelude.{
  ℕ, Bool, true, ◌&&◌, Option, none, some, List, [], ◌∷◌, map, take, drop, length, leb, ◌==◌,
  non_empty, if◌then◌else◌,
}
use prompt_flow_ai.Prelude.Text.{Text, codes, text_eq}
use prompt_flow_ai.Http.{Answer, ok}
use prompt_flow_ai.Storage.Schemas.{Status, published, draft, rejected, pending_review}
use prompt_flow_ai.Storage.Api.Tables.{
  Row, Version, AuditEntry, Issue, Database, Session, sees_paper, sees_child, where_rows,
}
use prompt_flow_ai.Storage.Api.Context.{World, Headers, rls_context}
use prompt_flow_ai.Storage.Api.Papers.{served, one_or_none, found}

abbrev status_text : Status → Text
status_text published = codes "PUBLISHED"
status_text draft = codes "DRAFT"
status_text rejected = codes "REJECTED"
status_text pending_review = codes "PENDING_REVIEW"

-- `ORDER BY`: the first argument says when a row may stand before another.
unfoldable pub put_in_order {ℓ} : {A : Type ℓ} → (A → A → Bool) → A → List A → List A
put_in_order before x [] = x ∷ []
put_in_order before x (y ∷ ys) = if before x y then x ∷ (y ∷ ys) else y ∷ put_in_order before x ys

unfoldable pub order_by {ℓ} : {A : Type ℓ} → (A → A → Bool) → List A → List A
unfolding put_in_order
order_by before [] = []
order_by before (x ∷ xs) = put_in_order before x (order_by before xs)

unfoldable pub get_by_id : Session → ℕ → List Row → Option (Option Row)
unfolding one_or_none where_rows sees_paper
get_by_id s id papers =
    one_or_none (where_rows (λ r. r.paper_id == id && sees_paper s r.paper) papers)

unfoldable pub get_paper : World → Headers → ℕ → Database → Answer Row × Database
unfolding served rls_context found get_by_id
get_paper w h id db =
    served w (rls_context w h) true (λ s db. (found (get_by_id s id db.papers), db)) db

pub record Filters : Type 0 where
  pub department_code : Option Text
  pub status : Option Text
  pub year : Option ℕ
  pub faculty_id : Option Text

-- `if department_code:` and the like: an empty text or a zero adds no condition.
unfoldable pub matches : Option Text → Text → Bool
matches none t = true
matches (some f) t = if non_empty f then text_eq t f else true

unfoldable pub in_year : Option ℕ → ℕ → Bool
in_year none y = true
in_year (some n) y = if n == 0 then true else y == n

unfoldable pub passes : Filters → Row → Bool
unfolding matches in_year
passes f r =
    matches f.department_code r.paper.department_code
    && matches f.status (status_text r.paper.status)
    && in_year f.year r.paper.year
    && matches f.faculty_id r.paper.faculty_id

unfoldable pub list_rows : Session → Filters → (limit offset : ℕ) → List Row → List Row
unfolding order_by where_rows sees_paper passes
list_rows s f limit offset papers = take limit (
    drop offset (
      order_by (λ a b. leb b.created_at a.created_at)
        (where_rows (λ r. sees_paper s r.paper && passes f r) papers)))

unfoldable pub list_papers :
    World → Headers → Filters → (limit offset : ℕ) → Database → Answer (List Row) × Database
unfolding served rls_context list_rows
list_papers w h f limit offset db =
    served w (rls_context w h) (leb 1 limit && leb limit 200)
      (λ s db. (ok (list_rows s f limit offset db.papers), db)) db

-- `export_papers` and `export_papers_csv` write these rows, one per line.
unfoldable pub export_papers :
    World → Headers → Filters → (limit : ℕ) → Database → Answer (List Row) × Database
unfolding served rls_context list_rows
export_papers w h f limit db =
    served w (rls_context w h) (leb 1 limit && leb limit 10000)
      (λ s db. (ok (list_rows s f limit 0 db.papers), db)) db

unfoldable pub list_versions : Session → ℕ → Database → List Version
unfolding order_by where_rows sees_child
list_versions s id db =
    order_by (λ a b. leb a.version_number b.version_number)
      (where_rows (λ v. v.paper_id == id && sees_child s db.papers v.paper_id) db.versions)

unfoldable pub get_paper_versions :
    World → Headers → ℕ → Database → Answer (List Version) × Database
unfolding served rls_context list_versions
get_paper_versions w h id db =
    served w (rls_context w h) true (λ s db. (ok (list_versions s id db), db)) db

unfoldable pub get_paper_version :
    World → Headers → (paper_id version_number : ℕ) → Database → Answer Version × Database
unfolding served rls_context found one_or_none where_rows sees_child
get_paper_version w h id n db =
    served w (rls_context w h) true
      (λ s db. (
        found (
            one_or_none (
              where_rows
                (λ v.
                  v.paper_id == id && v.version_number == n && sees_child s db.papers v.paper_id)
                db.versions)),
        db,
      ))
      db

unfoldable pub get_validation_issues :
    World → Headers → ℕ → Database → Answer (List Issue) × Database
unfolding served rls_context order_by where_rows sees_child
get_validation_issues w h id db =
    served w (rls_context w h) true
      (λ s db. (
        ok (
            order_by (λ a b. leb a.created_at b.created_at)
              (where_rows (λ i. i.paper_id == id && sees_child s db.papers i.paper_id) db.issues)),
        db,
      ))
      db

resolved : World → Text → Issue → Issue
resolved w by i = record i { resolved_at = some w.now; resolved_by = some by }

resolve_rows : (Issue → Bool) → (Issue → Issue) → List Issue → List Issue
resolve_rows hit change [] = []
resolve_rows hit change (i ∷ is) =
    if hit i then change i ∷ resolve_rows hit change is else i ∷ resolve_rows hit change is

is_hit : Session → Database → (issue_id : ℕ) → Issue → Bool
unfolding sees_child
is_hit s db id i = i.issue_id == id && sees_child s db.papers i.paper_id

-- `ValidationIssueRepository.resolve`
unfoldable pub resolve_issue :
    World → Headers → (issue_id : ℕ) → (resolved_by : Text) → Database → Answer Issue × Database
unfolding served rls_context found one_or_none where_rows is_hit resolved resolve_rows
resolve_issue w h id by db =
    served w (rls_context w h) (non_empty by && leb (length by) 100)
      (λ s db. (
        found (one_or_none (map (resolved w by) (where_rows (is_hit s db id) db.issues))),
        record db { issues = resolve_rows (is_hit s db id) (resolved w by) db.issues },
      ))
      db

-- The audit log has no policy; the entries of the triggers are about papers.
unfoldable pub get_audit_log :
    World
    → Headers
    → (resource_type : Text) → (resource_id limit : ℕ) → Database
    → Answer (List AuditEntry) × Database
unfolding served rls_context order_by where_rows
get_audit_log w h kind id limit db =
    served w (rls_context w h) (leb 1 limit && leb limit 1000)
      (λ s db. (
        ok (
            take limit (
              order_by (λ a b. leb b.logged_at a.logged_at)
                (where_rows (λ e. text_eq (codes "paper") kind && e.resource_id == id)
                  db.audit_log))),
        db,
      ))
      db
