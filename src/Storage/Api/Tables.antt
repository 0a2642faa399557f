-- ===== src/Storage/Api/Tables.antt =====
-- The tables of module4-storage/migrations/versions/001_initial_schema.py with their row-level
-- policies and triggers. Times and identifiers are numbers, confidences are counted in
-- ten-thousandths, a snapshot in JSON is the row itself.
use prompt_flow_ai.Prelude.{
  ℕ, ◌+◌, ◌*◌, ◌/◌, Bool, true, ◌&&◌, ◌||◌, Option, none, some, List, [], ◌∷◌, any, length, leb,
  ◌==◌, if◌then◌else◌,
}
use prompt_flow_ai.Prelude.Text.{Text, codes, text_eq}
use prompt_flow_ai.Storage.Schemas.{Status, published, draft, rejected, pending_review, PaperCreate}

-- A row of `papers`: the columns that the request gives, and those of the server.
pub record Row : Type 0 where
  pub paper_id : ℕ
  pub paper : PaperCreate
  pub created_at : ℕ
  pub updated_at : ℕ

pub record Version : Type 0 where
  pub paper_id : ℕ
  pub version_number : ℕ
  pub changed_by : Text
  pub change_reason : Text
  pub before_state : Option Row
  pub after_state : Row
  pub changed_at : ℕ

pub data Action : Type 0 where
  paper_created paper_updated : Action

pub record AuditEntry : Type 0 where
  pub action : Action
  pub actor_type : Text
  pub actor_id : Text
  pub resource_id : ℕ
  pub details : PaperCreate
  pub trace_id : ℕ
  pub logged_at : ℕ

pub record Issue : Type 0 where
  pub issue_id : ℕ
  pub paper_id : ℕ
  pub issue_code : Text
  pub resolved_at : Option ℕ
  pub resolved_by : Option Text
  pub created_at : ℕ

pub record Database : Type 0 where
  pub papers : List Row
  pub versions : List Version
  pub issues : List Issue
  pub audit_log : List AuditEntry

-- The settings of the transaction: `app.current_department` and the others.
pub record Session : Type 0 where
  pub department_code : Text
  pub role : Text
  pub user_id : Text
  pub actor_type : Text
  pub change_reason : Text
  pub trace_id : ℕ

unfoldable pub is_admin : Session → Bool
is_admin s = text_eq s.role (codes "admin")

-- The part of the policy that reads the status.
unfoldable pub shows_status : Session → Text → Status → Bool
shows_status s faculty_id published = true
shows_status s faculty_id pending_review = true
shows_status s faculty_id rejected = true
shows_status s faculty_id draft = text_eq faculty_id s.user_id

-- `dept_scoped_paper_access`, for the rows a statement reads and for those it writes
unfoldable pub sees_paper : Session → PaperCreate → Bool
unfolding is_admin shows_status
sees_paper s p =
    is_admin s
    || text_eq p.department_code s.department_code && shows_status s p.faculty_id p.status

-- `dept_isolation_versions` and `dept_isolation_issues`: the paper is one that the session sees.
unfoldable pub sees_child : Session → List Row → (paper_id : ℕ) → Bool
unfolding sees_paper is_admin
sees_child s papers id =
    any
      (λ r.
        r.paper_id == id
        && sees_paper s r.paper
        && (text_eq r.paper.department_code s.department_code || is_admin s))
      papers

-- The rows of a query.
unfoldable pub where_rows {ℓ} : {A : Type ℓ} → (A → Bool) → List A → List A
where_rows keep [] = []
where_rows keep (x ∷ xs) = if keep x then x ∷ where_rows keep xs else where_rows keep xs

-- `MAX` of a column; null of no rows
unfoldable pub larger : ℕ → Option ℕ → Option ℕ
larger n none = some n
larger n (some m) = if leb m n then some n else some m

unfoldable pub max_version : List Version → Option ℕ
unfolding larger
max_version [] = none
max_version (v ∷ vs) = larger v.version_number (max_version vs)

-- `COALESCE(MAX(version_number), 1) + 1`
unfoldable pub next_number : Option ℕ → ℕ
next_number none = 2
next_number (some n) = n + 1

unfoldable pub versions_of : ℕ → List Version → List Version
unfolding where_rows
versions_of id vs = where_rows (λ v. v.paper_id == id) vs

-- The insertion of a version: the policy, and the width of `changed_by`.
unfoldable pub put_version : Session → List Row → Version → List Version → Option (List Version)
unfolding sees_child
put_version s papers v vs =
    if sees_child s papers v.paper_id && leb (length v.changed_by) 100 then some (v ∷ vs) else none

-- `create_initial_paper_version`
abbrev pub first_version : Session → (now : ℕ) → (new : Row) → Version
first_version s now new = record {
  paper_id = new.paper_id;
  version_number = 1;
  changed_by = s.user_id;
  change_reason = codes "Initial creation";
  before_state = none;
  after_state = new;
  changed_at = now;
}

unfoldable pub initial_version :
    Session → (now : ℕ) → List Row → (new : Row) → List Version → Option (List Version)
unfolding put_version
initial_version s now papers new vs = put_version s papers (first_version s now new) vs

-- `create_paper_version`; the policy also binds the query for the largest number.
unfoldable pub max_seen : Session → List Row → (paper_id : ℕ) → List Version → Option ℕ
unfolding max_version where_rows sees_child
max_seen s papers id vs =
    max_version (where_rows (λ v. v.paper_id == id && sees_child s papers v.paper_id) vs)

abbrev pub next_version : Session → (now : ℕ) → List Row → (old new : Row) → List Version → Version
next_version s now papers old new vs = record {
  paper_id = new.paper_id;
  version_number = next_number (max_seen s papers new.paper_id vs);
  changed_by = s.user_id;
  change_reason = s.change_reason;
  before_state = some old;
  after_state = new;
  changed_at = now;
}

unfoldable pub paper_version :
    Session → (now : ℕ) → List Row → (old new : Row) → List Version → Option (List Version)
unfolding put_version next_number max_seen
paper_version s now papers old new vs =
    put_version s papers (next_version s now papers old new vs) vs

-- `log_paper_audit`
unfoldable pub audited : Session → (now : ℕ) → Action → Row → List AuditEntry → List AuditEntry
audited s now action new log =
    record {
      action = action;
      actor_type = s.actor_type;
      actor_id = s.user_id;
      resource_id = new.paper_id;
      details = new.paper;
      trace_id = s.trace_id;
      logged_at = now;
    }
    ∷ log

-- The column `NUMERIC(3,2)` keeps two decimals.
unfoldable pub to_hundredths : ℕ → ℕ
to_hundredths c = (c + 50) / 100 * 100

unfoldable pub column_values : PaperCreate → PaperCreate
unfolding to_hundredths
column_values p = record p { overall_confidence = to_hundredths p.overall_confidence }
