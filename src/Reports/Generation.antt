-- ===== src/Reports/Generation.antt =====
-- module6-reports/app/services/report_service.py: the background task that generates a report. The
-- database keeps the rows; a session sees the papers that the row-level policy allows in its
-- context, none without a context, and a commit ends the context.
pub mod Laws
use prompt_flow_ai.Prelude.{
  ℕ, ◌+◌, String, Bool, true, false, not, ◌&&◌, ◌||◌, Option, none, some, List, [], ◌∷◌, ◌++◌, ltb,
  leb, length, is_some, str_eq, if◌then◌else◌,
}
use prompt_flow_ai.Prelude.Text.{Bytes}

pub data PaperStatus : Type 0 where
  published draft rejected pending_review : PaperStatus

-- A paper, with the number of its unresolved issues of severity error.
pub record Paper : Type 0 where
  pub department_code : String
  pub year : ℕ
  pub status : PaperStatus
  pub faculty_id : String
  pub unresolved_errors : ℕ

pub record Context : Type 0 where
  pub department : String
  pub role : String
  pub user_id : String

pub data ReportStatus : Type 0 where
  pending generating completed failed : ReportStatus

pub data ErrorMessage : Type 0 where
  gate_error : (unresolved_error_count pending_paper_count : ℕ) → ErrorMessage
  other_error : ErrorMessage

pub record Report : Type 0 where
  pub status : ReportStatus
  pub s3_uri : Option String
  pub checksum_sha256 : Option String
  pub total_papers : Option ℕ
  pub error_message : Option ErrorMessage

-- The rows that the task reads and writes, the bucket, and the session's context. The report is the
-- committed row with the task's identifier, where there is one: an `UPDATE` of none changes nothing.
pub record State : Type 0 where
  pub papers : List Paper
  pub report : Option Report
  pub report_checksums : List String
  pub audit_log : List String
  pub bucket : List (String × Bytes)
  pub context : Option Context

pub data ReportType : Type 0 where
  naac_criteria_iii faculty_profile unknown : ReportType

pub record Request : Type 0 where
  pub report_type : ReportType
  pub department_code : String
  pub academic_year : String
  pub is_xlsx : Bool
  pub generated_by : String
  pub role : String
  pub faculty_id : Option String

-- What one run meets: the row-level policy, `_split_academic_year` (`none` raises), the order of
-- fetched rows, the three renderers, SHA-256, the object's key and URI, whether the upload works, and whether the session works up to its
-- first commit, up to its second, and in the session that records a failure.
pub record World : Type 0 where
  pub policy : Context → Paper → Bool
  pub split_academic_year : String → Option (ℕ × ℕ)
  pub order_by : List Paper → List Paper
  pub render_naac_xlsx : List Paper → Option Bytes
  pub render_naac_pdf : List Paper → Option Bytes
  pub render_faculty_pdf : List Paper → Option Bytes
  pub sha256 : Bytes → String
  pub s3_key : Request → String
  pub s3_uri : String → String
  pub upload_works : Bool
  pub first_commit_works : Bool
  pub second_commit_works : Bool
  pub failure_session_works : Bool

filter : (Paper → Bool) → List Paper → List Paper
filter f [] = []
filter f (p ∷ ps) = let rest = filter f ps in if f p then p ∷ rest else rest

allowed : World → Option Context → Paper → Bool
allowed w none p = false
allowed w (some c) p = w.policy c p

-- What a query of the session can see.
unfoldable pub visible : World → State → List Paper
unfolding filter allowed
visible w s = filter (allowed w s.context) s.papers

unfoldable pub in_scope : (department_code : String) (year_start year_end : ℕ) → Paper → Bool
in_scope d a b p = str_eq p.department_code d && leb a p.year && leb p.year b

is_open : PaperStatus → Bool
is_open published = false
is_open draft = true
is_open rejected = false
is_open pending_review = true

is_published : PaperStatus → Bool
is_published published = true
is_published draft = false
is_published rejected = false
is_published pending_review = false

sum_errors : List Paper → ℕ
sum_errors [] = 0
sum_errors (p ∷ ps) = p.unresolved_errors + sum_errors ps

-- the two counts of `_check_compliance_gate`
unfoldable pub error_count : World → String → ℕ → ℕ → State → ℕ
unfolding visible in_scope sum_errors
error_count w d a b s = sum_errors (filter (in_scope d a b) (visible w s))

unfoldable pub pending_count : World → String → ℕ → ℕ → State → ℕ
unfolding visible in_scope is_open
pending_count w d a b s = length (filter (λ p. in_scope d a b p && is_open p.status) (visible w s))

-- `_fetch_naac_criteria_iii_data` and `_fetch_faculty_profile_data`
unfoldable pub fetch_naac : World → String → ℕ → ℕ → State → List Paper
unfolding visible in_scope is_published
fetch_naac w d a b s =
    w.order_by (filter (λ p. in_scope d a b p && is_published p.status) (visible w s))

unfoldable pub fetch_faculty : World → String → (faculty_id : String) → ℕ → ℕ → State → List Paper
unfolding visible in_scope is_published
fetch_faculty w d f a b s =
    w.order_by (
      filter (λ p. in_scope d a b p && is_published p.status && str_eq p.faculty_id f)
        (visible w s))

-- `set_rls_context`
abbrev pub set_rls_context : Request → State → State
set_rls_context q s = record s {
  context =
      some (record { department = q.department_code; role = q.role; user_id = q.generated_by });
}

abbrev with_papers : List Paper → Option Bytes → Option (Bytes × ℕ)
with_papers papers none = none
with_papers papers (some bytes) = some (bytes, length papers)

-- The file and its number of papers; `none` is an exception.
unfoldable pub render : World → Request → ℕ → ℕ → State → Option (Bytes × ℕ)
unfolding fetch_naac fetch_faculty
render w q a b s =
    let papers = fetch_naac w q.department_code a b s in
    elim q.report_type [
      | naac_criteria_iii ↦
          with_papers papers
            (if q.is_xlsx then w.render_naac_xlsx papers else w.render_naac_pdf papers)
      | faculty_profile ↦ elim q.faculty_id [
        | none ↦ none
        | some f ↦
            with_papers (fetch_faculty w q.department_code f a b s)
              (w.render_faculty_pdf (fetch_faculty w q.department_code f a b s))
      ]
      | unknown ↦ none
    ]

-- `UPDATE generated_reports ... WHERE report_id = :id`
abbrev pub map_report : (Report → Report) → Option Report → Option Report
map_report change none = none
map_report change (some r) = some (change r)

abbrev pub failed_report : ErrorMessage → Report → Report
failed_report message r = record r { status = failed; error_message = some message }

abbrev pub completed_report : (s3_uri checksum : String) → (total_papers : ℕ) → Report → Report
completed_report uri checksum total r = record r {
  status = completed;
  s3_uri = some uri;
  checksum_sha256 = some checksum;
  total_papers = some total;
}

-- A run returns, or an exception leaves it.
pub data Ending : Type 0 where
  ended escaped : Ending

-- The two `except` blocks: roll back to the rows of the last commit, and record the failure.
unfoldable pub fail : World → ErrorMessage → State → Ending × State
fail w message s =
    if w.failure_session_works
    then (ended, record s { context = none; report = map_report (failed_report message) s.report })
    else (escaped, record s { context = none })

-- The upload, the three writes and the second commit. The checksum refers to the row of the report:
-- without one its insertion raises.
unfoldable pub persist : World → Request → Bytes → (total_papers : ℕ) → State → Ending × State
unfolding fail
persist w q bytes total s =
    let checksum = w.sha256 bytes in
    let uploaded = record s { bucket = (w.s3_key q, bytes) ∷ s.bucket } in
    if not w.upload_works
    then fail w other_error s
    else if not (is_some s.report) || not w.second_commit_works
    then fail w other_error uploaded
    else (
      ended,
      record uploaded {
        context = none;
        report = map_report (completed_report (w.s3_uri (w.s3_key q)) checksum total) s.report;
        report_checksums = s.report_checksums ++ checksum ∷ [];
        audit_log = s.audit_log ++ q.generated_by ∷ [];
      },
    )

after_render : World → Request → Option (Bytes × ℕ) → State → Ending × State
unfolding persist fail
after_render w q none s = fail w other_error s
after_render w q (some (bytes, total)) s = persist w q bytes total s

-- The gate, and what follows when it passes.
unfoldable pub gate_and_render : World → Request → ℕ → ℕ → State → Ending × State
unfolding error_count pending_count render after_render fail
gate_and_render w q a b s =
    let errors = error_count w q.department_code a b s in
    let waiting = pending_count w q.department_code a b s in
    if ltb 0 errors || ltb 0 waiting
    then fail w (gate_error errors waiting) s
    else after_render w q (render w q a b s) s

-- The body after the first commit, in whose session the context is set again.
unfoldable pub generate : World → Request → Option (ℕ × ℕ) → State → Ending × State
unfolding gate_and_render fail
generate w q none s = fail w other_error s
generate w q (some (a, b)) s = gate_and_render w q a b (set_rls_context q s)

-- The first update and its commit, which ends the context.
abbrev pub mark_generating : State → State
mark_generating s = record s {
  context = none;
  report = map_report (λ r. record r { status = generating }) s.report;
}

unfoldable pub run_generation : World → Request → State → Ending × State
unfolding generate fail
run_generation w q s =
    if not w.first_commit_works
    then fail w other_error s
    else generate w q (w.split_academic_year q.academic_year) (mark_generating s)
