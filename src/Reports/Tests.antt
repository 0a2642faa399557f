-- ===== src/Reports/Tests.antt =====
-- Concrete runs of module 6, and its theorems at them.
use prompt_flow_ai.Prelude.{
  ◌≡◌, ◌⊎◌, ◌↔◌, refl, true, false, Option, none, some, [], ◌∷◌, ◌++◌, length, str_eq,
}
use prompt_flow_ai.Prelude.Text.{Text, codes, strip, starts_with, text_eq}
use prompt_flow_ai.Reports.Access
use prompt_flow_ai.Reports.Access.{
  ReportRequest, Download, get_current_user, find_row, is_authorized, generate_report,
  download_report, url_of, parse_s3_uri, s3_uri,
}
use prompt_flow_ai.Reports.Access.Laws.{
  IsRequested, generate_report-IsRequested, IsDownload, download_report-IsDownload,
}
use prompt_flow_ai.Reports.Access.Uri.{IsAddress, parse_s3_uri-iff-s3_uri}
use prompt_flow_ai.Reports.Generation.{
  Paper, pending_review, pending, State, naac_criteria_iii, Request, World, error_count,
  pending_count, render, run_generation,
}
use prompt_flow_ai.Reports.Generation.Laws.{IsSound, run_generation-IsSound}

abbrev paper : Paper
paper = record {
  department_code = "CSE";
  year = 2025;
  status = pending_review;
  faculty_id = "f1";
  unresolved_errors = 0;
}

abbrev start : State
start = record {
  papers = paper ∷ [];
  report = some (record {
    status = pending;
    s3_uri = none;
    checksum_sha256 = none;
    total_papers = none;
    error_message = none;
  });
  report_checksums = [];
  audit_log = [];
  bucket = [];
  context = none;
}

abbrev request : Request
request = record {
  report_type = naac_criteria_iii;
  department_code = "CSE";
  academic_year = "2025-2026";
  is_xlsx = true;
  generated_by = "u1";
  role = "hod";
  faculty_id = none;
}

abbrev world : World
world = record {
  policy = λ c p. str_eq c.department p.department_code;
  split_academic_year = λ y. some (2025, 2026);
  order_by = λ ps. ps;
  render_naac_xlsx = λ ps. some (1 ∷ []);
  render_naac_pdf = λ ps. some (2 ∷ []);
  render_faculty_pdf = λ ps. none;
  sha256 = λ b. "digest";
  s3_key = λ q. "key";
  s3_uri = λ k. k;
  upload_works = true;
  first_commit_works = true;
  second_commit_works = true;
  failure_session_works = true;
}

run_generation-IsSound_example : IsSound world request start (run_generation world request start)
run_generation-IsSound_example = run_generation-IsSound world request start

-- A paper waits: the report fails, and nothing is uploaded.
blocked : (run_generation world request start).1.bucket ≡ []
unfolding run_generation error_count pending_count
blocked = refl

-- The task of a request runs before the row is committed: with nothing open the file is uploaded,
-- but the row that is committed later stays as it was.
abbrev uncommitted : State
uncommitted = record start { papers = []; report = none }

orphaned :
    ((run_generation world request uncommitted).1.bucket ≡ ("key", 1 ∷ []) ∷ [])
    × ((run_generation world request uncommitted).1.report ≡ none)
unfolding run_generation error_count pending_count render
orphaned = (refl, refl)

-- The endpoints: a head of department of CSE and her completed report.
access_runs : Unit {0}
unfolding get_current_user find_row is_authorized generate_report download_report url_of
    parse_s3_uri strip starts_with text_eq
access_runs = tt

abbrev server : Access.World
server = record {
  settings = record { skip_jwt_validation = false; has_public_key = true; expiry_seconds = 3600 };
  decode_unverified = λ t. Access.invalid_token;
  decode = λ t. Access.valid (record {
    sub = some "user_1";
    department_code = some "CSE";
    role = some "hod";
    faculty_id = none;
  });
  generate_presigned_url = λ b k n. some (k ++ codes "?signed");
  parse_uuid = λ s. some s;
  database_works = true;
  commits = true;
  report_id = "r2";
}

abbrev bearer : Option Text
bearer = some (codes "Bearer tok")

abbrev stored_row : Access.Row
stored_row = record {
  report_id = "r1";
  report_type = Access.naac_criteria_iii;
  status = Access.completed;
  department_code = "CSE";
  academic_year = "2025-2026";
  generated_by = "user_1";
  s3_uri = some (s3_uri (codes "reports") (codes "cse.pdf"));
  checksum_sha256 = some "digest";
}

abbrev reports : Access.State
reports = record { generated_reports = stored_row ∷ []; background_tasks = [] }

-- The head of department of CSE asks for a report on another department, and it is scheduled.
abbrev foreign_request : ReportRequest
foreign_request = record {
  report_type = Access.naac_criteria_iii;
  department_code = "ECE";
  academic_year = "2025-2026";
  is_xlsx = false;
  faculty_id = none;
}

scheduled : length (generate_report server bearer foreign_request reports).1.background_tasks ≡ 1
unfolding access_runs
scheduled = refl

generate_report-IsRequested_example :
    ((generate_report server bearer foreign_request reports).1 ≡ reports)
    ⊎ IsRequested server bearer foreign_request reports
        (generate_report server bearer foreign_request reports).1
generate_report-IsRequested_example =
    generate_report-IsRequested server bearer foreign_request reports

abbrev link : Download
link = record {
  download_url = codes "cse.pdf?signed";
  expires_in_seconds = 3600;
  checksum_sha256 = "digest";
}

download_report-IsDownload_example : IsDownload server bearer "r1" reports link
unfolding access_runs
download_report-IsDownload_example = download_report-IsDownload server bearer "r1" reports link refl

parse_s3_uri-iff-s3_uri_example :
    (parse_s3_uri (codes "s3://reports/cse.pdf") ≡ some (codes "reports", codes "cse.pdf")) ↔ (
      (codes "s3://reports/cse.pdf" ≡ s3_uri (codes "reports") (codes "cse.pdf"))
      × IsAddress (codes "reports") (codes "cse.pdf"))
parse_s3_uri-iff-s3_uri_example =
    parse_s3_uri-iff-s3_uri (codes "s3://reports/cse.pdf") (codes "reports") (codes "cse.pdf")
