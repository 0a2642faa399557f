-- ===== src/Reports/Access.antt =====
-- Who may request, see and download a report: module6-reports/app/auth.py, routes/reports.py and
-- services/s3_service.py.
pub mod Laws
pub mod Uri
use prompt_flow_ai.Prelude.{
  ℕ, String, Bool, true, false, not, ◌&&◌, ◌||◌, Option, none, some, List, [], ◌∷◌, ◌++◌, any, drop,
  ◌==◌, is_some, non_empty, str_eq, if◌then◌else◌,
}
use prompt_flow_ai.Prelude.Text.{Text, codes, starts_with, strip, before, text_eq}
use prompt_flow_ai.Http.{Answer, ok, http_error, unhandled}

-- The claims that the module reads, each of which a token may lack.
pub record Claims : Type 0 where
  pub sub : Option String
  pub department_code : Option String
  pub role : Option String
  pub faculty_id : Option String

-- What `jwt.decode` returns or raises.
pub data Decoded : Type 0 where
  valid : Claims → Decoded
  expired_signature invalid_token : Decoded

pub record Settings : Type 0 where
  pub skip_jwt_validation : Bool
  pub has_public_key : Bool
  pub expiry_seconds : ℕ

-- The JWT library with and without verification, S3's signature of a URL and the UUID of a text
-- (`none` raises), whether the session works and whether its commit does, and the identifier that the
-- database gives.
pub record World : Type 0 where
  pub settings : Settings
  pub decode_unverified : Text → Decoded
  pub decode : Text → Decoded
  pub generate_presigned_url : (bucket key : Text) → (expiry_seconds : ℕ) → Option Text
  pub parse_uuid : String → Option String
  pub database_works : Bool
  pub commits : Bool
  pub report_id : String

pub record UserContext : Type 0 where
  pub user_id : String
  pub department_code : String
  pub role : String
  pub faculty_id : Option String
  pub is_admin : Bool

unfoldable pub answered : Decoded → Answer Claims
answered (valid c) = ok c
answered expired_signature = http_error 401 "Token expired"
answered invalid_token = http_error 401 "Invalid token"

-- `_decode_jwt`
unfoldable pub decode_jwt : World → Text → Answer Claims
unfolding answered
decode_jwt w token =
    if w.settings.skip_jwt_validation
    then answered (w.decode_unverified token)
    else if not w.settings.has_public_key
    then http_error 500 "JWT_PUBLIC_KEY not configured and SKIP_JWT_VALIDATION is false"
    else answered (w.decode token)

-- A claim that is there and not empty.
filled : Option String → Option String
filled none = none
filled (some s) = if str_eq s "" then none else some s

-- The roles that the model of the context takes.
abbrev pub known_roles : List String
known_roles = "faculty" ∷ "coordinator" ∷ "hod" ∷ "admin" ∷ "system_worker" ∷ []

-- The optional UUID of the context: `some none` where there is none, `none` is a validation error.
uuid_of : (parse_uuid : String → Option String) → Option String → Option (Option String)
uuid_of parse_uuid none = some none
uuid_of parse_uuid (some s) = elim (parse_uuid s) [ none ↦ none | some u ↦ some (some u) ]

with_faculty_id :
    (user_id department_code role : String) → Option (Option String) → Answer UserContext
with_faculty_id u d r none = unhandled
with_faculty_id u d r (some f) = ok (record {
  user_id = u;
  department_code = d;
  role = r;
  faculty_id = f;
  is_admin = str_eq r "admin";
})

context_of :
    (faculty_id : Option (Option String))
    → (user_id department_code role : Option String) → Answer UserContext
unfolding with_faculty_id
context_of f none d r = http_error 401 "JWT missing required claims: sub, department_code, role"
context_of f (some u) none r =
    http_error 401 "JWT missing required claims: sub, department_code, role"
context_of f (some u) (some d) none =
    http_error 401 "JWT missing required claims: sub, department_code, role"
context_of f (some u) (some d) (some r) =
    if any (str_eq r) known_roles then with_faculty_id u d r f else unhandled

unfoldable pub context_from :
    (parse_uuid : String → Option String) → Answer Claims → Answer UserContext
unfolding filled context_of uuid_of
context_from parse_uuid (ok c) =
    context_of (uuid_of parse_uuid c.faculty_id) (filled c.sub) (filled c.department_code)
      (filled c.role)
context_from parse_uuid (http_error status detail) = http_error status detail
context_from parse_uuid unhandled = unhandled

unfoldable pub get_current_user : World → (authorization : Option Text) → Answer UserContext
unfolding starts_with strip context_from decode_jwt
get_current_user w none =
    http_error 401 "Missing or malformed Authorization header. Expected: 'Bearer <jwt>'"
get_current_user w (some h) =
    if starts_with (codes "Bearer ") h
    then context_from w.parse_uuid (decode_jwt w (strip (drop 7 h)))
    else http_error 401 "Missing or malformed Authorization header. Expected: 'Bearer <jwt>'"

pub data ReportType : Type 0 where
  naac_criteria_iii faculty_profile : ReportType

abbrev pub leads : String → Bool
leads role = any (str_eq role) ("coordinator" ∷ "hod" ∷ "admin" ∷ [])

-- `str(user.faculty_id) == str(target_faculty_id)`, for a target that is there
abbrev pub own_profile : Option String → Option String → Bool
own_profile none target = false
own_profile (some f) none = false
own_profile (some f) (some t) = str_eq f t

-- `authorize_report_request` returns, or raises a 403.
unfoldable pub is_authorized : UserContext → ReportType → (target_faculty_id : Option String) → Bool
is_authorized u naac_criteria_iii target = leads u.role
is_authorized u faculty_profile target =
    leads u.role || str_eq u.role "faculty" && own_profile u.faculty_id target

pub record ReportRequest : Type 0 where
  pub report_type : ReportType
  pub department_code : String
  pub academic_year : String
  pub is_xlsx : Bool
  pub faculty_id : Option String

pub data ReportStatus : Type 0 where
  pending generating completed failed : ReportStatus

pub record Row : Type 0 where
  pub report_id : String
  pub report_type : ReportType
  pub status : ReportStatus
  pub department_code : String
  pub academic_year : String
  pub generated_by : String
  pub s3_uri : Option Text
  pub checksum_sha256 : Option String

-- The arguments of a scheduled `run_generation`.
pub record Task : Type 0 where
  pub report_id : String
  pub request : ReportRequest
  pub generated_by : String
  pub role : String

pub record State : Type 0 where
  pub generated_reports : List Row
  pub background_tasks : List Task

abbrev pub new_row : World → UserContext → ReportRequest → Row
new_row w u r = record {
  report_id = w.report_id;
  report_type = r.report_type;
  status = pending;
  department_code = r.department_code;
  academic_year = r.academic_year;
  generated_by = u.user_id;
  s3_uri = none;
  checksum_sha256 = none;
}

abbrev is_profile : ReportType → Bool
is_profile naac_criteria_iii = false
is_profile faculty_profile = true

-- The answer is sent and the task runs before the session of the request commits the row; a commit
-- that fails leaves no row.
unfoldable pub generate_for : World → ReportRequest → State → UserContext → Answer Row × State
unfolding is_authorized
generate_for w r s u =
    if not (is_authorized u r.report_type r.faculty_id)
    then (http_error 403 "reports require coordinator, hod, or admin role", s)
    else if is_profile r.report_type && not (is_some r.faculty_id)
    then (http_error 400 "faculty_id is required when report_type=FACULTY_PROFILE", s)
    else if not w.database_works
    then (unhandled, s)
    else (
      ok (new_row w u r),
      record {
        generated_reports =
            if w.commits then s.generated_reports ++ new_row w u r ∷ [] else s.generated_reports;
        background_tasks =
            s.background_tasks
            ++ record {
              report_id = w.report_id;
              request = r;
              generated_by = u.user_id;
              role = u.role;
            }
              ∷ [];
      },
    )

-- A handler runs for the user that the token names.
unfoldable pub as_user :
    {A : Type 0} → Answer UserContext → State → (UserContext → Answer A × State) → Answer A × State
as_user (ok u) s handler = handler u
as_user (http_error status detail) s handler = (http_error status detail, s)
as_user unhandled s handler = (unhandled, s)

unfoldable pub generate_report :
    World → (authorization : Option Text) → ReportRequest → State → Answer Row × State
unfolding as_user get_current_user generate_for
generate_report w a r s = as_user (get_current_user w a) s (generate_for w r s)

unfoldable pub find_row : (report_id : String) → List Row → Option Row
find_row i [] = none
find_row i (r ∷ rs) = let rest = find_row i rs in if str_eq r.report_id i then some r else rest

-- The row with the identifier, unless it is of another department and the user is no admin.
unfoldable pub shown : UserContext → Option Row → Answer Row
shown u none = http_error 404 "Report not found"
shown u (some r) =
    if not u.is_admin && not (str_eq r.department_code u.department_code)
    then http_error 404 "Report not found"
    else ok r

unfoldable pub status_for : World → (report_id : String) → State → UserContext → Answer Row
unfolding shown find_row
status_for w i s u =
    if w.database_works then shown u (find_row i s.generated_reports) else unhandled

-- `parse_s3_uri`: `none` is a `ValueError`.
partition : Text → Text × Text
partition [] = ([], [])
partition (c ∷ t) = let rest = partition t in if c == 47 then ([], t) else (c ∷ rest.0, rest.1)

unfoldable pub parse_s3_uri : Text → Option (Text × Text)
unfolding starts_with partition
parse_s3_uri uri =
    let parts = partition (drop 5 uri) in
    if not (starts_with (codes "s3://") uri)
    then none
    else if not (non_empty parts.0) || not (non_empty parts.1)
    then none
    else some parts

-- The URI that `upload_file` returns.
abbrev pub s3_uri : (bucket key : Text) → Text
s3_uri bucket key = codes "s3://" ++ (bucket ++ 47 ∷ key)

signed : World → Option (Text × Text) → Option Text
signed w none = none
signed w (some (bucket, key)) = w.generate_presigned_url bucket key w.settings.expiry_seconds

pub record Download : Type 0 where
  pub download_url : Text
  pub expires_in_seconds : ℕ
  pub checksum_sha256 : String

-- The answer needs the URL and the checksum; a row without one of them raises.
unfoldable pub linked : World → Option Text → (checksum_sha256 : Option String) → Answer Download
linked w none checksum = unhandled
linked w (some url) none = unhandled
linked w (some url) (some checksum) = ok (record {
  download_url = url;
  expires_in_seconds = w.settings.expiry_seconds;
  checksum_sha256 = checksum;
})

abbrev pub is_completed : ReportStatus → Bool
is_completed pending = false
is_completed generating = false
is_completed completed = true
is_completed failed = false

-- `_s3_service.generate_presigned_url(*parse_s3_uri(uri))`; a missing URI raises.
unfoldable pub url_of : World → Option Text → Option Text
unfolding signed parse_s3_uri
url_of w none = none
url_of w (some uri) = signed w (parse_s3_uri uri)

unfoldable pub download_row : World → Answer Row → Answer Download
unfolding linked url_of
download_row w (ok r) =
    if not (is_completed r.status)
    then http_error 409 "Report is not ready for download"
    else linked w (url_of w r.s3_uri) r.checksum_sha256
download_row w (http_error status detail) = http_error status detail
download_row w unhandled = unhandled

for_user : {A : Type 0} → Answer UserContext → (UserContext → Answer A) → Answer A
for_user (ok u) handler = handler u
for_user (http_error status detail) handler = http_error status detail
for_user unhandled handler = unhandled

unfoldable pub get_report_status :
    World → (authorization : Option Text) → (report_id : String) → State → Answer Row
unfolding for_user get_current_user status_for
get_report_status w a i s = for_user (get_current_user w a) (status_for w i s)

unfoldable pub download_report :
    World → (authorization : Option Text) → (report_id : String) → State → Answer Download
unfolding for_user get_current_user status_for download_row
download_report w a i s = for_user (get_current_user w a) (λ u. download_row w (status_for w i s u))
