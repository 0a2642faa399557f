-- ===== src/Auth/Services.antt =====
-- Service accounts and what they may ask: module1-auth/app/routes/m2m.py and directory.py, with
-- `verify_m2m_client` of services/cognito.py and services/service_accounts.py.
use prompt_flow_ai.Prelude.{
  ℕ, String, Bool, true, false, not, ◌&&◌, ◌||◌, Option, none, some, List, [], ◌∷◌, ◌==◌, non_empty,
  str_eq, if◌then◌else◌,
}
use prompt_flow_ai.Prelude.Text.{Text, Bytes, codes, text_eq, before, has_code}
use prompt_flow_ai.Auth.Roles.{system_worker, Claims}
use prompt_flow_ai.Http.{Answer, ok, http_error, unhandled}
use prompt_flow_ai.Auth.Tokens.{
  Request, User, ServiceAccount, State, World, m2m_claims, log_audit, audit_of,
}
use prompt_flow_ai.Auth.Users.{caller}

-- Hashing, and the client credentials grant of Cognito: `none` is a call that raises.
pub record Checks : Type 0 where
  pub fromhex : Text → Option Bytes
  pub pbkdf2 : (secret : Text) (salt : Bytes) → Bytes
  pub client_credentials : (client_id : String) (client_secret : Text) → Option Bool

after_first : ℕ → Text → Text
after_first c [] = []
after_first c (x ∷ t) = let rest = after_first c t in if x == c then t else rest

compared : Checks → (secret : Text) → Option Bytes → Option Bytes → Option Bool
compared h secret none expected = none
compared h secret (some salt) none = none
compared h secret (some salt) (some expected) = some (text_eq (h.pbkdf2 secret salt) expected)

-- `verify_secret`: a stored value without "$" is refused, one that is not hexadecimal raises.
unfoldable pub verify_secret : Checks → (secret stored : Text) → Option Bool
unfolding compared after_first has_code before
verify_secret h secret stored =
    if has_code 36 stored
    then compared h secret (h.fromhex (before 36 stored)) (h.fromhex (after_first 36 stored))
    else some false

find_account : String → List ServiceAccount → Option ServiceAccount
find_account client_id [] = none
find_account client_id (a ∷ rest) =
    let later = find_account client_id rest in
    if str_eq a.client_id client_id && a.is_active then some a else later

with_hash : Checks → Text → Option Text → Option Bool
unfolding verify_secret
with_hash h secret none = some false
with_hash h secret (some stored) =
    if non_empty stored then verify_secret h secret stored else some false

with_account : Checks → Text → Option ServiceAccount → Option Bool
unfolding with_hash
with_account h secret none = some false
with_account h secret (some a) = with_hash h secret a.client_secret_hash

unfoldable pub verify_local_service_account : World → Checks → String → Text → State → Option Bool
unfolding with_account find_account
verify_local_service_account w h client_id secret s =
    if w.database_works
    then with_account h secret (find_account client_id s.service_accounts)
    else none

unfoldable pub verify_m2m_client : World → Checks → String → Text → State → Option Bool
unfolding verify_local_service_account
verify_m2m_client w h client_id secret s =
    if not w.settings.is_production
    then verify_local_service_account w h client_id secret s
    else h.client_credentials client_id secret

unfoldable pub after_verify : World → Request → String → Option Bool → State → Answer String × State
unfolding log_audit
after_verify w q username none s = (unhandled, s)
after_verify w q username (some false) s = (
  http_error 401 "Invalid service credentials",
  log_audit w
      (audit_of q "LOGIN_FAILED" "m2m" (some username) "m2m_client" none
        (("reason", codes "invalid_m2m_credentials") ∷ []))
      s,
)
after_verify w q username (some true) s = (
  ok (w.jwt.encode (m2m_claims w username)),
  log_audit w (audit_of q "M2M_TOKEN_ISSUED" "system" (some username) "m2m_client" none []) s,
)

unfoldable pub m2m_token :
    World → Checks → Request → (username : String) (password : Text) → State → Answer String × State
unfolding after_verify verify_m2m_client
m2m_token w h q username password s =
    after_verify w q username (verify_m2m_client w h username password s) s

pub record Faculty : Type 0 where
  pub faculty_id : String
  pub faculty_name : Option Text
  pub faculty_email : Text
  pub department_code : Option String
  pub faculty_status : String

-- `user_id = $1 OR email = $1 OR split_part(email, '@', 1) = $1`
unfoldable pub matches : (lookup_key : String) → User → Bool
unfolding before
matches key u =
    str_eq u.user_id key || text_eq u.email (codes key) || text_eq (before 64 u.email) (codes key)

first_match : String → List User → Option User
unfolding matches
first_match key [] = none
first_match key (u ∷ us) = let rest = first_match key us in if matches key u then some u else rest

faculty_of : Option User → Answer Faculty
faculty_of none = http_error 404 "faculty_not_found"
faculty_of (some u) = ok (record {
  faculty_id = u.faculty_id;
  faculty_name = u.name;
  faculty_email = u.email;
  department_code = u.department_code;
  faculty_status = if u.is_active then "active" else "inactive";
})

looked_up :
    World
    → (lookup_key : String) → (scan : List User → List User) → Answer Claims
    → State
    → Answer Faculty
unfolding first_match faculty_of
looked_up w key scan (ok c) s =
    if w.database_works then faculty_of (first_match key (scan s.users)) else unhandled
looked_up w key scan (http_error status detail) s = http_error status detail
looked_up w key scan unhandled s = unhandled

-- `get_faculty`, with the order in which the database meets the rows, which the query leaves open
unfoldable pub get_faculty :
    World
    → Request
    → (lookup_key : String) → (scan : List User → List User) → State
    → Answer Faculty
unfolding looked_up
get_faculty w q key scan s = looked_up w key scan (caller w q (system_worker ∷ []) s) s
