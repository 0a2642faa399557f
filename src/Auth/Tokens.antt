-- ===== src/Auth/Tokens.antt =====
-- module1-auth/app/services/jwt_service.py, services/audit.py, and the dependencies of
-- app/dependencies.py that check a caller. The JWT library is a parameter.
pub mod Laws
use Prim.Native.String
use Prim.Native.Char.{code}
use prompt_flow_ai.Prelude.{
  ℕ, ◌+◌, ◌*◌, ◌≤◌, ◌<◌, ◌≡◌, String, Bool, true, false, not, ◌&&◌, ◌||◌, Option, none, some, List,
  [], ◌∷◌, ◌++◌, any, ◌==◌, str_eq, if◌then◌else◌,
}
use prompt_flow_ai.Prelude.Text.{Text, codes, text_eq, has_code, after_last}
use prompt_flow_ai.Redis.{Redis, exists}
use prompt_flow_ai.Auth.Roles.{
  Role, AuthType, user, m2m, system_worker, role_value, auth_type_value, get_permissions, is_among,
  Claims,
}
use prompt_flow_ai.Http.{Answer, ok, http_error, unhandled}

pub record Settings : Type 0 where
  pub is_production : Bool
  pub allowed_email_domains : List Text
  pub access_token_expire_minutes : ℕ
  pub jwt_issuer : String
  pub jwt_audience : String

abbrev pub settings : Settings
settings = record {
  is_production = false;
  allowed_email_domains = codes "srmap.edu.in" ∷ [];
  access_token_expire_minutes = 15;
  jwt_issuer = "https://auth.promptflow.ai";
  jwt_audience = "promptflow-api";
}

-- What `jwt.decode` returns or raises.
pub data Decoded : Type 0 where
  valid : Claims → Decoded
  expired_signature other_error : Decoded

-- The JWT library under the configured key pair and algorithm: `payload` is what a signed token
-- carries, and `decode` checks the signature, the audience, `exp` and `iat`.
pub record Jwt : Type 0 where
  pub encode : Claims → String
  pub payload : String → Option Claims
  pub decode : (audience : String) (now : ℕ) → String → Decoded
  pub decode_valid :
      (audience : String) (now : ℕ) (t : String) (c : Claims)
      → payload t ≡ some c
      → c.aud ≡ audience
      → c.iat ≤ now
      → now < c.exp
      → decode audience now t ≡ valid c
  pub decode_payload :
      (audience : String) (now : ℕ) (t : String) (c : Claims)
      → decode audience now t ≡ valid c
      → payload t ≡ some c
  pub decode_audience :
      (audience : String) (now : ℕ) (t : String) (c : Claims)
      → decode audience now t ≡ valid c
      → c.aud ≡ audience
  pub decode_live :
      (audience : String) (now : ℕ) (t : String) (c : Claims)
      → decode audience now t ≡ valid c
      → now < c.exp

pub record Request : Type 0 where
  pub authorization : Option String
  pub x_trace_id : Option String
  pub client_host : Option String
  pub refresh_cookie : Option String

-- A row of the users table, which `schema.sql` declares.
pub record User : Type 0 where
  pub user_id : String
  pub faculty_id : String
  pub email : Text
  pub name : Option Text
  pub role : String
  pub department_code : Option String
  pub is_active : Bool

pub record ServiceAccount : Type 0 where
  pub client_id : String
  pub client_secret_hash : Option Text
  pub is_active : Bool

pub record Audit : Type 0 where
  pub action : String
  pub actor_type : String
  pub actor_id : Option String
  pub resource_type : String
  pub resource_id : Option String
  pub details : List (String × Text)
  pub ip_address : Option String
  pub trace_id : Option String

pub record State : Type 0 where
  pub redis : Redis
  pub users : List User
  pub service_accounts : List ServiceAccount
  pub audit_log : List Audit

-- What one request meets: the clock, fresh UUIDs, and whether the database takes the audit row and
-- answers the handler's own queries.
pub record World : Type 0 where
  pub jwt : Jwt
  pub settings : Settings
  pub now : ℕ
  pub uuid : String
  pub faculty_uuid : String
  pub audit_works : Bool
  pub database_works : Bool

-- `value or default` on a text that may be missing or empty
abbrev pub filled_or : Option String → String → String
filled_or none d = d
filled_or (some s) d = if str_eq s "" then d else s

-- `create_access_token`
abbrev pub access_claims :
    World
    → (sub : String) (email name : Text) → Role
    → (department_code faculty_id : Option String) → AuthType
    → (trace_id : Option String) → Claims
access_claims w sub email name role department_code faculty_id auth_type trace_id = record {
  sub = sub;
  name = name;
  email = email;
  role = role_value role;
  department_code = department_code;
  permissions = get_permissions role;
  iss = w.settings.jwt_issuer;
  aud = w.settings.jwt_audience;
  faculty_id = faculty_id;
  exp = w.now + w.settings.access_token_expire_minutes * 60;
  iat = w.now;
  auth_type = auth_type_value auth_type;
  trace_id = filled_or trace_id w.uuid;
}

-- `create_m2m_token`, whose lifetime is written out in the code
abbrev pub m2m_claims : World → (client_id : String) → Claims
m2m_claims w client_id = record {
  sub = client_id;
  name = codes "service:" ++ codes client_id;
  email = codes client_id ++ codes "@internal";
  role = role_value system_worker;
  department_code = none;
  permissions = get_permissions system_worker;
  iss = w.settings.jwt_issuer;
  aud = w.settings.jwt_audience;
  faculty_id = none;
  exp = w.now + 15 * 60;
  iat = w.now;
  auth_type = auth_type_value m2m;
  trace_id = w.uuid;
}

abbrev pub verify_token : World → String → Decoded
verify_token w t = w.jwt.decode w.settings.jwt_audience w.now t

-- `header.startswith(prefix)`
unfoldable pub is_prefix : String → String → Bool
is_prefix String.[] h = true
is_prefix (String.◌∷◌ c p) String.[] = false
is_prefix (String.◌∷◌ c p) (String.◌∷◌ d h) = code c == code d && is_prefix p h

-- `header.split(" ", 1)[1]`, and "" where there is no space
unfoldable pub after_space : String → String
after_space String.[] = ""
after_space (String.◌∷◌ c h) = let rest = after_space h in if code c == 32 then h else rest

-- `request.headers.get("Authorization", "")`
abbrev pub auth_header : Request → String
auth_header q = elim q.authorization [ none ↦ "" | some h ↦ h ]

abbrev pub block_key : String → String
block_key token = String.◌++◌ "blocklist:" token

-- `email.split("@")[-1] if "@" in email else ""`
unfoldable pub domain_of : Text → Text
unfolding has_code after_last
domain_of email = if has_code 64 email then after_last 64 email else []

unfoldable pub is_allowed : Settings → Text → Bool
unfolding domain_of
is_allowed c email = any (text_eq (domain_of email)) c.allowed_email_domains

unfoldable pub after_decode : World → Decoded → Answer Claims
unfolding is_allowed
after_decode w (valid c) =
    if not (is_allowed w.settings c.email) && not (str_eq c.auth_type (auth_type_value m2m))
    then http_error 403 "domain_not_allowed"
    else ok c
after_decode w expired_signature = http_error 401 "Token expired"
after_decode w other_error = http_error 401 "Invalid token"

unfoldable pub get_current_user : World → Request → State → Answer Claims
unfolding is_prefix after_decode
get_current_user w q s =
    if not (is_prefix "Bearer " (auth_header q))
    then http_error 401 "Missing or invalid token"
    else if exists w.now (block_key (after_space (auth_header q))) s.redis
    then http_error 401 "Token has been revoked"
    else after_decode w (verify_token w (after_space (auth_header q)))

-- The two dependency factories
unfoldable pub require_role : List Role → Answer Claims → Answer Claims
require_role roles (ok c) =
    if is_among c.role roles then ok c else http_error 403 "insufficient_permissions"
require_role roles (http_error status detail) = http_error status detail
require_role roles unhandled = unhandled

unfoldable pub require_permission : String → Answer Claims → Answer Claims
require_permission permission (ok c) =
    if any (str_eq permission) c.permissions
    then ok c
    else http_error 403 "insufficient_permissions"
require_permission permission (http_error status detail) = http_error status detail
require_permission permission unhandled = unhandled

-- `log_audit` swallows what the database raises.
unfoldable pub log_audit : World → Audit → State → State
log_audit w entry s =
    if w.audit_works then record s { audit_log = s.audit_log ++ entry ∷ [] } else s

-- An audit row of a request.
abbrev pub audit_of :
    Request
    → (action actor_type : String) (actor_id : Option String) (resource_type : String)
      (resource_id : Option String) (details : List (String × Text))
    → Audit
audit_of q action actor_type actor_id resource_type resource_id details = record {
  action = action;
  actor_type = actor_type;
  actor_id = actor_id;
  resource_type = resource_type;
  resource_id = resource_id;
  details = details;
  ip_address = q.client_host;
  trace_id = q.x_trace_id;
}
