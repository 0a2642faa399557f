-- ===== src/Auth/Tests.antt =====
-- Concrete runs of module 1, and its theorems at them.
mod Signed
use prompt_flow_ai.Prelude.{
  ℕ, ◌+◌, ◌≤◌, ◌<◌, ◌≡◌, ◌≢◌, ◌↔◌, ◌⊎◌, refl, inl, inr, ap, sym, ◌∙◌, String, Bool, true, false,
  not, ◌&&◌, ◌||◌, Option, none, some, List, [], ◌∷◌, arith, ltb, leb, ltb→lt, leb→le, str_eq,
  eq_iff, if◌then◌else◌, if-elim, Bool-cases,
}
use prompt_flow_ai.Prelude.Text.{Text, codes, text_eq}
use prompt_flow_ai.Redis.{empty, exists, setex, delete}
use prompt_flow_ai.Redis.Memory.{memory}
use prompt_flow_ai.Auth.Tests.Signed.{signed, jwt}
use prompt_flow_ai.Auth.RateLimit
use prompt_flow_ai.Auth.RateLimit.Window.{Attempt, passed_in, passed_in-bound}
use prompt_flow_ai.Auth.Roles.{Role, admin, faculty, hod, AuthType, user, get_permissions, Claims}
use prompt_flow_ai.Auth.Pool.{Pool, Connection, Context, enter_works, available, with_session}
use prompt_flow_ai.Http.{Answer, ok, http_error, unhandled}
use prompt_flow_ai.Auth.Pool.Laws.{with_session-restores}
use prompt_flow_ai.Auth.Tokens.{
  Decoded, valid, expired_signature, other_error, Jwt, Request, User, State, World, settings,
  access_claims, is_prefix, after_space, auth_header, block_key, domain_of, is_allowed,
  get_current_user,
}
use prompt_flow_ai.Auth.Tokens.Laws.{get_current_user-access_claims}
use prompt_flow_ai.Auth.Login.{
  Tokens, CognitoUser, Cognito, TokenResponse, state_key, find_user, claims_for, auth_callback,
  refresh_token, logout,
}
use prompt_flow_ai.Auth.Login.Laws.{IsIssued}
use prompt_flow_ai.Auth.Login.Issued.{IsSignedIn, auth_callback-IsSignedIn}
use prompt_flow_ai.Auth.Users.{NewUser, provision_user, update_user_role, delete_user}
use prompt_flow_ai.Auth.Users.Laws.{Extends}
use prompt_flow_ai.Auth.Steps.{IsSameService, Step, called_back, role_updated, Reach, here, next}
use prompt_flow_ai.Auth.Steps.Revoked.{logout-revokes}
use prompt_flow_ai.Auth.Steps.Table.{IsOrderly, Step-IsOrderly, Reach-Extends}

-- What the definitions compute through.
runs : Unit {0}
unfolding text_eq RateLimit.dispatch exists setex delete passed_in get_current_user auth_callback
    refresh_token logout domain_of is_prefix after_space is_allowed find_user claims_for
    with_session enter_works provision_user update_user_role delete_user
runs = tt

-- The middleware: six attempts within a minute, the last of which is refused.
abbrev attempt : ℕ → Attempt
attempt t = record { now = t; client = some "10.0.0.1"; path = "/auth/login" }

abbrev six : List Attempt
six = attempt 106 ∷ attempt 105 ∷ attempt 104 ∷ attempt 103 ∷ attempt 102 ∷ attempt 101 ∷ []

five_pass : passed_in RateLimit.settings 100 "10.0.0.1" "/auth/login" six ≡ 5
unfolding runs
five_pass = refl

passed_in-bound_example : passed_in RateLimit.settings 100 "10.0.0.1" "/auth/login" six ≤ 5
passed_in-bound_example =
    passed_in-bound RateLimit.settings 100 "10.0.0.1" "/auth/login" six refl
      (omega arith, (omega arith, (omega arith, (omega arith, (omega arith, (tt, tt))))))

abbrev pool : Pool
pool = record { free = 2; in_use = 0 }

-- A connection that works up to its transaction's start, and one whose transaction does not start.
abbrev working : Connection
working = record {
  start_works = true;
  set_department_works = true;
  set_role_works = true;
  set_user_id_works = true;
  rollback_works = true;
  commit_works = true;
}

abbrev broken : Connection
broken = record working { start_works = false; rollback_works = false }

-- asyncpg's rollback raises when the transaction never started, and the connection is not released.
leaked :
    (with_session broken signed (λ k (n : ℕ). (ok n, n)) (pool, 3)).1.0
    ≡ record { free = 1; in_use = 1 }
unfolding runs
leaked = refl

with_session-restores_example :
    ((with_session working signed (λ k (n : ℕ). (ok n, 4)) (pool, 3)).1.0 ≡ available pool)
    ↔ ((enter_works working ≡ true) ⊎ (working.rollback_works ≡ true))
with_session-restores_example = with_session-restores working signed (λ k (n : ℕ). (ok n, 4)) pool 3

abbrev world_at : ℕ → World
world_at now = record {
  jwt = jwt;
  settings = settings;
  now = now;
  uuid = "trace";
  faculty_uuid = "f2";
  audit_works = true;
  database_works = true;
}

abbrev request : Request
request = record {
  authorization = some "Bearer tok";
  x_trace_id = none;
  client_host = some "10.0.0.1";
  refresh_cookie = some "refresh";
}

abbrev ada : User
ada = record {
  user_id = "user_1";
  faculty_id = "f1";
  email = codes "ada@srmap.edu.in";
  name = some (codes "Ada");
  role = "hod";
  department_code = some "CSE";
  is_active = true;
}

abbrev start : State
start = record {
  redis = setex 990 (state_key "state") 60 (empty memory);
  users = ada ∷ [];
  service_accounts = [];
  audit_log = [];
}

-- Cognito, where the person has given herself a role.
abbrev cognito : Cognito
cognito = record {
  exchange_code_for_tokens =
      λ code. some (record { access_token = "access"; refresh_token = some "refresh" });
  get_user_info = λ t. some (record {
    sub = some "cognito-1";
    email = some (codes "ada@srmap.edu.in");
    name = none;
    custom_role = some "admin";
    custom_department_code = some "ECE";
  });
  refresh = λ t. some (some (record { access_token = "access"; refresh_token = none }));
  revoke_works = λ t. false;
}

get_current_user-access_claims_example :
    get_current_user (world_at 1899) request start
    ≡ ok (
        access_claims
          (world_at 1000)
          "user_1"
          (codes "ada@srmap.edu.in")
          (codes "Ada")
          hod
          (some "CSE")
          (some "f1")
          user
          none)
unfolding runs
get_current_user-access_claims_example =
    get_current_user-access_claims (world_at 1899) (world_at 1000) request start "user_1"
      (codes "ada@srmap.edu.in") (codes "Ada") hod (some "CSE") (some "f1") user none refl
      record {
        borne = record { has_prefix = refl; carries = refl };
        signed = refl;
        unlisted = refl;
      }
      (omega arith) (omega arith) refl

auth_callback-IsSignedIn_example :
    IsSignedIn (world_at 1000) cognito request "code" "state" start "tok"
unfolding runs
auth_callback-IsSignedIn_example =
    auth_callback-IsSignedIn (world_at 1000) cognito request start "code" "state"
      record { access_token = "tok"; expires_in = 900; refresh_cookie = some "refresh" } refl

-- The state parameter works once.
used_up :
    (auth_callback
      (world_at 1001)
      cognito
      request
      "code"
      "state"
      (auth_callback (world_at 1000) cognito request "code" "state" start).1).0
    ≡ http_error 400 "Invalid or expired state parameter"
unfolding runs
used_up = refl

logout-revokes_example :
    get_current_user
      (world_at 1200)
      request
      (auth_callback
        (world_at 1150)
        cognito
        request
        "code"
        "state"
        (logout (world_at 1100) cognito request start).1).1
    ≢ ok signed
unfolding runs
logout-revokes_example =
    logout-revokes (world_at 1100) (world_at 1200) cognito request request start _ signed signed
      refl
      (next here (
        called_back (world_at 1150) record { same_jwt = refl; same_audience = refl } cognito request
          "code" "state" _))
      record { same_jwt = refl; same_audience = refl } refl

-- A head of department makes herself an admin.
abbrev after_promotion : State
after_promotion =
    (update_user_role (world_at 1100) working request "user_1" (some "admin") (pool, start)).1.1

promoted : after_promotion.users ≡ record ada { role = "admin" } ∷ []
unfolding runs
promoted = refl

Step-IsOrderly_example : IsOrderly (some (world_at 1100, request)) start after_promotion
Step-IsOrderly_example = Step-IsOrderly jwt "promptflow-api" (
    role_updated (world_at 1100) record { same_jwt = refl; same_audience = refl } working request
      "user_1" (some "admin") pool start)
