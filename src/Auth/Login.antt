-- ===== src/Auth/Login.antt =====
-- module1-auth/app/routes/auth.py: signing in through Cognito, refreshing, and signing out. Cognito
-- is a parameter; `none` is a call that raises.
pub mod Laws
pub mod Issued
use Prim.Native.String
use prompt_flow_ai.Prelude.{
  ℕ, zero, suc, ◌-◌, ◌*◌, String, Bool, true, false, not, ◌&&◌, ◌||◌, Option, none, some, List, [],
  ◌∷◌, ltb, non_empty, str_eq, if◌then◌else◌,
}
use prompt_flow_ai.Prelude.Text.{Text, codes, text_eq, before}
use prompt_flow_ai.Redis.{exists, setex, delete}
use prompt_flow_ai.Auth.Roles.{Role, role_of, role_value, user, Claims, get_permissions}
use prompt_flow_ai.Http.{Answer, ok, http_error, unhandled}
use prompt_flow_ai.Auth.Tokens.{
  Request, User, State, World, access_claims, after_space, auth_header, block_key, is_allowed,
  get_current_user, log_audit, audit_of,
}

pub record Tokens : Type 0 where
  pub access_token : String
  pub refresh_token : Option String

-- What Cognito says of a person, with the attributes that a person can set.
pub record CognitoUser : Type 0 where
  pub sub : Option String
  pub email : Option Text
  pub name : Option Text
  pub custom_role : Option String
  pub custom_department_code : Option String

pub record Cognito : Type 0 where
  pub exchange_code_for_tokens : (code : String) → Option Tokens
  pub get_user_info : (access_token : String) → Option CognitoUser
  -- The refresh grant: `none` raises, `some none` is another status than 200.
  pub refresh : (refresh_token : String) → Option (Option Tokens)
  pub revoke_works : (refresh_token : String) → Bool

pub record TokenResponse : Type 0 where
  pub access_token : String
  pub expires_in : ℕ
  pub refresh_cookie : Option String

abbrev pub state_key : String → String
state_key param = String.◌++◌ "oauth_state:" param

unfoldable pub find_user : Text → List User → Option User
find_user email [] = none
find_user email (u ∷ us) =
    let rest = find_user email us in if text_eq u.email email then some u else rest

-- `_lookup_provisioned_user`, on an admin connection, to which every row is visible: the outer
-- `none` is an exception.
unfoldable pub lookup_provisioned_user : World → (email : Text) → State → Option (Option User)
unfolding find_user
lookup_provisioned_user w email s =
    if w.database_works then some (find_user email s.users) else none

-- `login`: the redirect carries the fresh state parameter.
unfoldable pub login : World → State → String × State
login w s = (w.uuid, record s { redis = setex w.now (state_key w.uuid) 60 s.redis })

-- `name or fallback`
abbrev pub named : Option Text → Text → Text
named none fallback = fallback
named (some n) fallback = if non_empty n then n else fallback

abbrev pub text_or : Option Text → Text → Text
text_or none d = d
text_or (some t) d = t

unfoldable pub login_failed :
    World → Request → (actor_id : Option String) → (reason : String) → Text → State → State
unfolding log_audit
login_failed w q actor_id reason email s =
    log_audit w
      (audit_of q "LOGIN_FAILED" "user" actor_id "auth" none
        (("reason", codes reason) ∷ ("email", email) ∷ []))
      s

-- The claims of the token for a row of the users table.
unfoldable pub claims_for : World → Request → Text → (fallback_name : Text) → User → Role → Claims
claims_for w q email fallback u role =
    access_claims w u.user_id email (named u.name fallback) role u.department_code
      (some u.faculty_id) user q.x_trace_id

unfoldable pub issue :
    World
    → Request
    → Tokens
    → Text
    → Text
    → User
    → Option Role
    → State
    → Answer TokenResponse × State
unfolding claims_for log_audit
issue w q t email fallback u none s = (unhandled, s)
issue w q t email fallback u (some role) s = (
  ok (record {
    access_token = w.jwt.encode (claims_for w q email fallback u role);
    expires_in = w.settings.access_token_expire_minutes * 60;
    refresh_cookie = some (elim t.refresh_token [ none ↦ "" | some r ↦ r ]);
  }),
  log_audit w
      (audit_of q "LOGIN_SUCCESS" "user" (some u.user_id) "auth" none (
        ("email", email)
        ∷ ("dept", codes (elim u.department_code [ none ↦ "" | some d ↦ d ]))
        ∷ ("role", codes (role_value role))
        ∷ []))
      s,
)

unfoldable pub after_lookup :
    World
    → Request
    → Tokens
    → CognitoUser
    → Text
    → Option (Option User)
    → State
    → Answer TokenResponse × State
unfolding login_failed issue role_of
after_lookup w q t info email none s = (unhandled, s)
after_lookup w q t info email (some none) s = (
  http_error 403 "user_not_provisioned",
  login_failed w q info.sub "user_not_provisioned" email s,
)
after_lookup w q t info email (some (some u)) s =
    if not u.is_active
    then (
      http_error 403 "account_deactivated",
      login_failed w q (some u.user_id) "account_deactivated" email s,
    )
    else issue w q t email (text_or info.name (before 64 email)) u (role_of u.role) s

unfoldable pub after_user_info :
    World → Request → Tokens → Option CognitoUser → State → Answer TokenResponse × State
unfolding is_allowed login_failed after_lookup lookup_provisioned_user
after_user_info w q t none s = (http_error 400 "Failed to fetch user info", s)
after_user_info w q t (some info) s =
    let email = text_or info.email [] in
    if not (is_allowed w.settings email)
    then (
      http_error 403 "domain_not_allowed",
      login_failed w q info.sub "domain_not_allowed" email s,
    )
    else after_lookup w q t info email (lookup_provisioned_user w email s) s

unfoldable pub after_exchange :
    World → Cognito → Request → Option Tokens → State → Answer TokenResponse × State
unfolding after_user_info
after_exchange w c q none s = (http_error 400 "Failed to exchange authorization code", s)
after_exchange w c q (some t) s = after_user_info w q t (c.get_user_info t.access_token) s

unfoldable pub auth_callback :
    World → Cognito → Request → (code param : String) → State → Answer TokenResponse × State
unfolding after_exchange
auth_callback w c q code param s =
    if not (exists w.now (state_key param) s.redis)
    then (http_error 400 "Invalid or expired state parameter", s)
    else after_exchange w c q (c.exchange_code_for_tokens code)
        (record s { redis = delete (state_key param) s.redis })

unfoldable pub given_role :
    World → Request → CognitoUser → Text → User → Option Role → State → Answer TokenResponse × State
unfolding claims_for log_audit
given_role w q info email u none s = (unhandled, s)
given_role w q info email u (some role) s = (
  ok (record {
    access_token = w.jwt.encode (claims_for w q email (text_or info.name []) u role);
    expires_in = 900;
    refresh_cookie = none;
  }),
  log_audit w (audit_of q "TOKEN_REFRESHED" "user" (some u.user_id) "auth" none []) s,
)

-- The last part of `refresh_token`, where there is no check of the domain.
unfoldable pub refresh_for :
    World
    → Request
    → CognitoUser
    → Text
    → Option (Option User)
    → State
    → Answer TokenResponse × State
unfolding given_role role_of
refresh_for w q info email none s = (unhandled, s)
refresh_for w q info email (some none) s = (http_error 403 "user_not_provisioned", s)
refresh_for w q info email (some (some u)) s =
    if not u.is_active
    then (http_error 403 "user_not_provisioned", s)
    else given_role w q info email u (role_of u.role) s

unfoldable pub with_email :
    World → Request → CognitoUser → Option Text → State → Answer TokenResponse × State
unfolding refresh_for lookup_provisioned_user
with_email w q info none s = (unhandled, s)
with_email w q info (some email) s =
    refresh_for w q info email (lookup_provisioned_user w email s) s

unfoldable pub refreshed_user :
    World → Request → Option CognitoUser → State → Answer TokenResponse × State
unfolding with_email
refreshed_user w q none s = (unhandled, s)
refreshed_user w q (some info) s = with_email w q info info.email s

unfoldable pub after_refresh :
    World → Cognito → Request → Option (Option Tokens) → State → Answer TokenResponse × State
unfolding refreshed_user
after_refresh w c q none s = (unhandled, s)
after_refresh w c q (some none) s = (http_error 401 "Invalid or expired refresh token", s)
after_refresh w c q (some (some t)) s = refreshed_user w q (c.get_user_info t.access_token) s

abbrev pub cookie : Request → String
cookie q = elim q.refresh_cookie [ none ↦ "" | some r ↦ r ]

unfoldable pub refresh_token : World → Cognito → Request → State → Answer TokenResponse × State
unfolding after_refresh
refresh_token w c q s =
    if str_eq (cookie q) ""
    then (http_error 401 "No refresh token", s)
    else after_refresh w c q (c.refresh (cookie q)) s

-- `max(exp - now, 1)`
abbrev pub remaining : (exp now : ℕ) → ℕ
remaining exp now = if ltb 1 (exp - now) then exp - now else 1

-- The body of `logout`: the token is on the block list before Cognito is asked, which may raise.
unfoldable pub after_check : World → Cognito → Request → Answer Claims → State → Answer Unit × State
unfolding log_audit
after_check w c q (ok claims) s =
    let blocked = record s {
      redis =
          setex w.now (block_key (after_space (auth_header q))) (remaining claims.exp w.now)
            s.redis;
    } in
    if not (str_eq (cookie q) "") && not (c.revoke_works (cookie q))
    then (unhandled, blocked)
    else (ok tt, log_audit w (audit_of q "LOGOUT" "user" (some claims.sub) "auth" none []) blocked)
after_check w c q (http_error status detail) s = (http_error status detail, s)
after_check w c q unhandled s = (unhandled, s)

unfoldable pub logout : World → Cognito → Request → State → Answer Unit × State
unfolding after_check
logout w c q s = after_check w c q (get_current_user w q s) s
