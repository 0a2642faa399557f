-- ===== src/Auth/Steps/Quiet.antt =====
-- What the handlers of module 1 leave as it was.
use mathlib.Core.Path.{subst}
use prompt_flow_ai.Prelude.{
  ◌≡◌, refl, sym, String, Bool, true, false, not, ◌&&◌, Option, none, some, List, [], ◌∷◌, if-elim,
  str_eq,
}
use prompt_flow_ai.Prelude.Text.{Text}
use prompt_flow_ai.Redis.{exists, setex, delete}
use prompt_flow_ai.Auth.Roles.{Role, admin, hod, role_of, Claims}
use prompt_flow_ai.Auth.Pool.{Pool, Connection, with_session}
use prompt_flow_ai.Http.{Answer, ok, http_error, unhandled}
use prompt_flow_ai.Auth.Tokens.{
  Request, User, State, World, Audit, is_allowed, log_audit, get_current_user, block_key,
  after_space, auth_header,
}
use prompt_flow_ai.Auth.Login.{
  Tokens, CognitoUser, Cognito, TokenResponse, state_key, text_or, lookup_provisioned_user, issue,
  after_lookup, after_user_info, after_exchange, auth_callback, refresh_for, with_email,
  login_failed, refreshed_user, after_refresh, refresh_token, given_role, after_check, logout,
  remaining, cookie,
}
use prompt_flow_ai.Auth.Login.Laws.{log_audit_redis, log_audit_users}
use prompt_flow_ai.Auth.Services.{Checks, after_verify, m2m_token, verify_m2m_client}
use prompt_flow_ai.Auth.Users.{
  NewUser, Reply, audited, plain, guarded, caller, query, insert_user, listed, set_role,
  update_where, deactivated, provision_user_as, list_users_as, update_user_role_as, delete_user_as,
  provision_user, list_users, update_user_role, delete_user,
}

-- Redis and the users table are as they were.
pub record IsQuiet (s s' : State) : Type 0 where
  pub same_redis : s'.redis ≡ s.redis
  pub same_users : s'.users ≡ s.users

quiet : (s : State) → IsQuiet s s
quiet s = record { same_redis = refl; same_users = refl }

log_audit-IsQuiet : (w : World) (e : Audit) (s : State) → IsQuiet s (log_audit w e s)
log_audit-IsQuiet w e s = record {
  same_redis = log_audit_redis w e s;
  same_users = log_audit_users w e s;
}

abbrev Quietly : {A : Type 0} → State → A × State → Type 0
Quietly s r = IsQuiet s r.1

module _ (w : World) (q : Request) where
  issue-IsQuiet :
      (t : Tokens) (email fallback : Text) (u : User) (r : Option Role) (s : State)
      → IsQuiet s (issue w q t email fallback u r s).1
  unfolding issue
  issue-IsQuiet t email fallback u none s = quiet s
  issue-IsQuiet t email fallback u (some role) s = log_audit-IsQuiet w _ s

  after_lookup-IsQuiet :
      (t : Tokens) (info : CognitoUser) (email : Text) (o : Option (Option User)) (s : State)
      → IsQuiet s (after_lookup w q t info email o s).1
  unfolding after_lookup login_failed
  after_lookup-IsQuiet t info email none s = quiet s
  after_lookup-IsQuiet t info email (some none) s = log_audit-IsQuiet w _ s
  after_lookup-IsQuiet t info email (some (some u)) s =
      if-elim (Quietly s) (not u.is_active) _ _ (λ _. log_audit-IsQuiet w _ s)
        (λ _. issue-IsQuiet t email _ u (role_of u.role) s)

  after_user_info-IsQuiet :
      (t : Tokens) (o : Option CognitoUser) (s : State) → IsQuiet s (after_user_info w q t o s).1
  unfolding after_user_info login_failed
  after_user_info-IsQuiet t none s = quiet s
  after_user_info-IsQuiet t (some info) s =
      if-elim (Quietly s) (not (is_allowed w.settings (text_or info.email []))) _ _
        (λ _. log_audit-IsQuiet w _ s)
        (λ _. after_lookup-IsQuiet t info _ (lookup_provisioned_user w (text_or info.email []) s) s)

  after_exchange-IsQuiet :
      (c : Cognito) (o : Option Tokens) (s : State) → IsQuiet s (after_exchange w c q o s).1
  unfolding after_exchange
  after_exchange-IsQuiet c none s = quiet s
  after_exchange-IsQuiet c (some t) s = after_user_info-IsQuiet t (c.get_user_info t.access_token) s

  given_role-IsQuiet :
      (info : CognitoUser) (email : Text) (u : User) (r : Option Role) (s : State)
      → IsQuiet s (given_role w q info email u r s).1
  unfolding given_role
  given_role-IsQuiet info email u none s = quiet s
  given_role-IsQuiet info email u (some role) s = log_audit-IsQuiet w _ s

  refresh_for-IsQuiet :
      (info : CognitoUser) (email : Text) (o : Option (Option User)) (s : State)
      → IsQuiet s (refresh_for w q info email o s).1
  unfolding refresh_for
  refresh_for-IsQuiet info email none s = quiet s
  refresh_for-IsQuiet info email (some none) s = quiet s
  refresh_for-IsQuiet info email (some (some u)) s =
      if-elim (Quietly s) (not u.is_active) _ _ (λ _. quiet s)
        (λ _. given_role-IsQuiet info email u (role_of u.role) s)

  with_email-IsQuiet :
      (info : CognitoUser) (o : Option Text) (s : State) → IsQuiet s (with_email w q info o s).1
  unfolding with_email
  with_email-IsQuiet info none s = quiet s
  with_email-IsQuiet info (some email) s =
      refresh_for-IsQuiet info email (lookup_provisioned_user w email s) s

  refreshed_user-IsQuiet :
      (o : Option CognitoUser) (s : State) → IsQuiet s (refreshed_user w q o s).1
  unfolding refreshed_user
  refreshed_user-IsQuiet none s = quiet s
  refreshed_user-IsQuiet (some info) s = with_email-IsQuiet info info.email s

  after_refresh-IsQuiet :
      (c : Cognito) (o : Option (Option Tokens)) (s : State) → IsQuiet s (after_refresh w c q o s).1
  unfolding after_refresh
  after_refresh-IsQuiet c none s = quiet s
  after_refresh-IsQuiet c (some none) s = quiet s
  after_refresh-IsQuiet c (some (some t)) s =
      refreshed_user-IsQuiet (c.get_user_info t.access_token) s

  pub refresh_token-IsQuiet : (c : Cognito) (s : State) → IsQuiet s (refresh_token w c q s).1
  unfolding refresh_token
  refresh_token-IsQuiet c s =
      if-elim (Quietly s) (str_eq (cookie q) "") _ _ (λ _. quiet s)
        (λ _. after_refresh-IsQuiet c (c.refresh (cookie q)) s)

  after_verify-IsQuiet :
      (username : String) (o : Option Bool) (s : State)
      → IsQuiet s (after_verify w q username o s).1
  unfolding after_verify
  after_verify-IsQuiet username none s = quiet s
  after_verify-IsQuiet username (some false) s = log_audit-IsQuiet w _ s
  after_verify-IsQuiet username (some true) s = log_audit-IsQuiet w _ s

  pub m2m_token-IsQuiet :
      (h : Checks) (username : String) (password : Text) (s : State)
      → IsQuiet s (m2m_token w h q username password s).1
  unfolding m2m_token
  m2m_token-IsQuiet h username password s =
      after_verify-IsQuiet username (verify_m2m_client w h username password s) s

  -- A sign-in that passes the state check has used the parameter up, whatever follows.
  pub auth_callback-cases :
      (P : State → Type 0) (c : Cognito) (code param : String) (s : State)
      → P s
      → ((s' : State) → IsQuiet (record s { redis = delete (state_key param) s.redis }) s' → P s')
      → P (auth_callback w c q code param s).1
  unfolding auth_callback
  auth_callback-cases P c code param s h f =
      if-elim {A = Answer TokenResponse × State} (λ r. P r.1)
        (not (exists w.now (state_key param) s.redis)) _ _ (λ _. h)
        (λ _. f _ (after_exchange-IsQuiet c (c.exchange_code_for_tokens code) _))

  after_check-cases :
      (P : State → Type 0) (c : Cognito) (a : Answer Claims) (s : State)
      → P s
      → ((claims : Claims) (s' : State)
          → a ≡ ok claims
          → IsQuiet
              (record s {
                redis =
                    setex w.now
                      (block_key (after_space (auth_header q)))
                      (remaining claims.exp w.now)
                      s.redis;
              })
              s'
          → P s')
      → P (after_check w c q a s).1
  unfolding after_check
  after_check-cases P c (ok claims) s h f =
      if-elim {A = Answer Unit × State} (λ r. P r.1)
        (not (str_eq (cookie q) "") && not (c.revoke_works (cookie q))) _ _
        (λ _. f claims _ refl (quiet _)) (λ _. f claims _ refl (log_audit-IsQuiet w _ _))
  after_check-cases P c (http_error status detail) s h f = h
  after_check-cases P c unhandled s h f = h

  -- A sign-out either changes nothing, or puts the token of an accepted caller on the block list.
  pub logout-cases :
      (P : State → Type 0) (c : Cognito) (s : State)
      → P s
      → ((claims : Claims) (s' : State)
          → get_current_user w q s ≡ ok claims
          → IsQuiet
              (record s {
                redis =
                    setex w.now
                      (block_key (after_space (auth_header q)))
                      (remaining claims.exp w.now)
                      s.redis;
              })
              s'
          → P s')
      → P (logout w c q s).1
  unfolding logout
  logout-cases P c s h f = after_check-cases P c (get_current_user w q s) s h f

  -- The state in which the token is on the block list until `exp`.
  abbrev pub blocked : Claims → State → State
  blocked claims s = record s {
    redis =
        setex w.now (block_key (after_space (auth_header q))) (remaining claims.exp w.now) s.redis;
  }

  -- The token of an accepted caller is put on the list, even if Cognito's call raises.
  pub logout_blocks :
      (c : Cognito) (claims : Claims) (s : State)
      → get_current_user w q s ≡ ok claims
      → IsQuiet (blocked claims s) (logout w c q s).1
  unfolding logout after_check
  logout_blocks c claims s e =
      subst (λ a. IsQuiet (blocked claims s) (after_check w c q a s).1) (sym e)
        (if-elim (Quietly (blocked claims s))
          (not (str_eq (cookie q) "") && not (c.revoke_works (cookie q))) _ _ (λ _. quiet _)
          (λ _. log_audit-IsQuiet w _ _))

  -- The handlers of the users table do not touch Redis.
  audited_redis :
      {A : Type 0} (e : Audit) (s : State) (r : Answer A × (Pool × List User))
      → (audited w e s r).1.1.redis ≡ s.redis
  unfolding audited
  audited_redis e s (ok a, (p, us)) = log_audit_redis w e (record s { users = us })
  audited_redis e s (http_error status detail, (p, us)) = refl
  audited_redis e s (unhandled, (p, us)) = refl

  plain_redis :
      {A : Type 0} (s : State) (r : Answer A × (Pool × List User)) → (plain s r).1.1.redis ≡ s.redis
  unfolding plain
  plain_redis s (a, (p, us)) = refl

pub guarded-elim :
    {A : Type 0} (P : State → Type 0) (a : Answer Claims) (f : Claims → Reply A) (p : Pool)
    (s : State)
    → P s
    → ((c : Claims) → a ≡ ok c → P (f c).1.1)
    → P (guarded a f (p, s)).1.1
unfolding guarded
guarded-elim P (ok c) f p s h g = g c refl
guarded-elim P (http_error status detail) f p s h g = h
guarded-elim P unhandled f p s h g = h

module _ (w : World) (k : Connection) (q : Request) (p : Pool) (s : State) where
  abbrev SameRedis : State → Type 0
  SameRedis s' = s'.redis ≡ s.redis

  provision_as_redis :
      (b : NewUser) (c : Claims) → SameRedis (provision_user_as w k q b (p, s) c).1.1
  unfolding provision_user_as
  provision_as_redis b c = audited_redis w q _ s (with_session k c (insert_user w b) (p, s.users))

  pub provision_user_redis : (b : NewUser) → (provision_user w k q b (p, s)).1.1.redis ≡ s.redis
  unfolding provision_user
  provision_user_redis b =
      guarded-elim SameRedis (caller w q (admin ∷ []) s) (provision_user_as w k q b (p, s)) p s refl
        (λ c e. provision_as_redis b c)

  list_as_redis : (c : Claims) → SameRedis (list_users_as w k q (p, s) c).1.1
  unfolding list_users_as
  list_as_redis c =
      plain_redis w q s (with_session k c (λ k us. query w (listed c k us) us us) (p, s.users))

  pub list_users_redis : (list_users w k q (p, s)).1.1.redis ≡ s.redis
  unfolding list_users
  list_users_redis =
      guarded-elim SameRedis (caller w q (hod ∷ admin ∷ []) s) (list_users_as w k q (p, s)) p s refl
        (λ c e. list_as_redis c)

  update_as_redis :
      (user_id : String) (role : Option String) (c : Claims)
      → SameRedis (update_user_role_as w k q user_id role (p, s) c).1.1
  unfolding update_user_role_as
  update_as_redis user_id role c =
      audited_redis w q _ s (with_session k c (set_role w user_id role) (p, s.users))

  pub update_user_role_redis :
      (user_id : String) (role : Option String)
      → (update_user_role w k q user_id role (p, s)).1.1.redis ≡ s.redis
  unfolding update_user_role
  update_user_role_redis user_id role =
      guarded-elim SameRedis (caller w q (hod ∷ admin ∷ []) s)
        (update_user_role_as w k q user_id role (p, s)) p s refl
        (λ c e. update_as_redis user_id role c)

  delete_as_redis :
      (user_id : String) (c : Claims) → SameRedis (delete_user_as w k q user_id (p, s) c).1.1
  unfolding delete_user_as
  delete_as_redis user_id c = audited_redis w q _ s (
      with_session k c (λ k us. query w tt (update_where k user_id deactivated us) us) (p, s.users))

  pub delete_user_redis :
      (user_id : String) → (delete_user w k q user_id (p, s)).1.1.redis ≡ s.redis
  unfolding delete_user
  delete_user_redis user_id =
      guarded-elim SameRedis (caller w q (admin ∷ []) s) (delete_user_as w k q user_id (p, s)) p s
        refl (λ c e. delete_as_redis user_id c)
