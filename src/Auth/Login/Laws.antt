-- ===== src/Auth/Login/Laws.antt =====
-- What stands behind a token that a sign-in or a refresh gives.
use mathlib.Core.Path.{subst}
use prompt_flow_ai.Prelude.{
  ℕ, ◌≡◌, refl, sym, ap, String, true, not, Option, none, some, List, [], arith, if-elim,
}
use prompt_flow_ai.Prelude.Text.{Text, before}
use prompt_flow_ai.Auth.Roles.{Role, role_of}
use prompt_flow_ai.Http.{Answer, ok, http_error, unhandled}
use prompt_flow_ai.Auth.Tokens.{Request, User, State, World, Audit, log_audit}
use prompt_flow_ai.Http.{not_ok}
use prompt_flow_ai.Auth.Login.{
  Tokens, CognitoUser, TokenResponse, text_or, claims_for, issue, after_lookup, find_user,
  given_role, refresh_for,
}

pub log_audit_redis : (w : World) (e : Audit) (s : State) → (log_audit w e s).redis ≡ s.redis
unfolding log_audit
log_audit_redis w e s =
    if-elim {A = State} (λ x. x.redis ≡ s.redis) w.audit_works _ _ (λ _. refl) (λ _. refl)

pub log_audit_users : (w : World) (e : Audit) (s : State) → (log_audit w e s).users ≡ s.users
unfolding log_audit
log_audit_users w e s =
    if-elim {A = State} (λ x. x.users ≡ s.users) w.audit_works _ _ (λ _. refl) (λ _. refl)

-- The row that stands behind a token, and the token's claims, which are the row's: what Cognito
-- says beyond the email and a fallback for the name does not occur in them.
pub record IsIssued (w : World) (q : Request) (email fallback : Text) (users : List User)
    (token : String) : Type 0 where
  pub row : User
  pub row_role : Role
  pub found : find_user email users ≡ some row
  pub active : row.is_active ≡ true
  pub role_read : role_of row.role ≡ some row_role
  pub token_made : token ≡ w.jwt.encode (claims_for w q email fallback row row_role)

response_token : Answer TokenResponse → String
response_token (ok r) = r.access_token
response_token (http_error status detail) = ""
response_token unhandled = ""

token_same : (a b : TokenResponse) → ok a ≡ ok b → b.access_token ≡ a.access_token
unfolding response_token
token_same a b e = sym (ap response_token e)

-- An answer that gives only such tokens.
abbrev pub Yields : (String → Type 0) → Answer TokenResponse → Type 0
Yields Q r = (t : TokenResponse) → r ≡ ok t → Q t.access_token

abbrev pub YieldsAfter : (String → Type 0) → Answer TokenResponse × State → Type 0
YieldsAfter Q r = Yields Q r.0

module _ (w : World) (q : Request) (Q : String → Type 0) where
  pub refused : (status : ℕ) (detail : String) → Yields Q (http_error status detail)
  refused status detail t e = absurd (not_ok _ t (λ x. x) e)

  pub crashed : Yields Q unhandled
  crashed t e = absurd (not_ok _ t (λ x. x) e)

  pub given : (r : TokenResponse) → Q r.access_token → Yields Q (ok r)
  given r h t e = subst Q (sym (token_same r t e)) h

  -- The tokens that a row may give.
  abbrev pub Allows : (email fallback : Text) → User → Type 0
  Allows email fallback u =
      (role : Role)
      → role_of u.role ≡ some role
      → Q (w.jwt.encode (claims_for w q email fallback u role))

  issue-Yields :
      (ts : Tokens) (email fallback : Text) (u : User) (r : Option Role) (s : State)
      → ((role : Role) → r ≡ some role → Q (w.jwt.encode (claims_for w q email fallback u role)))
      → YieldsAfter Q (issue w q ts email fallback u r s)
  unfolding issue
  issue-Yields ts email fallback u none s h = crashed
  issue-Yields ts email fallback u (some role) s h = given _ (h role refl)

  given_role-Yields :
      (info : CognitoUser) (email : Text) (u : User) (r : Option Role) (s : State)
      → ((role : Role)
          → r ≡ some role
          → Q (w.jwt.encode (claims_for w q email (text_or info.name []) u role)))
      → YieldsAfter Q (given_role w q info email u r s)
  unfolding given_role
  given_role-Yields info email u none s h = crashed
  given_role-Yields info email u (some role) s h = given _ (h role refl)

  pub after_lookup-Yields :
      (ts : Tokens) (info : CognitoUser) (email : Text) (o : Option (Option User)) (s : State)
      → ((u : User)
          → o ≡ some (some u)
          → u.is_active ≡ true
          → Allows email (text_or info.name (before 64 email)) u)
      → YieldsAfter Q (after_lookup w q ts info email o s)
  unfolding after_lookup
  after_lookup-Yields ts info email none s h = crashed
  after_lookup-Yields ts info email (some none) s h = refused _ _
  after_lookup-Yields ts info email (some (some u)) s h =
      if-elim (YieldsAfter Q) (not u.is_active) _ _ (λ _. refused _ _)
        (λ a. issue-Yields ts email _ u (role_of u.role) s (h u refl (ground arith)))

  pub refresh_for-Yields :
      (info : CognitoUser) (email : Text) (o : Option (Option User)) (s : State)
      → ((u : User)
          → o ≡ some (some u)
          → u.is_active ≡ true
          → Allows email (text_or info.name []) u)
      → YieldsAfter Q (refresh_for w q info email o s)
  unfolding refresh_for
  refresh_for-Yields info email none s h = crashed
  refresh_for-Yields info email (some none) s h = refused _ _
  refresh_for-Yields info email (some (some u)) s h =
      if-elim (YieldsAfter Q) (not u.is_active) _ _ (λ _. refused _ _)
        (λ a. given_role-Yields info email u (role_of u.role) s (h u refl (ground arith)))
