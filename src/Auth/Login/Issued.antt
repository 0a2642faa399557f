-- ===== src/Auth/Login/Issued.antt =====
-- The tokens of `auth_callback` and `refresh_token`, from the request to the row behind them.
use prompt_flow_ai.Prelude.{
  ◌≡◌, refl, ap, String, true, false, not, Option, none, some, [], arith, if-elim, is_some, str_eq,
}
use prompt_flow_ai.Prelude.Text.{Text, before}
use prompt_flow_ai.Redis.{exists, delete}
use prompt_flow_ai.Http.{ok}
use prompt_flow_ai.Auth.Tokens.{Request, User, State, World, is_allowed}
use prompt_flow_ai.Auth.Login.{
  Tokens, CognitoUser, Cognito, TokenResponse, state_key, text_or, lookup_provisioned_user,
  after_user_info, after_exchange, auth_callback, find_user, with_email, refreshed_user,
  after_refresh, refresh_token, cookie,
}
use prompt_flow_ai.Auth.Login.Laws.{
  IsIssued, YieldsAfter, Allows, refused, crashed, after_lookup-Yields, refresh_for-Yields,
}

-- A sign-in: the state parameter was waiting, Cognito named the person, and the domain is allowed.
pub record IsSignedIn (w : World) (c : Cognito) (q : Request) (code param : String) (s : State)
    (token : String) : Type 0 where
  pub waiting : exists w.now (state_key param) s.redis ≡ true
  pub tokens : Tokens
  pub person : CognitoUser
  pub exchanged : c.exchange_code_for_tokens code ≡ some tokens
  pub named_by_cognito : c.get_user_info tokens.access_token ≡ some person
  pub domain_allowed : is_allowed w.settings (text_or person.email []) ≡ true
  pub issued :
      IsIssued w q
        (text_or person.email [])
        (text_or person.name (before 64 (text_or person.email [])))
        s.users
        token

-- A refresh: Cognito took the cookie and named the person.
pub record IsRefreshed (w : World) (c : Cognito) (q : Request) (s : State) (token : String)
    : Type 0 where
  pub tokens : Tokens
  pub person : CognitoUser
  pub email : Text
  pub exchanged : c.refresh (cookie q) ≡ some (some tokens)
  pub named_by_cognito : c.get_user_info tokens.access_token ≡ some person
  pub email_given : person.email ≡ some email
  pub issued : IsIssued w q email (text_or person.name []) s.users token

found_by :
    (w : World) (email : Text) (s : State) (u : User)
    → lookup_provisioned_user w email s ≡ some (some u)
    → find_user email s.users ≡ some u
unfolding lookup_provisioned_user
found_by w email s u =
    if-elim (λ o. o ≡ some (some u) → find_user email s.users ≡ some u) w.database_works _ _
      (λ _ e. ap inner e) (λ _ e. absurd (clash (ap is_some e)))
  where
    inner : Option (Option User) → Option User
    inner none = none
    inner (some o) = o

    clash : false ≡ true → ⊥
    clash h = ground arith

row_behind :
    (w : World) (q : Request) (email fallback : Text) (s : State) (u : User)
    → lookup_provisioned_user w email s ≡ some (some u)
    → u.is_active ≡ true
    → Allows w q (IsIssued w q email fallback s.users) email fallback u
row_behind w q email fallback s u f a role e = record {
  row = u;
  row_role = role;
  found = found_by w email s u f;
  active = a;
  role_read = e;
  token_made = refl;
}

module _ (w : World) (c : Cognito) (q : Request) (s : State) where
  module _ (code param : String) (waiting : exists w.now (state_key param) s.redis ≡ true) where
    abbrev after_delete : State
    after_delete = record s { redis = delete (state_key param) s.redis }

    user_info-SignedIn :
        (t : Tokens) (o : Option CognitoUser)
        → c.exchange_code_for_tokens code ≡ some t
        → c.get_user_info t.access_token ≡ o
        → YieldsAfter (IsSignedIn w c q code param s) (after_user_info w q t o after_delete)
    unfolding after_user_info
    user_info-SignedIn t none x i = refused w q _ _ _
    user_info-SignedIn t (some info) x i =
        if-elim (YieldsAfter (IsSignedIn w c q code param s))
          (not (is_allowed w.settings (text_or info.email []))) _ _ (λ _. refused w q _ _ _)
          (λ d.
            after_lookup-Yields w q (IsSignedIn w c q code param s) t info (text_or info.email []) _
              after_delete
              (λ u f a role e. record {
                waiting = waiting;
                tokens = t;
                person = info;
                exchanged = x;
                named_by_cognito = i;
                domain_allowed = ground arith;
                issued = row_behind w q (text_or info.email []) _ after_delete u f a role e;
              }))

    exchange-SignedIn :
        (o : Option Tokens)
        → c.exchange_code_for_tokens code ≡ o
        → YieldsAfter (IsSignedIn w c q code param s) (after_exchange w c q o after_delete)
    unfolding after_exchange
    exchange-SignedIn none x = refused w q _ _ _
    exchange-SignedIn (some t) x = user_info-SignedIn t (c.get_user_info t.access_token) x refl

  -- A sign-in gives a token only if the state parameter was waiting, Cognito named the person, the
  -- person's domain is allowed, and the person's email has an active row in the users table; the
  -- token's claims are then made from that row alone, but for the email and a missing name.
  pub auth_callback-IsSignedIn :
      (code param : String) (t : TokenResponse)
      → (auth_callback w c q code param s).0 ≡ ok t
      → IsSignedIn w c q code param s t.access_token
  unfolding auth_callback
  auth_callback-IsSignedIn code param =
      if-elim (YieldsAfter (IsSignedIn w c q code param s))
        (not (exists w.now (state_key param) s.redis)) _ _ (λ _. refused w q _ _ _)
        (λ f. exchange-SignedIn code param (ground arith) (c.exchange_code_for_tokens code) refl)

  with_email-Refreshed :
      (t : Tokens) (info : CognitoUser) (o : Option Text)
      → c.refresh (cookie q) ≡ some (some t)
      → c.get_user_info t.access_token ≡ some info
      → info.email ≡ o
      → YieldsAfter (IsRefreshed w c q s) (with_email w q info o s)
  unfolding with_email
  with_email-Refreshed t info none x i m = crashed w q _
  with_email-Refreshed t info (some email) x i m =
      refresh_for-Yields w q (IsRefreshed w c q s) info email _ s (λ u f a role e. record {
        tokens = t;
        person = info;
        email = email;
        exchanged = x;
        named_by_cognito = i;
        email_given = m;
        issued = row_behind w q email _ s u f a role e;
      })

  refreshed_user-Refreshed :
      (t : Tokens) (o : Option CognitoUser)
      → c.refresh (cookie q) ≡ some (some t)
      → c.get_user_info t.access_token ≡ o
      → YieldsAfter (IsRefreshed w c q s) (refreshed_user w q o s)
  unfolding refreshed_user
  refreshed_user-Refreshed t none x i = crashed w q _
  refreshed_user-Refreshed t (some info) x i = with_email-Refreshed t info info.email x i refl

  after_refresh-Refreshed :
      (o : Option (Option Tokens))
      → c.refresh (cookie q) ≡ o
      → YieldsAfter (IsRefreshed w c q s) (after_refresh w c q o s)
  unfolding after_refresh
  after_refresh-Refreshed none x = crashed w q _
  after_refresh-Refreshed (some none) x = refused w q _ _ _
  after_refresh-Refreshed (some (some t)) x =
      refreshed_user-Refreshed t (c.get_user_info t.access_token) x refl

  -- A refresh gives a token only if Cognito took the cookie and named a person with an active row,
  -- from which the claims are made: a deactivated person gets none. The domain is not asked again.
  pub refresh_token-IsRefreshed :
      (t : TokenResponse) → (refresh_token w c q s).0 ≡ ok t → IsRefreshed w c q s t.access_token
  unfolding refresh_token
  refresh_token-IsRefreshed =
      if-elim (YieldsAfter (IsRefreshed w c q s)) (str_eq (cookie q) "") _ _
        (λ _. refused w q _ _ _) (λ _. after_refresh-Refreshed (c.refresh (cookie q)) refl)
