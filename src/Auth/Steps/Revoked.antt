-- ===== src/Auth/Steps/Revoked.antt =====
-- A token stays revoked.
use mathlib.Core.Path.{subst}
use Prim.Native.String
use Prim.Native.Char.{code}
use text.Mathlib.TextLemmas.{cons-append, append_cancel_left}
use text.Mathlib.TextPositions.{eq_refl}
use prompt_flow_ai.Prelude.{
  ℕ, ◌+◌, ◌<◌, ◌≢◌, ltb, ◌≡◌, ◌∙◌, sym, ap, refl, String, Bool, true, false, arith, Option, none,
  some, str_eq, eq_iff, if-elim, Bool-cases, inl, inr,
}
use prompt_flow_ai.Redis.{exists, setex, delete, exists-setex, exists-delete}
use prompt_flow_ai.Auth.Roles.{Claims}
use prompt_flow_ai.Http.{ok}
use prompt_flow_ai.Auth.Tokens.{
  Jwt, valid, Request, State, World, block_key, after_space, auth_header, get_current_user,
}
use prompt_flow_ai.Auth.Tokens.Laws.{get_current_user-IsAccepted}
use prompt_flow_ai.Auth.Login.{Cognito, state_key, login, remaining, logout}
use prompt_flow_ai.Auth.Steps.{
  IsSameService, Step, sign_in, called_back, refreshed, signed_out, service_token, provisioned,
  users_listed, role_updated, user_deleted, Reach, here, next,
}
use prompt_flow_ai.Auth.Steps.Quiet.{
  blocked, refresh_token-IsQuiet, m2m_token-IsQuiet, auth_callback-cases, logout-cases,
  logout_blocks, provision_user_redis, list_users_redis, update_user_role_redis, delete_user_redis,
}

first_code : String → ℕ
first_code String.[] = 0
first_code (String.◌∷◌ c s) = code c

first_code-append :
    (s t : String) (n : ℕ) → first_code s ≡ n → (n ≡ 0 → ⊥) → first_code (String.◌++◌ s t) ≡ n
unfolding first_code
first_code-append String.[] t n e h = absurd (h (sym e))
first_code-append (String.◌∷◌ c s) t n e h = ap first_code (cons-append c s t) ∙ e

keys_apart : (a b : String) → str_eq (state_key a) (block_key b) ≡ false
unfolding first_code
keys_apart a b = elim (Bool-cases (str_eq (state_key a) (block_key b))) [
  | inl t ↦ absurd (
      clash (
        sym (first_code-append "oauth_state:" a 111 refl (λ h. omega (arith, h)))
        ∙ ap first_code ((eq_iff (state_key a) (block_key b)).0 t)
        ∙ first_code-append "blocklist:" b 98 refl (λ h. omega (arith, h))))
  | inr f ↦ f
]
  where
    clash : ◌≡◌ {A = ℕ} 111 98 → ⊥
    clash h = omega arith

payload_or : Claims → Option Claims → Claims
payload_or d none = d
payload_or d (some c) = c

claims_of_payload : {c d : Claims} → some c ≡ some d → c ≡ d
unfolding payload_or
claims_of_payload {c} e = ap (payload_or c) e

module _ (j : Jwt) (audience token : String) (c : Claims) where
  -- The block list holds the token for as long as its claims last.
  IsRevoked : State → Type 0
  IsRevoked s = (t : ℕ) → t < c.exp → exists t (block_key token) s.redis ≡ true

  -- The token carries the claims.
  IsCarried : Type 0
  IsCarried = j.payload token ≡ some c

  same-IsRevoked : (s s' : State) → s'.redis ≡ s.redis → IsRevoked s → IsRevoked s'
  unfolding IsRevoked
  same-IsRevoked s s' e h t l = subst (λ r. exists t (block_key token) r ≡ true) (sym e) (h t l)

  setex_other :
      (now ttl : ℕ) (param : String) (s : State)
      → IsRevoked s
      → IsRevoked (record s { redis = setex now (state_key param) ttl s.redis })
  unfolding IsRevoked
  setex_other now ttl param s h t l =
      exists-setex t now ttl (state_key param) (block_key token) s.redis
      ∙ rw (keys_apart param token) (h t l)

  delete_other :
      (param : String) (s : State)
      → IsRevoked s
      → IsRevoked (record s { redis = delete (state_key param) s.redis })
  unfolding IsRevoked
  delete_other param s h t l =
      exists-delete t (state_key param) (block_key token) s.redis
      ∙ rw (keys_apart param token) (h t l)

  now_decodes :
      (w : World) (q : Request) (s : State) (claims : Claims)
      → IsSameService j audience w
      → after_space (auth_header q) ≡ token
      → get_current_user w q s ≡ ok claims
      → j.decode audience w.now token ≡ valid claims
  now_decodes w q s claims same borne e =
      subst (λ x. j.decode audience w.now x ≡ valid claims) borne
        (subst (λ x. j.decode x w.now (after_space (auth_header q)) ≡ valid claims)
          same.same_audience
          (subst
            (λ x.
              x.decode w.settings.jwt_audience w.now (after_space (auth_header q)) ≡ valid claims)
            same.same_jwt (get_current_user-IsAccepted w q s claims e).carried))

  revoked_refused :
      (w : World) (q : Request) (s : State) (claims : Claims)
      → IsSameService j audience w
      → IsCarried
      → IsRevoked s
      → after_space (auth_header q) ≡ token
      → get_current_user w q s ≡ ok claims
      → ⊥
  unfolding IsRevoked IsCarried
  revoked_refused w q s claims same carried h borne e =
      let accepted = get_current_user-IsAccepted w q s claims e in
      let same_claims = claims_of_payload (
        sym carried
        ∙ j.decode_payload audience w.now token claims (now_decodes w q s claims same borne e)) in
      let in_time = subst (λ x. w.now < x.exp) (sym same_claims) accepted.not_expired in
      clash (h w.now in_time)
        (subst (λ x. exists w.now (block_key x) s.redis ≡ false) borne accepted.not_revoked)
    where
      clash : {b : Bool} → b ≡ true → b ≡ false → ⊥
      clash t f = ground arith

  -- The token itself is not accepted again, so no later sign-out shortens its entry.
  setex_block :
      (w : World) (q : Request) (claims : Claims) (s : State)
      → IsSameService j audience w
      → IsCarried
      → IsRevoked s
      → get_current_user w q s ≡ ok claims
      → IsRevoked (blocked w q claims s)
  unfolding IsRevoked
  setex_block w q claims s same carried h e t l =
      exists-setex t w.now _ (block_key (after_space (auth_header q))) (block_key token) s.redis
      ∙ if-elim (λ b. b ≡ true) (str_eq (block_key (after_space (auth_header q))) (block_key token))
          _ _
          (λ eq. absurd (
            revoked_refused w q s claims same carried h
              (append_cancel_left "blocklist:" _ _
                ((eq_iff (block_key (after_space (auth_header q))) (block_key token)).0 eq))
              e))
          (λ _. h t l)

  Step-IsRevoked : {s s' : State} → IsCarried → Step j audience s s' → IsRevoked s → IsRevoked s'
  unfolding login
  Step-IsRevoked carried (sign_in w same s) h = setex_other w.now 60 w.uuid s h
  Step-IsRevoked carried (called_back w same cog q code param s) h =
      auth_callback-cases w q IsRevoked cog code param s h
        (λ s' quiet. same-IsRevoked _ s' quiet.same_redis (delete_other param s h))
  Step-IsRevoked carried (refreshed w same cog q s) h =
      same-IsRevoked s _ (refresh_token-IsQuiet w q cog s).same_redis h
  Step-IsRevoked carried (signed_out w same cog q s) h =
      logout-cases w q IsRevoked cog s h (λ claims s' e quiet.
        same-IsRevoked (blocked w q claims s) s' quiet.same_redis
          (setex_block w q claims s same carried h e))
  Step-IsRevoked carried (service_token w same checks q username password s) h =
      same-IsRevoked s _ (m2m_token-IsQuiet w q checks username password s).same_redis h
  Step-IsRevoked carried (provisioned w same k q b p s) h =
      same-IsRevoked s _ (provision_user_redis w k q p s b) h
  Step-IsRevoked carried (users_listed w same k q p s) h =
      same-IsRevoked s _ (list_users_redis w k q p s) h
  Step-IsRevoked carried (role_updated w same k q user_id role p s) h =
      same-IsRevoked s _ (update_user_role_redis w k q p s user_id role) h
  Step-IsRevoked carried (user_deleted w same k q user_id p s) h =
      same-IsRevoked s _ (delete_user_redis w k q p s user_id) h

  Reach-IsRevoked : {s s' : State} → IsCarried → IsRevoked s → Reach j audience s s' → IsRevoked s'
  Reach-IsRevoked carried h here = h
  Reach-IsRevoked carried h (next r step) =
      Step-IsRevoked carried step (Reach-IsRevoked carried h r)

lasts_to_exp : (t exp now : ℕ) → t < exp → ltb t (now + remaining exp now) ≡ true
lasts_to_exp t exp now l = ground arith

blocked-IsRevoked :
    (j : Jwt) (audience : String) (w : World) (q : Request) (s : State) (c : Claims)
    → IsRevoked j audience (after_space (auth_header q)) c (blocked w q c s)
unfolding IsRevoked
blocked-IsRevoked j audience w q s c t l =
    let key = block_key (after_space (auth_header q)) in
    exists-setex t w.now (remaining c.exp w.now) key key s.redis
    ∙ rw (eq_refl key) (lasts_to_exp t c.exp w.now l)

-- Once a caller has signed out, whether or not Cognito's revocation then raised, its token is never
-- accepted again: not after any sequence of sign-ins, callbacks, refreshes, sign-outs, service
-- tokens and changes of users, at any time, under the same key pair and audience.
pub logout-revokes :
    (w w' : World) (cog : Cognito) (q q' : Request) (s s' : State) (claims claims' : Claims)
    → get_current_user w q s ≡ ok claims
    → Reach w.jwt w.settings.jwt_audience (logout w cog q s).1 s'
    → IsSameService w.jwt w.settings.jwt_audience w'
    → after_space (auth_header q') ≡ after_space (auth_header q)
    → get_current_user w' q' s' ≢ ok claims'
unfolding IsCarried
logout-revokes w w' cog q q' s s' claims claims' e r same borne e' =
    revoked_refused w.jwt w.settings.jwt_audience token claims w' q' s' claims' same carried
      (Reach-IsRevoked w.jwt w.settings.jwt_audience token claims carried revoked r) borne e'
  where
    token : String
    token = after_space (auth_header q)

    carried : IsCarried w.jwt w.settings.jwt_audience token claims
    carried = w.jwt.decode_payload _ _ _ _ (get_current_user-IsAccepted w q s claims e).carried

    revoked : IsRevoked w.jwt w.settings.jwt_audience token claims (logout w cog q s).1
    revoked =
        same-IsRevoked w.jwt w.settings.jwt_audience token claims (blocked w q claims s) _
          (logout_blocks w q cog claims s e).same_redis
          (blocked-IsRevoked w.jwt w.settings.jwt_audience w q s claims)
