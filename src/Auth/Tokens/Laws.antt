-- ===== src/Auth/Tokens/Laws.antt =====
-- Which requests are accepted, and for which claims.
use mathlib.Core.Path.{subst}
use prompt_flow_ai.Prelude.{
  ◌+◌, ◌*◌, ◌≤◌, ◌<◌, ◌≡◌, ◌⊎◌, inl, inr, refl, ap, String, Bool, true, false, not, ◌&&◌, Option,
  some, arith, if-elim, str_eq, eq_iff,
}
use prompt_flow_ai.Prelude.Text.{Text}
use prompt_flow_ai.Redis.{exists}
use prompt_flow_ai.Auth.Roles.{Role, AuthType, m2m, auth_type_value, Claims}
use prompt_flow_ai.Http.{not_ok, Answer, ok, http_error, unhandled}
use prompt_flow_ai.Auth.Tokens.{
  Request, State, World, Decoded, valid, expired_signature, other_error, access_claims,
  verify_token, is_prefix, after_space, auth_header, block_key, is_allowed, after_decode,
  get_current_user,
}

-- What stands behind an accepted request.
pub record IsAccepted (w : World) (q : Request) (s : State) (c : Claims) : Type 0 where
  pub carried : verify_token w (after_space (auth_header q)) ≡ valid c
  pub not_revoked : exists w.now (block_key (after_space (auth_header q))) s.redis ≡ false
  pub not_expired : w.now < c.exp
  pub for_this_service : c.aud ≡ w.settings.jwt_audience
  pub known_domain : (is_allowed w.settings c.email ≡ true) ⊎ (c.auth_type ≡ "m2m")

body_or : Claims → Answer Claims → Claims
body_or d (ok c) = c
body_or d (http_error status detail) = d
body_or d unhandled = d

pub ok_same : (c d : Claims) → ok c ≡ ok d → c ≡ d
unfolding body_or
ok_same c d e = ap (body_or c) e

domain_checked :
    (a : Bool) (t : String)
    → (not a && not (str_eq t (auth_type_value m2m))) ≡ false
    → (a ≡ true) ⊎ (t ≡ "m2m")
domain_checked true t h = inl refl
domain_checked false t h = inr ((eq_iff t "m2m").0 (ground arith))

after_decode-ok :
    (w : World) (d : Decoded) (c : Claims)
    → after_decode w d ≡ ok c
    → (d ≡ valid c) × ((is_allowed w.settings c.email ≡ true) ⊎ (c.auth_type ≡ "m2m"))
unfolding after_decode
after_decode-ok w (valid b) c e =
    if-elim
      (λ r.
        r ≡ ok c
        → (valid b ≡ valid c) × ((is_allowed w.settings c.email ≡ true) ⊎ (c.auth_type ≡ "m2m")))
      (not (is_allowed w.settings b.email) && not (str_eq b.auth_type (auth_type_value m2m))) _ _
      (λ _ e. absurd (not_ok _ c (λ x. x) e))
      (λ f e.
        subst
          (λ x.
            (valid b ≡ valid x) × ((is_allowed w.settings x.email ≡ true) ⊎ (x.auth_type ≡ "m2m")))
          (ok_same b c e) (refl, domain_checked (is_allowed w.settings b.email) b.auth_type f))
      e
after_decode-ok w expired_signature c e = absurd (not_ok _ c (λ x. x) e)
after_decode-ok w other_error c e = absurd (not_ok _ c (λ x. x) e)

-- A request is accepted only for a token that decodes now under the service's audience, has not
-- expired, is not on the block list, and belongs to an allowed domain or to a service account.
pub get_current_user-IsAccepted :
    (w : World) (q : Request) (s : State) (c : Claims)
    → get_current_user w q s ≡ ok c
    → IsAccepted w q s c
unfolding get_current_user
get_current_user-IsAccepted w q s c =
    if-elim P (not (is_prefix "Bearer " (auth_header q))) _ _
      (λ _ e. absurd (not_ok _ c (λ x. x) e))
      (λ _.
        if-elim P (exists w.now (block_key (after_space (auth_header q))) s.redis) _ _
          (λ _ e. absurd (not_ok _ c (λ x. x) e))
          (λ f e.
            let (carried, domain) = after_decode-ok w _ c e in
            record {
              carried = carried;
              not_revoked = f;
              not_expired = w.jwt.decode_live _ _ _ _ carried;
              for_this_service = w.jwt.decode_audience _ _ _ _ carried;
              known_domain = domain;
            }))
  where
    P : Answer Claims → Type 0
    P r = r ≡ ok c → IsAccepted w q s c

-- A request that carries a token as its bearer token.
pub record Bears (token : String) (q : Request) : Type 0 where
  pub has_prefix : is_prefix "Bearer " (auth_header q) ≡ true
  pub carries : after_space (auth_header q) ≡ token

after_decode-valid :
    (w : World) (c : Claims)
    → (is_allowed w.settings c.email ≡ true) ⊎ (c.auth_type ≡ "m2m")
    → after_decode w (valid c) ≡ ok c
unfolding after_decode
after_decode-valid w c (inl a) = simp a refl
after_decode-valid w c (inr m) =
    if-elim (λ r. r ≡ ok c) (not (is_allowed w.settings c.email) && not (str_eq c.auth_type "m2m"))
      _ _ (λ e. absurd (clash _ _ ((eq_iff c.auth_type "m2m").1 m) e)) (λ _. refl)
  where
    clash : (a b : Bool) → b ≡ true → (not a && not b) ≡ true → ⊥
    clash a b e f = ground arith

-- Until it expires, a signed token that carries claims for this service, of an allowed domain or a
-- service account, is read back as these claims, unless it was revoked.
pub get_current_user-payload :
    (w : World) (q : Request) (s : State) (token : String) (c : Claims)
    → Bears token q
    → w.jwt.payload token ≡ some c
    → exists w.now (block_key token) s.redis ≡ false
    → c.aud ≡ w.settings.jwt_audience
    → c.iat ≤ w.now
    → w.now < c.exp
    → (is_allowed w.settings c.email ≡ true) ⊎ (c.auth_type ≡ "m2m")
    → get_current_user w q s ≡ ok c
unfolding get_current_user
get_current_user-payload w q s token c b p live a i x d =
    simp
      (
        b.has_prefix,
        b.carries,
        live,
        w.jwt.decode_valid w.settings.jwt_audience w.now token c p a i x,
        after_decode-valid w c d,
      )
      refl

-- The request bears a signed token with these claims, which is not on the block list.
pub record IsUsable (w : World) (q : Request) (s : State) (token : String) (c : Claims)
    : Type 0 where
  pub borne : Bears token q
  pub signed : w.jwt.payload token ≡ some c
  pub unlisted : exists w.now (block_key token) s.redis ≡ false

-- What `create_access_token` signs at one time, `get_current_user` reads back until
-- `access_token_expire_minutes` later: with the role it was given and with that role's permissions,
-- if the JWT library reads back what it encodes, the email is of an allowed domain, and the token
-- was not revoked.
pub get_current_user-access_claims :
    (w w0 : World) (q : Request) (s : State) (sub : String) (email name : Text) (role : Role)
    (department_code faculty_id : Option String) (auth_type : AuthType) (trace_id : Option String)
    → w0.settings.jwt_audience ≡ w.settings.jwt_audience
    → IsUsable w q s
        (w.jwt.encode
          (access_claims w0 sub email name role department_code faculty_id auth_type trace_id))
        (access_claims w0 sub email name role department_code faculty_id auth_type trace_id)
    → w0.now ≤ w.now
    → w.now < w0.now + w0.settings.access_token_expire_minutes * 60
    → is_allowed w.settings email ≡ true
    → get_current_user w q s
      ≡ ok (access_claims w0 sub email name role department_code faculty_id auth_type trace_id)
get_current_user-access_claims w w0 q s sub email name role department_code faculty_id auth_type
      trace_id a b l u d =
    get_current_user-payload w q s _
      (access_claims w0 sub email name role department_code faculty_id auth_type trace_id) b.borne
      b.signed b.unlisted a l u (inl d)
