-- ===== src/Auth/Tests/Signed.antt =====
-- A JWT library that knows one token, for runs at concrete inputs.
use mathlib.Core.Path.{subst}
use prompt_flow_ai.Prelude.{
  ℕ, ◌≤◌, ◌<◌, ◌≡◌, inl, inr, ap, sym, ◌∙◌, String, Bool, true, ◌&&◌, Option, none, some, arith,
  ltb, leb, ltb→lt, str_eq, eq_iff, if◌then◌else◌, Bool-cases,
}
use prompt_flow_ai.Prelude.Text.{codes}
use prompt_flow_ai.Auth.Roles.{hod, get_permissions, Claims}
use prompt_flow_ai.Auth.Tokens.{Decoded, valid, expired_signature, other_error, Jwt}

-- The claims of a head of department who signed in at 1000.
abbrev pub signed : Claims
signed = record {
  sub = "user_1";
  name = codes "Ada";
  email = codes "ada@srmap.edu.in";
  role = "hod";
  department_code = some "CSE";
  permissions = get_permissions hod;
  iss = "https://auth.promptflow.ai";
  aud = "promptflow-api";
  faculty_id = some "f1";
  exp = 1900;
  iat = 1000;
  auth_type = "user";
  trace_id = "trace";
}

abbrev pub checks : String → ℕ → Bool
checks audience now = str_eq "promptflow-api" audience && (leb 1000 now && ltb now 1900)

abbrev pub payload : String → Option Claims
payload t = if str_eq t "tok" then some signed else none

abbrev pub decode : String → ℕ → String → Decoded
decode audience now t =
    if str_eq t "tok"
    then (if checks audience now then valid signed else expired_signature)
    else other_error

claims_or : Option Claims → Claims
claims_or none = signed
claims_or (some c) = c

content : Decoded → Option Claims
content (valid c) = some c
content expired_signature = none
content other_error = none

abbrev pub Facts : String → ℕ → String → Claims → Type 0
Facts audience now t c = (payload t ≡ some c) × ((c.aud ≡ audience) × (now < c.exp))

nothing : (c : Claims) → none ≡ some c → ⊥
nothing c e = subst IsNone e tt
  where
    IsNone : Option Claims → Type 0
    IsNone none = Unit
    IsNone (some c) = ⊥

pub decode-Facts :
    (audience : String) (now : ℕ) (t : String) (c : Claims)
    → decode audience now t ≡ valid c
    → Facts audience now t c
unfolding content claims_or
decode-Facts audience now t c e = elim (Bool-cases (str_eq t "tok")) [
  | inr f ↦
      absurd (nothing c (sym (ap (λ b. content (by b (checks audience now))) f) ∙ ap content e))
  | inl s ↦ elim (Bool-cases (checks audience now)) [
    | inr f ↦ absurd (
        nothing c (
          sym (ap (λ b. content (by b (checks audience now))) s ∙ ap (λ b. content (by true b)) f)
          ∙ ap content e))
    | inl k ↦
        let same = ap claims_or (
          sym (ap (λ b. content (by b (checks audience now))) s ∙ ap (λ b. content (by true b)) k)
          ∙ ap content e) in
        subst (Facts audience now t) same (
          ap (λ b. if b then some signed else none) s,
          ((eq_iff "promptflow-api" audience).0 (first _ _ k), ltb→lt now 1900 (second _ _ _ k)),
        )
  ]
]
  where
    by : Bool → Bool → Decoded
    by a b = if a then (if b then valid signed else expired_signature) else other_error

    first : (a b : Bool) → (a && b) ≡ true → a ≡ true
    first a b h = ground arith

    second : (a b c : Bool) → (a && (b && c)) ≡ true → c ≡ true
    second a b c h = ground arith

pub decode_signed :
    (audience : String) (now : ℕ) (t : String) (c : Claims)
    → payload t ≡ some c
    → c.aud ≡ audience
    → c.iat ≤ now
    → now < c.exp
    → decode audience now t ≡ valid c
unfolding claims_or
decode_signed audience now t c p a i x = elim (Bool-cases (str_eq t "tok")) [
  | inr f ↦ absurd (nothing c (sym (ap (λ b. if b then some signed else none) f) ∙ p))
  | inl s ↦
      let same = ap claims_or (sym (ap (λ b. if b then some signed else none) s) ∙ p) in
      ap (λ b. by b (checks audience now)) s
      ∙ ap (by true) (
          all _ _ _
            ((eq_iff "promptflow-api" audience).1 (subst (λ d. d.aud ≡ audience) (sym same) a))
            (reached (subst (λ d. d.iat ≤ now) (sym same) i))
            (ltb_of (subst (λ d. now < d.exp) (sym same) x)))
      ∙ ap valid same
]
  where
    by : Bool → Bool → Decoded
    by a b = if a then (if b then valid signed else expired_signature) else other_error

    all : (a b c : Bool) → a ≡ true → b ≡ true → c ≡ true → (a && (b && c)) ≡ true
    all a b c h k l = ground arith

    reached : 1000 ≤ now → leb 1000 now ≡ true
    reached h = ground arith

    ltb_of : now < 1900 → ltb now 1900 ≡ true
    ltb_of h = ground arith

abbrev pub jwt : Jwt
jwt = record {
  encode = λ c. "tok";
  payload = payload;
  decode = decode;
  decode_valid = decode_signed;
  decode_payload = λ audience now t c e. (decode-Facts audience now t c e).0;
  decode_audience = λ audience now t c e. (decode-Facts audience now t c e).1.0;
  decode_live = λ audience now t c e. (decode-Facts audience now t c e).1.1;
}
