-- ===== src/Ingest/Domain/Laws.antt =====
-- The domain lock of module2-email-worker/app/worker.py against the event's own validator, and the
-- form of a `From` header that it refuses.
use mathlib.Core.List.{append_assoc}
use prompt_flow_ai.Prelude.{
  ◌≡◌, refl, sym, ap, ◌∙◌, true, false, [], ◌∷◌, ◌++◌, arith, Bool-cases, inl, inr,
}
use prompt_flow_ai.Prelude.Text.{Text, codes, lower, lower_code, strip, ends_with, is_space, lstrip}
use prompt_flow_ai.Prelude.Text.Infix.{
  ends_with_sound, strip-infix, contains-append, strip-append, last_same,
}
use prompt_flow_ai.Ingest.Mail.{settings}
use prompt_flow_ai.Ingest.Domain.{validate_domain, sender_must_be_srmap}

ends_stripped :
    (s : Text)
    → validate_domain settings s ≡ true
    → ends_with (codes "@srmap.edu.in") (strip (lower s)) ≡ true
unfolding validate_domain
ends_stripped [] h = ground arith
ends_stripped (c ∷ s) h = h

lower-append : (s t : Text) → lower (s ++ t) ≡ lower s ++ lower t
unfolding lower
lower-append [] t = refl
lower-append (c ∷ s) t = ap (λ r. lower_code c ∷ r) (lower-append s t)

-- A sender that passes the worker's domain test passes the sender's validator of the event that is
-- built from it.
pub validate_domain-sender_must_be_srmap :
    (s : Text) → validate_domain settings s ≡ true → sender_must_be_srmap s ≡ true
unfolding sender_must_be_srmap
validate_domain-sender_must_be_srmap s h =
    let suffix = codes "@srmap.edu.in" in
    let (pre, p) = ends_with_sound suffix (strip (lower s)) (ends_stripped s h) in
    let (a, b, q) = strip-infix (lower s) in
    rw (q, p, append_assoc pre suffix b, sym (append_assoc a pre (suffix ++ b)))
      (contains-append (a ++ pre) suffix b)

no_suffix : (t : Text) → ends_with (codes "@srmap.edu.in") (t ++ 62 ∷ []) ≡ false
no_suffix t = elim (Bool-cases (ends_with (codes "@srmap.edu.in") (t ++ 62 ∷ []))) [
  | inl e ↦
      let (pre, p) = ends_with_sound (codes "@srmap.edu.in") (t ++ 62 ∷ []) e in
      ground (
        arith,
        last_same t (pre ++ codes "@srmap.edu.i") 62 110
            (p ∙ sym (append_assoc pre (codes "@srmap.edu.i") (110 ∷ []))),
      )
  | inr e ↦ e
]

-- A sender that ends in `>`, as the header form `Name <name@srmap.edu.in>` does, fails the worker's
-- domain test whatever its address.
pub angle_rejected : (s : Text) → validate_domain settings (s ++ codes ">") ≡ false
unfolding validate_domain is_space lower lower_code
angle_rejected [] = refl
angle_rejected (c ∷ s) =
    ap (λ t. ends_with (codes "@srmap.edu.in") (strip t)) (lower-append (c ∷ s) (codes ">"))
    ∙ ap (ends_with (codes "@srmap.edu.in")) (strip-append (lower (c ∷ s)) 62 refl)
    ∙ no_suffix (lstrip (lower (c ∷ s)))
