-- ===== src/Prelude/Text/Infix.antt =====
-- Prefixes, suffixes and parts of a text.
use mathlib.Core.List.{[], ◌∷◌, ◌++◌, reverse, reverse-append, reverse-reverse, reverse-cons}
use mathlib.Core.Path.{◌≡◌, refl, sym, ap, ◌∙◌}
use mathlib.Core.Bool.{true, false}
use mathlib.Core.Logic.{inl, inr}
use Prim.Native.Nat.{ℕ}
use native.Mathlib.Omega.{arith}
use prompt_flow_ai.Prelude.Tests.{Bool-cases}
use prompt_flow_ai.Prelude.Text.{
  Text, text_eq, text_eq_iff, starts_with, ends_with, contains, is_space, lstrip, strip,
}

starts_with-append : (p s : Text) → starts_with p (p ++ s) ≡ true
unfolding starts_with
starts_with-append [] s = refl
starts_with-append (c ∷ p) s = ground (arith, starts_with-append p s)

pub contains-append : (a p b : Text) → contains p (a ++ (p ++ b)) ≡ true
unfolding contains
contains-append [] [] [] = refl
contains-append [] [] (c ∷ b) = refl
contains-append [] (c ∷ p) b = ground (arith, starts_with-append (c ∷ p) b)
contains-append (c ∷ a) p b = ground (arith, contains-append a p b)

-- A suffix that is found is one.
pub ends_with_sound :
    (suffix s : Text) → ends_with suffix s ≡ true → (pre : Text) × (s ≡ pre ++ suffix)
unfolding ends_with
ends_with_sound suffix [] h = ([], sym ((text_eq_iff suffix []).0 h))
ends_with_sound suffix (c ∷ s) h = elim (Bool-cases (text_eq suffix (c ∷ s))) [
  | inl e ↦ ([], sym ((text_eq_iff suffix (c ∷ s)).0 e))
  | inr e ↦ let (pre, q) = ends_with_sound suffix s (rw e at h) in (c ∷ pre, ap (λ t. c ∷ t) q)
]

lstrip-suffix : (s : Text) → (a : Text) × (s ≡ a ++ lstrip s)
unfolding lstrip
lstrip-suffix [] = ([], refl)
lstrip-suffix (c ∷ s) = elim (Bool-cases (is_space c)) [
  | inl e ↦ let (a, q) = lstrip-suffix s in (c ∷ a, rw e (ap (λ t. c ∷ t) q))
  | inr e ↦ ([], rw e refl)
]

-- What is stripped stood at the two ends.
pub strip-infix : (s : Text) → (a b : Text) × (s ≡ a ++ (strip s ++ b))
unfolding strip
strip-infix s =
    let (a, p) = lstrip-suffix s in
    let (b, q) = lstrip-suffix (reverse (lstrip s)) in
    (
      a,
      reverse b,
      p
          ∙ ap (λ t. a ++ t)
              (sym (reverse-reverse (lstrip s))
                ∙ ap reverse q
                ∙ reverse-append b (lstrip (reverse (lstrip s)))),
    )

lstrip-append : (s : Text) (c : ℕ) → is_space c ≡ false → lstrip (s ++ c ∷ []) ≡ lstrip s ++ c ∷ []
unfolding lstrip
lstrip-append [] c h = rw h
lstrip-append (d ∷ s) c h = elim (Bool-cases (is_space d)) [
  | inl e ↦ rw e (lstrip-append s c h)
  | inr e ↦ rw e
]

-- A text that ends with a code point that is no white space still does when stripped.
pub strip-append :
    (s : Text) (c : ℕ) → is_space c ≡ false → strip (s ++ c ∷ []) ≡ lstrip s ++ c ∷ []
unfolding strip lstrip
strip-append s c h = rw (
  lstrip-append s c h,
  reverse-append (lstrip s) (c ∷ []),
  h,
  reverse-cons c (reverse (lstrip s)),
  reverse-reverse (lstrip s),
)

abbrev head_or : ℕ → Text → ℕ
head_or d [] = d
head_or d (c ∷ s) = c

-- Two equal texts have the same last code point.
pub last_same : (a b : Text) (c d : ℕ) → a ++ c ∷ [] ≡ b ++ d ∷ [] → c ≡ d
last_same a b c d e =
    ap (head_or 0) (sym (reverse-append a (c ∷ [])) ∙ ap reverse e ∙ reverse-append b (d ∷ []))
