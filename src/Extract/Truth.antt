-- ===== src/Extract/Truth.antt =====
-- Python's truth values of optional texts and numbers, and `or` on them.
use prompt_flow_ai.Prelude.{
  ℕ, zero, suc, Bool, true, false, Option, none, some, List, [], ◌∷◌, if◌then◌else◌,
}
use prompt_flow_ai.Prelude.Text.{Text}

-- `bool(s)`: absent and empty texts are false
abbrev pub has_text : Option Text → Bool
has_text none = false
has_text (some []) = false
has_text (some (c ∷ s)) = true

-- `bool(n)`: absent and zero are false
abbrev pub has_number : Option ℕ → Bool
has_number none = false
has_number (some zero) = false
has_number (some (suc n)) = true

abbrev pub or_text : Option Text → Option Text → Option Text
or_text a b = if has_text a then a else b

abbrev pub or_number : Option ℕ → Option ℕ → Option ℕ
or_number a b = if has_number a then a else b

abbrev pub or_list {ℓ} : {A : Type ℓ} → List A → List A → List A
or_list [] ys = ys
or_list (x ∷ xs) ys = x ∷ xs
