-- ===== src/Prelude/Text.antt =====
-- Texts that the program walks: a list of code points, with the `str` methods that it calls.
-- `lower` folds the ASCII letters: the program only compares its result with an ASCII domain.
pub mod Infix
use Prim.Native.Nat.{ℕ, zero, suc, ◌+◌, ◌-◌}
use Prim.Native.Char.{code}
use Prim.Native.String.{String}
use mathlib.Core.Path.{◌≡◌, refl, ap₂}
use mathlib.Core.Logic.{◌↔◌}
use mathlib.Core.Bool.{Bool, true, false, ◌&&◌, ◌||◌}
use mathlib.Core.List.{List, [], ◌∷◌, ◌++◌, map, reverse}
use native.Mathlib.Omega.{arith}
use prompt_flow_ai.Prelude.Lists.{length}
use prompt_flow_ai.Prelude.Tests.{leb, ◌==◌, ==_iff, if◌then◌else◌}

abbrev pub Text : Type 0
Text = List ℕ

abbrev pub Bytes : Type 0
Bytes = List ℕ

-- A literal of the program as a text.
abbrev pub codes : String → Text
codes String.[] = []
codes (String.◌∷◌ c s) = code c ∷ codes s

unfoldable pub text_eq : Text → Text → Bool
text_eq [] [] = true
text_eq [] (_ ∷ _) = false
text_eq (_ ∷ _) [] = false
text_eq (c ∷ s) (d ∷ t) = c == d && text_eq s t

pub text_eq_iff : (s t : Text) → (text_eq s t ≡ true) ↔ (s ≡ t)
unfolding text_eq
text_eq_iff [] [] = (λ _. refl, λ _. refl)
text_eq_iff [] (d ∷ t) = ground arith
text_eq_iff (c ∷ s) [] = ground arith
text_eq_iff (c ∷ s) (d ∷ t) = ground (arith, text_eq_iff s t)

pub text_eq_refl : (s : Text) → text_eq s s ≡ true
text_eq_refl s = (text_eq_iff s s).1 refl

unfoldable pub starts_with : Text → Text → Bool
starts_with [] s = true
starts_with (_ ∷ _) [] = false
starts_with (c ∷ p) (d ∷ s) = c == d && starts_with p s

-- `suffix` stands first: `s.endswith(suffix)`
unfoldable pub ends_with : Text → Text → Bool
unfolding text_eq
ends_with suffix [] = text_eq suffix []
ends_with suffix (c ∷ s) = text_eq suffix (c ∷ s) || ends_with suffix s

-- `part in s`
unfoldable pub contains : Text → Text → Bool
unfolding starts_with
contains part [] = starts_with part []
contains part (c ∷ s) = starts_with part (c ∷ s) || contains part s

unfoldable pub lower_code : ℕ → ℕ
lower_code c = if leb 65 c && leb c 90 then c + 32 else c

unfoldable pub lower : Text → Text
unfolding lower_code
lower = map lower_code

-- `str.isspace` of a code point
unfoldable pub is_space : ℕ → Bool
is_space c =
    leb 9 c && leb c 13
    || leb 28 c && leb c 32
    || c == 133
    || c == 160
    || c == 5760
    || leb 8192 c && leb c 8202
    || c == 8232
    || c == 8233
    || c == 8239
    || c == 8287
    || c == 12288

unfoldable pub lstrip : Text → Text
unfolding is_space
lstrip [] = []
lstrip (c ∷ s) = if is_space c then lstrip s else c ∷ s

unfoldable pub strip : Text → Text
unfolding lstrip
strip s = reverse (lstrip (reverse (lstrip s)))

-- `s.split(sep)[0]` for a separator of one code point
unfoldable pub before : ℕ → Text → Text
before sep [] = []
before sep (c ∷ s) = if c == sep then [] else c ∷ before sep s

-- `s.replace(tag, "")` for a tag that is not empty; the first argument counts the code points of
-- the current occurrence that are still to be dropped
remove_from : ℕ → Text → Text → Text
remove_from skip tag [] = []
remove_from (suc skip) tag (c ∷ s) = remove_from skip tag s
remove_from zero tag (c ∷ s) =
    let cut = remove_from (length tag - 1) tag s in
    let kept = c ∷ remove_from 0 tag s in if starts_with tag (c ∷ s) then cut else kept

unfoldable pub remove : Text → Text → Text
unfolding remove_from starts_with
remove tag s = remove_from 0 tag s

-- `s.split(sep)[-1]` for a separator of one code point
after_from : ℕ → Text → Text → Text
after_from sep last [] = last
after_from sep last (c ∷ s) = after_from sep (if c == sep then s else last) s

unfoldable pub after_last : ℕ → Text → Text
unfolding after_from
after_last sep s = after_from sep s s

-- `sep in s` for one code point
unfoldable pub has_code : ℕ → Text → Bool
has_code sep [] = false
has_code sep (c ∷ s) = c == sep || has_code sep s
