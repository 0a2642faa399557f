-- ===== src/Http.antt =====
-- The answers of the HTTP handlers of modules 1, 4, 5 and 6.
use mathlib.Core.Path.{subst}
use prompt_flow_ai.Prelude.{ℕ, ◌≡◌, sym, String}

-- The answer to a request: a body, an `HTTPException`, or another exception.
pub data Answer (A : Type 0) : Type 0 where
  ok : A → Answer A
  http_error : (status : ℕ) (detail : String) → Answer A
  unhandled : Answer A

abbrev pub IsOk : {A : Type 0} → Answer A → Type 0
IsOk (ok a) = Unit
IsOk (http_error status detail) = ⊥
IsOk unhandled = ⊥

pub not_ok : {A : Type 0} (r : Answer A) (a : A) → (IsOk r → ⊥) → r ≡ ok a → ⊥
not_ok r a h e = h (subst IsOk (sym e) tt)
