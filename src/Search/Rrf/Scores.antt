-- ===== src/Search/Rrf/Scores.antt =====
-- How a paper's fused score depends on its two ranks.
use native.Mathlib.Nat.{mul-le-mul_right}
use prompt_flow_ai.Prelude.{ℕ, ◌*◌, ◌≤◌, Option, none, some, arith}
use prompt_flow_ai.Search.Rrf.{Fraction, summand, plus, rrf_score}

-- The rank stands at or above the other; a missing rank is below every rank.
abbrev pub AtOrAbove : Option ℕ → Option ℕ → Type 0
AtOrAbove r none = Unit
AtOrAbove none (some b) = ⊥
AtOrAbove (some a) (some b) = a ≤ b

abbrev pub LessEqual : Fraction → Fraction → Type 0
LessEqual a b = a.num * b.den ≤ b.num * a.den

summand-LessEqual : (k : ℕ) (a b : Option ℕ) → AtOrAbove a b → LessEqual (summand k b) (summand k a)
unfolding summand
summand-LessEqual k none none h = omega arith
summand-LessEqual k (some a) none h = omega arith
summand-LessEqual k none (some b) h = absurd h
summand-LessEqual k (some a) (some b) h = omega arith

plus-LessEqual :
    (a b c d : Fraction) → LessEqual a b → LessEqual c d → LessEqual (plus a c) (plus b d)
plus-LessEqual a b c d h k =
    omega (arith, mul-le-mul_right (c.den * d.den) h, mul-le-mul_right (a.den * b.den) k)

-- A paper that stands at or above another in both result lists, where a missing paper is below every rank, has at least
-- the other's fused score, whatever the constant k is.
pub rrf_score-LessEqual :
    (k : ℕ) (keyword_a semantic_a keyword_b semantic_b : Option ℕ)
    → AtOrAbove keyword_a keyword_b
    → AtOrAbove semantic_a semantic_b
    → LessEqual (rrf_score k keyword_b semantic_b) (rrf_score k keyword_a semantic_a)
unfolding rrf_score
rrf_score-LessEqual k ka sa kb sb h l =
    plus-LessEqual (summand k kb) (summand k ka) (summand k sb) (summand k sa)
      (summand-LessEqual k ka kb h) (summand-LessEqual k sa sb l)
