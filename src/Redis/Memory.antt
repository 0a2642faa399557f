-- ===== src/Redis/Memory.antt =====
-- A Redis server held in memory, for runs at concrete inputs.
use prompt_flow_ai.Prelude.{
  ℕ, ◌+◌, refl, String, Bool, false, List, [], ◌∷◌, ltb, str_eq, if◌then◌else◌,
}
use prompt_flow_ai.Redis.{Command, set_with_ttl, del, Service}

abbrev answer : ℕ → String → List Command → Bool
answer t j [] = false
answer t j (set_with_ttl now k ttl ∷ h) =
    let older = answer t j h in if str_eq k j then ltb t (now + ttl) else older
answer t j (del k ∷ h) = let older = answer t j h in if str_eq k j then false else older

abbrev pub memory : Service
memory = record {
  answer = answer;
  answer-nil = λ now k. refl;
  answer-setex = λ t now ttl k j h. refl;
  answer-del = λ t k j h. refl;
}
