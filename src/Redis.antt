-- ===== src/Redis.antt =====
-- The Redis commands that the modules call: keys with an expiry time, in seconds. The server is a
-- parameter: a `Service` answers EXISTS from the commands that it has been given, the latest first,
-- by the documented behaviour of SETEX, EXISTS and DEL.
pub mod Memory
use prompt_flow_ai.Prelude.{
  ℕ, ◌+◌, ◌≡◌, String, Bool, true, false, List, [], ◌∷◌, ltb, str_eq, if◌then◌else◌,
}

pub data Command : Type 0 where
  set_with_ttl : (now : ℕ) (key : String) (ttl : ℕ) → Command
  del : (key : String) → Command

pub record Service : Type 0 where
  pub answer : ℕ → String → List Command → Bool
  pub answer-nil : (now : ℕ) (k : String) → answer now k [] ≡ false
  pub answer-setex :
      (t now ttl : ℕ) (k j : String) (h : List Command)
      → answer t j (set_with_ttl now k ttl ∷ h)
        ≡ (if str_eq k j then ltb t (now + ttl) else answer t j h)
  pub answer-del :
      (t : ℕ) (k j : String) (h : List Command)
      → answer t j (del k ∷ h) ≡ (if str_eq k j then false else answer t j h)

pub record Redis : Type 0 where
  pub service : Service
  pub history : List Command

abbrev pub empty : Service → Redis
empty service = record { service = service; history = [] }

-- EXISTS at a time
unfoldable pub exists : ℕ → String → Redis → Bool
exists now k r = r.service.answer now k r.history

-- SETEX at a time
unfoldable pub setex : ℕ → String → ℕ → Redis → Redis
setex now k ttl r = record r { history = set_with_ttl now k ttl ∷ r.history }

-- DEL
unfoldable pub delete : String → Redis → Redis
delete k r = record r { history = del k ∷ r.history }

pub exists-empty : (service : Service) (now : ℕ) (k : String) → exists now k (empty service) ≡ false
unfolding exists
exists-empty service now k = service.answer-nil now k

pub exists-setex :
    (t now ttl : ℕ) (k j : String) (r : Redis)
    → exists t j (setex now k ttl r) ≡ (if str_eq k j then ltb t (now + ttl) else exists t j r)
unfolding exists setex
exists-setex t now ttl k j r = r.service.answer-setex t now ttl k j r.history

pub exists-delete :
    (t : ℕ) (k j : String) (r : Redis)
    → exists t j (delete k r) ≡ (if str_eq k j then false else exists t j r)
unfolding exists delete
exists-delete t k j r = r.service.answer-del t k j r.history

pub ruleset redis_laws = (exists-empty, exists-setex, exists-delete)
