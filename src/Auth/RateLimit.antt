-- ===== src/Auth/RateLimit.antt =====
-- module1-auth/app/middleware/ratelimit.py: the sliding window of the sign-in endpoints. The sorted
-- set of a key is kept as its scores, without repetition: a member is its own score's text. Times and the window count the same ticks of
-- the clock.
pub mod Scores
pub mod Window
use prompt_flow_ai.Prelude.{
  ℕ, ◌+◌, ◌-◌, ◌≡◌, refl, sym, String, Bool, true, false, not, ◌||◌, Option, none, some, List, [],
  ◌∷◌, any, length, ltb, leb, ◌==◌, str_eq, if◌then◌else◌,
}

abbrev pub auth_paths : List String
auth_paths = "/auth/login" ∷ "/auth/callback" ∷ "/auth/m2m/token" ∷ []

pub record Settings : Type 0 where
  pub rate_limit_attempts : ℕ
  pub rate_limit_window_seconds : ℕ

abbrev pub settings : Settings
settings = record { rate_limit_attempts = 5; rate_limit_window_seconds = 60 }

-- ZREMRANGEBYSCORE from 0 to `now` less the width of the window
unfoldable pub zremrangebyscore : (width now : ℕ) → List ℕ → List ℕ
zremrangebyscore width now [] = []
zremrangebyscore width now (t ∷ ts) =
    let rest = zremrangebyscore width now ts in if leb (t + width) now then rest else t ∷ rest

-- ZADD of a member whose score is itself
unfoldable pub zadd : ℕ → List ℕ → List ℕ
zadd now ts = if any (λ t. t == now) ts then ts else now ∷ ts

-- EXPIRE with a time to live: the set is gone once no command has touched it for so long.
pub record SortedSet : Type 0 where
  pub scores : List ℕ
  pub expires : ℕ

abbrev pub no_set : SortedSet
no_set = record { scores = []; expires = 0 }

-- What a command finds at a time.
unfoldable pub live : ℕ → SortedSet → List ℕ
live now z = if ltb now z.expires then z.scores else []

pub data Verdict : Type 0 where
  too_many_attempts : (retry_after : ℕ) → Verdict
  passed : (remaining : Option ℕ) → Verdict

-- The pipeline of commands on the key, at `now`.
unfoldable pub record_attempt : Settings → (now : ℕ) → SortedSet → SortedSet
unfolding zremrangebyscore zadd live
record_attempt c now z = record {
  scores = zadd now (zremrangebyscore c.rate_limit_window_seconds now (live now z));
  expires = now + c.rate_limit_window_seconds;
}

abbrev pub Store : Type 0
Store = String → String → SortedSet

-- The store with the set of one address and path replaced.
unfoldable pub put : String → String → SortedSet → Store → Store
put ip path z s i p = if str_eq i ip then (if str_eq p path then z else s i p) else s i p

abbrev client_host : Option String → String
client_host none = "unknown"
client_host (some host) = host

-- `dispatch`: what the middleware does before and after the endpoint.
unfoldable pub dispatch :
    Settings → (now : ℕ) → Option String → (path : String) → Store → Verdict × Store
unfolding put record_attempt
dispatch c now client path s =
    if any (λ p. str_eq path p) auth_paths
    then (let z = record_attempt c now (s (client_host client) path) in
        let attempt_count = length z.scores in
        (
          if ltb c.rate_limit_attempts attempt_count
              then too_many_attempts c.rate_limit_window_seconds
              else passed (some (c.rate_limit_attempts - attempt_count)),
          put (client_host client) path z s,
        ))
    else (passed none, s)
