-- ===== src/Kafka.antt =====
-- The Kafka producer that modules 2 and 3 call. `produce` only queues a message: `flush` waits for
-- the broker, and a failed delivery reaches the delivery callback alone, never the caller.
use prompt_flow_ai.Prelude.{
  ℕ, zero, suc, ◌≡◌, refl, String, Bool, true, false, Option, none, some, List, [], ◌∷◌, ◌++◌,
  arith,
}

-- What one `produce` with its `flush` meets.
pub data Attempt : Type 0 where
  delivered : Attempt
  undelivered : Attempt
  kafka_exception : Attempt
  other_exception : Attempt

pub record Record {ℓ} (V : Type ℓ) : Type ℓ where
  pub topic : String
  pub key : String
  pub value : V

-- The records that the broker holds, in order, and what the next attempts will meet; once the
-- schedule is used up every attempt is delivered.
pub record Broker {ℓ} (V : Type ℓ) : Type ℓ where
  pub log : List (Record V)
  pub schedule : List Attempt

abbrev pub next_attempt : List Attempt → Attempt
next_attempt [] = delivered
next_attempt (a ∷ rest) = a

abbrev pub rest_of : List Attempt → List Attempt
rest_of [] = []
rest_of (a ∷ rest) = rest

-- How a call of the retry loops ends: it returns a Boolean, or an exception leaves it.
pub data Sent : Type 0 where
  returned : Bool → Sent
  raised : Sent

module _ {ℓ} {V : Type ℓ} where
  abbrev pub append_if : Attempt → Record V → List (Record V) → List (Record V)
  append_if delivered r log = log ++ r ∷ []
  append_if undelivered r log = log
  append_if kafka_exception r log = log
  append_if other_exception r log = log

  -- `producer.produce(…); producer.flush(timeout=30)`
  unfoldable pub produce : Record V → Broker V → Attempt × Broker V
  produce r b =
      let a = next_attempt b.schedule in
      (a, record { log = append_if a r b.log; schedule = rest_of b.schedule })

  -- The loop `for attempt in range(1, max + 1)` of both publishers: only `KafkaException` is
  -- caught and tried again. The sleeps between attempts are left out.
  unfoldable pub attempts : ℕ → Record V → Broker V → Sent × Broker V
  unfolding produce
  attempts zero r b = (returned false, b)
  attempts (suc n) r b =
      let (a, b') = produce r b in
      let again = attempts n r b' in
      elim a [
        | delivered ↦ (returned true, b')
        | undelivered ↦ (returned true, b')
        | kafka_exception ↦ again
        | other_exception ↦ (raised, b')
      ]

-- The first of the next `n` attempts that is no `KafkaException`.
unfoldable pub settled : ℕ → List Attempt → Option Attempt
settled zero s = none
settled (suc n) s =
    let later = settled n (rest_of s) in
    elim (next_attempt s) [
      | delivered ↦ some delivered
      | undelivered ↦ some undelivered
      | kafka_exception ↦ later
      | other_exception ↦ some other_exception
    ]

-- How the loop ends, by the attempt that settled it.
abbrev pub ending : Option Attempt → Sent
ending none = returned false
ending (some delivered) = returned true
ending (some undelivered) = returned true
ending (some kafka_exception) = returned false
ending (some other_exception) = raised

abbrev pub settled_log {ℓ} :
    {V : Type ℓ} → Option Attempt → Record V → List (Record V) → List (Record V)
settled_log none r log = log
settled_log (some a) r log = append_if a r log

pub attempts_lem {ℓ} :
    {V : Type ℓ} (n : ℕ) (r : Record V) (b : Broker V)
    → ((attempts n r b).0 ≡ ending (settled n b.schedule))
      × ((attempts n r b).1.log ≡ settled_log (settled n b.schedule) r b.log)
unfolding attempts settled
attempts_lem zero r b = (refl, refl)
attempts_lem (suc n) r b = ground (arith, attempts_lem n r (produce r b).1)
