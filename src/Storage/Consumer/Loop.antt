-- ===== src/Storage/Consumer/Loop.antt =====
-- The retried message and the loop of module4-storage/app/consumer.py.
use mathlib.Core.Path.{subst}
use prompt_flow_ai.Prelude.{
  ℕ, ◌≡◌, ◌∙◌, refl, sym, String, Bool, false, true, Option, some, List, [], ◌∷◌, length, inl, inr,
  contradiction,
}
use prompt_flow_ai.Prelude.Text.{codes}
use prompt_flow_ai.Redis.{exists}
use prompt_flow_ai.Storage.Schemas.{KafkaPayload}
use prompt_flow_ai.Storage.Consumer.{
  State, World, processed_key, Ending, returned, raised, attempt, retry, process_message, Poll,
  nothing, poll_error, message, Consumer, after_message, round, run_consumer,
}
use prompt_flow_ai.Storage.Consumer.Laws.{IsConsistent}
use prompt_flow_ai.Storage.Consumer.Attempt.{
  AddsRow, IsSound, fails, IsFound-papers, attempt-IsSound, attempt-IsConsistent,
}

-- A second run after a first one that raised.
followed :
    (w : World) (worlds : List World) (p : KafkaPayload) (topic : String) (s s1 : State)
    (r : Ending × State)
    → IsSound (w ∷ worlds) p topic s (raised, s1)
    → IsSound worlds p topic s1 r
    → IsSound (w ∷ worlds) p topic s r
followed w worlds p topic s s1 r a b = record {
  adds = elim a.adds [
    | inl e ↦ elim b.adds [
      | inl f ↦ inl (f ∙ e)
      | inr ((v, paper, row, m, made, built, c, x), found) ↦ inr (
        subst (λ rs. AddsRow (w ∷ worlds) p topic rs r.1.db.papers) e
            (v, paper, row, inr m, made, built, c, x),
        found,
      )
    ]
    | inr ((v, paper, row, m, made, built, c, e), found) ↦ inr (
      (v, paper, row, m, made, built, c, b.once found ∙ e),
      IsFound-papers p s1 r.1 (b.once found) found,
    )
  ];
  stored = λ done. elim (b.stored done) [
    | inl found ↦ inl found
    | inr (t, m) ↦
        inr (t, subst (λ x. exists t (processed_key p.idempotency_key) x ≡ true) (a.kept refl) m)
  ];
  once = λ h. b.once (IsFound-papers p s s1 (a.once h) h) ∙ a.once h;
  kept = λ e. b.kept e ∙ a.kept refl;
}

retry-IsSound :
    (worlds : List World) (p : KafkaPayload) (topic : String) (s : State)
    → length (codes p.idempotency_key) ≡ 64
    → IsSound worlds p topic s (retry worlds (some p) topic s)
unfolding retry
retry-IsSound [] p topic s long = fails [] p topic s
retry-IsSound (w ∷ worlds) p topic s long =
    go (λ s'. retry-IsSound worlds p topic s' long) (attempt w (some p) topic s)
      (attempt-IsSound w worlds p topic s long)
  where
    go :
        ((s' : State) → IsSound worlds p topic s' (retry worlds (some p) topic s'))
        → (r : Ending × State) → IsSound (w ∷ worlds) p topic s r
        → IsSound
            (w ∷ worlds)
            p
            topic
            s
            (elim r.0 [ returned ↦ (returned, r.1) | raised ↦ retry worlds (some p) topic r.1 ])
    go again (returned, s1) a = a
    go again (raised, s1) a = followed w worlds p topic s s1 _ a (again s1)

-- A message whose key has 64 characters, through its three attempts, whatever they meet, adds at
-- most one row to the papers, which holds what one of the attempts built from its payload and which
-- the payload's session then finds by the key; it adds none when the session finds one before. When
-- it returns, the session finds a row of the key, or Redis held the key as processed before; when it
-- raises, Redis is as it was.
pub process_message-IsSound :
    (first second third : World) (p : KafkaPayload) (topic : String) (s : State)
    → length (codes p.idempotency_key) ≡ 64
    → IsSound
        (first ∷ second ∷ third ∷ [])
        p
        topic
        s
        (process_message first second third (some p) topic s)
unfolding process_message
process_message-IsSound first second third p topic s long =
    retry-IsSound (first ∷ second ∷ third ∷ []) p topic s long

-- A payload with a key of 64 characters, which Redis did not hold as processed, is stored once: after
-- a run that returned, another delivery of it, on whatever topic and whatever its attempts meet,
-- adds no row.
pub stored_once :
    (v w x v' w' x' : World) (p : KafkaPayload) (topic topic' : String) (s : State)
    → length (codes p.idempotency_key) ≡ 64
    → ((t : ℕ) → exists t (processed_key p.idempotency_key) s.redis ≡ false)
    → (process_message v w x (some p) topic s).0 ≡ returned
    → let s' = (process_message v w x (some p) topic s).1 in
      (process_message v' w' x' (some p) topic' s').1.db.papers ≡ s'.db.papers
stored_once v w x v' w' x' p topic topic' s long is_new done =
    elim ((process_message-IsSound v w x p topic s long).stored done) [
      | inl found ↦ (process_message-IsSound v' w' x' p topic' _ long).once found
      | inr (t, m) ↦ absurd (contradiction m (is_new t))
    ]

retry-IsConsistent :
    (worlds : List World) (value : Option KafkaPayload) (topic : String) (s : State)
    → IsConsistent s
    → IsConsistent (retry worlds value topic s).1
unfolding retry
retry-IsConsistent [] value topic s i = i
retry-IsConsistent (w ∷ worlds) value topic s i =
    go (λ s' j. retry-IsConsistent worlds value topic s' j) (attempt w value topic s)
      (attempt-IsConsistent w value topic s i)
  where
    go :
        ((s' : State) → IsConsistent s' → IsConsistent (retry worlds value topic s').1)
        → (r : Ending × State) → IsConsistent r.1
        → IsConsistent
            (elim r.0 as (λ _. Ending × State) [
              | returned ↦ (returned, r.1)
              | raised ↦ retry worlds value topic r.1
            ]).1
    go again (returned, s1) a = a
    go again (raised, s1) a = again s1 a

after_message-state :
    (commit_works : Bool) (k : Consumer) (r : Ending × State)
    → (after_message commit_works k r).state ≡ r.1
unfolding after_message
after_message-state commit_works k (returned, s) = refl
after_message-state commit_works k (raised, s) = refl

round-IsConsistent :
    (poll : Poll) (k : Consumer) → IsConsistent k.state → IsConsistent (round poll k).state
unfolding round process_message
round-IsConsistent nothing k i = i
round-IsConsistent poll_error k i = i
round-IsConsistent (message v w x value topic commit_works) k i =
    subst IsConsistent (sym (after_message-state commit_works k _))
      (retry-IsConsistent (v ∷ w ∷ x ∷ []) value topic k.state i)

-- Whatever the consumer polls, in whatever order and with whatever failures, every key that Redis
-- holds as processed has its row in the papers, under the key itself or its stored form, if that was
-- so before.
pub run_consumer-IsConsistent :
    (polls : List Poll) (k : Consumer)
    → IsConsistent k.state
    → IsConsistent (run_consumer polls k).state
unfolding run_consumer
run_consumer-IsConsistent [] k i = i
run_consumer-IsConsistent (poll ∷ polls) k i =
    run_consumer-IsConsistent polls (round poll k) (round-IsConsistent poll k i)
