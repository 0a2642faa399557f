-- ===== src/Extract/Pipeline/Loop.antt =====
-- `run_worker_loop` of module3-ai-worker/app/pipeline.py: the messages that the consumer polls, in
-- order. An offset is committed whether `process_message` returns or raises.
use prompt_flow_ai.Prelude.{
  ℕ, ◌+◌, ◌≡◌, ◌⊎◌, refl, sym, ap, ◌∙◌, List, [], ◌∷◌, ◌++◌, arith, inl, inr, All, All-append,
  All-weaken,
}
use mathlib.Core.List.{append-nil, append_assoc}
use prompt_flow_ai.Kafka.{Record}
use prompt_flow_ai.Extract.Schemas.{Settings}
use prompt_flow_ai.Extract.Payload.{IngestedPayload, RawValue, undecodable, fields}
use prompt_flow_ai.Extract.Pipeline.{Value, State, RawKey, World, handle_value, process_message}
use prompt_flow_ai.Extract.Pipeline.Laws.{IsDlq, IsPublished, process_message-Grows}

pub data Poll : Type 0 where
  nothing partition_eof poll_error : Poll
  message : World → RawValue → RawKey → Poll

pub record Worker : Type 0 where
  pub state : State
  pub committed : ℕ

-- one round of the loop
unfoldable pub round : Settings → Poll → Worker → Worker
round c nothing k = k
round c partition_eof k = k
round c poll_error k = k
round c (message w raw key) k = record {
  state = (process_message c w raw key k.state).1;
  committed = k.committed + 1;
}

unfoldable pub run_worker_loop : Settings → List Poll → Worker → Worker
unfolding round
run_worker_loop c [] k = k
run_worker_loop c (poll ∷ polls) k = run_worker_loop c polls (round c poll k)

-- A poll is among the polls.
abbrev pub IsPolled : Poll → List Poll → Type 0
IsPolled p [] = ⊥
IsPolled p (q ∷ polls) = (q ≡ p) ⊎ IsPolled p polls

-- A record for the DLQ, or the event of a message that was polled, checked in the world it met.
abbrev pub IsJustified : Settings → List Poll → Record Value → Type 0
IsJustified c polls r =
    IsDlq c r
    ⊎ ((w : World) × (key : RawKey) × (p : IngestedPayload) × IsPolled (message w (fields p) key)
          polls
        × IsPublished c w p r)

-- The log with records added that the polls justify.
abbrev pub Adds : Settings → List Poll → List (Record Value) → List (Record Value) → Type 0
Adds c polls log log' =
    (added : List (Record Value)) × (log' ≡ log ++ added) × All (IsJustified c polls) added

unchanged_log :
    (c : Settings) (polls : List Poll) (log : List (Record Value)) → Adds c polls log log
unchanged_log c polls log = ([], sym (append-nil log), tt)

round-Adds :
    (c : Settings) (poll : Poll) (polls : List Poll) (k : Worker)
    → Adds c (poll ∷ polls) k.state.broker.log (round c poll k).state.broker.log
unfolding round
round-Adds c nothing polls k = unchanged_log c (nothing ∷ polls) k.state.broker.log
round-Adds c partition_eof polls k = unchanged_log c (partition_eof ∷ polls) k.state.broker.log
round-Adds c poll_error polls k = unchanged_log c (poll_error ∷ polls) k.state.broker.log
round-Adds c (message w raw key) polls k = elim (process_message-Grows c w raw key k.state) [
  | inl e ↦ ([], e ∙ sym (append-nil k.state.broker.log), tt)
  | inr (r, e, inl d) ↦ (r ∷ [], e, (inl d, tt))
  | inr (r, e, inr (p, same, q)) ↦
      (r ∷ [], e, (inr (w, key, p, inl (ap (λ v. message w v key) same), q), tt))
]

later :
    (c : Settings) (poll : Poll) (polls : List Poll) (r : Record Value)
    → IsJustified c polls r
    → IsJustified c (poll ∷ polls) r
later c poll polls r (inl d) = inl d
later c poll polls r (inr (w, key, p, m, q)) = inr (w, key, p, inr m, q)

-- Whatever the worker polls, in whatever order and with whatever failures, Kafka only gets records
-- added. Each is a wrapped message on the DLQ topic; or the event of a payload that was polled,
-- that passes the validators and whose hashes match in the world of that poll, under the payload's
-- key, on the topic of its decision.
pub run_worker_loop-IsJustified :
    (c : Settings) (polls : List Poll) (k : Worker)
    → Adds c polls k.state.broker.log (run_worker_loop c polls k).state.broker.log
unfolding run_worker_loop
run_worker_loop-IsJustified c [] k = unchanged_log c [] k.state.broker.log
run_worker_loop-IsJustified c (poll ∷ polls) k =
    let (xs, e, h) = round-Adds c poll polls k in
    let (ys, f, j) = run_worker_loop-IsJustified c polls (round c poll k) in
    (
      xs ++ ys,
      f ∙ ap (λ log. log ++ ys) e ∙ append_assoc k.state.broker.log xs ys,
      All-append (IsJustified c (poll ∷ polls)) xs ys h (All-weaken _ _ ys (later c poll polls) j),
    )

undecodable-state :
    (c : Settings) (w : World) (key : RawKey) (s : State)
    → (process_message c w undecodable key s).1 ≡ s
unfolding process_message handle_value
undecodable-state c w key s = ground arith

-- A message whose value is no UTF-8 is committed and leaves nothing behind, on the DLQ or elsewhere, whatever its key.
pub undecodable_is_dropped :
    (c : Settings) (w : World) (key : RawKey) (k : Worker)
    → ((round c (message w undecodable key) k).state ≡ k.state)
      × ((round c (message w undecodable key) k).committed ≡ k.committed + 1)
unfolding round
undecodable_is_dropped c w key k = (undecodable-state c w key k.state, refl)
