-- ===== src/Extract/Pipeline/Laws.antt =====
-- What one message adds to Kafka.
use prompt_flow_ai.Prelude.{
  ◌≡◌, ◌⊎◌, refl, String, Bool, true, false, Option, none, some, List, [], ◌∷◌, ◌++◌, arith, inl,
  inr, Bool-cases, Option-cases,
}
use prompt_flow_ai.Kafka.{
  Attempt, delivered, undelivered, kafka_exception, other_exception, Record, Sent, produce,
  attempts, settled, attempts_lem, next_attempt, append_if, ending, settled_log,
}
use prompt_flow_ai.Extract.Schemas.{Settings}
use prompt_flow_ai.Extract.Payload.{
  IngestedPayload, RawValue, undecodable, malformed, fields, passes_validators,
}
use prompt_flow_ai.Extract.Routing.{topic_map}
use prompt_flow_ai.Extract.Routing.Laws.{compute_routing-eq-table}
use prompt_flow_ai.Extract.Pipeline.{
  Value, event, dlq_message, dlq_event, State, RawKey, World, mark_as_processed, publish_to_topic,
  publish_to_dlq, verify_payload, routing_of, output_event, finish, handle_verified, handle_payload,
  handle_value, decode_key, is_already_processed, process_message,
}

abbrev pub is_dlq : Value → Bool
is_dlq (event e) = false
is_dlq (dlq_message raw reason) = true
is_dlq (dlq_event e reason) = true

pub record IsDlq (c : Settings) (r : Record Value) : Type 0 where
  pub topic : r.topic ≡ c.kafka_topic_dlq
  pub wrapped : is_dlq r.value ≡ true

-- An event of a valid payload whose hashes match, on the topic of its decision, under its key.
pub record IsPublished (c : Settings) (w : World) (p : IngestedPayload) (r : Record Value)
    : Type 0 where
  pub valid : passes_validators p ≡ true
  pub intact : (verify_payload w p).passed ≡ true
  pub value : r.value ≡ event (output_event c w p)
  pub topic : r.topic ≡ topic_map c (routing_of c w p).final_action
  pub key : r.key ≡ p.email.idempotency_key

-- The log is as it was, or it has one more record, which is justified.
abbrev pub Grows : Settings → World → RawValue → List (Record Value) → List (Record Value) → Type 0
Grows c w raw log log' =
    (log' ≡ log)
    ⊎ ((r : Record Value) × (log' ≡ log ++ r ∷ [])
        × (IsDlq c r ⊎ ((p : IngestedPayload) × (raw ≡ fields p) × IsPublished c w p r)))

publish_to_dlq-Grows :
    (c : Settings) (w : World) (raw : RawValue) (v : Value) (key : String) (s : State)
    → is_dlq v ≡ true
    → Grows c w raw s.broker.log (publish_to_dlq c v key s).broker.log
unfolding publish_to_dlq produce
publish_to_dlq-Grows c w raw v key s h = go (next_attempt s.broker.schedule) refl
  where
    r : Record Value
    r = record { topic = c.kafka_topic_dlq; key = key; value = v }

    go :
        (a : Attempt)
        → next_attempt s.broker.schedule ≡ a
        → Grows c w raw s.broker.log (append_if (next_attempt s.broker.schedule) r s.broker.log)
    go delivered e = rw e (inr (r, refl, inl (record { topic = refl; wrapped = h })))
    go undelivered e = rw e (inl refl)
    go kafka_exception e = rw e (inl refl)
    go other_exception e = rw e (inl refl)

pub mark_as_processed-broker :
    (c : Settings) (w : World) (key : String) (s : State)
    → (mark_as_processed c w key s).broker ≡ s.broker
unfolding mark_as_processed
mark_as_processed-broker c w key s = ground arith

abbrev pub event_record : Settings → World → IngestedPayload → Record Value
event_record c w p = record {
  topic = (routing_of c w p).target_topic;
  key = p.email.idempotency_key;
  value = event (output_event c w p);
}

routing_topic :
    (c : Settings) (w : World) (p : IngestedPayload)
    → (routing_of c w p).target_topic ≡ topic_map c (routing_of c w p).final_action
unfolding routing_of
routing_topic c w p = (compute_routing-eq-table c _ _ _ none).1

module _ (c : Settings) (w : World) (p : IngestedPayload) (valid : passes_validators p ≡ true)
    (intact : (verify_payload w p).passed ≡ true) where
  finish-Grows :
      (o : Option Attempt) (sent : Sent) (log : List (Record Value)) (s' : State)
      → sent ≡ ending o
      → s'.broker.log ≡ settled_log o (event_record c w p) log
      → Grows c w (fields p) log (finish c w p (sent, s')).1.broker.log
  unfolding finish
  finish-Grows none sent log s' e l =
      rw e (rw (← l) (publish_to_dlq-Grows c w (fields p) _ _ s' refl))
  finish-Grows (some delivered) sent log s' e l = rw e (
      rw (mark_as_processed-broker c w p.email.idempotency_key s') (
        inr (
          event_record c w p,
          l,
          inr (
            p,
            refl,
            record {
              valid = valid;
              intact = intact;
              value = refl;
              topic = routing_topic c w p;
              key = refl;
            },
          ),
        )))
  finish-Grows (some undelivered) sent log s' e l =
      rw e (rw (mark_as_processed-broker c w p.email.idempotency_key s') (inl l))
  finish-Grows (some kafka_exception) sent log s' e l =
      rw e (rw (← l) (publish_to_dlq-Grows c w (fields p) _ _ s' refl))
  finish-Grows (some other_exception) sent log s' e l = rw e (inl l)

  handle_verified-Grows :
      (s : State) → Grows c w (fields p) s.broker.log (handle_verified c w p s).1.broker.log
  unfolding handle_verified publish_to_topic
  handle_verified-Grows s =
      let (e, l) = attempts_lem 3 (event_record c w p) s.broker in
      finish-Grows (settled 3 s.broker.schedule) (attempts 3 (event_record c w p) s.broker).0
        s.broker.log (record s { broker = (attempts 3 (event_record c w p) s.broker).1 }) e l

handle_payload-Grows :
    (c : Settings) (w : World) (p : IngestedPayload) (s : State)
    → passes_validators p ≡ true
    → Grows c w (fields p) s.broker.log (handle_payload c w p s).1.broker.log
unfolding handle_payload
handle_payload-Grows c w p s valid = elim (Bool-cases (verify_payload w p).passed) [
  | inl e ↦ rw e (handle_verified-Grows c w p valid e s)
  | inr e ↦ rw e (publish_to_dlq-Grows c w (fields p) _ _ s refl)
]

handle_value-Grows :
    (c : Settings) (w : World) (raw : RawValue) (key : String) (s : State)
    → Grows c w raw s.broker.log (handle_value c w raw key s).1.broker.log
unfolding handle_value
handle_value-Grows c w undecodable key s = inl refl
handle_value-Grows c w malformed key s = publish_to_dlq-Grows c w malformed _ _ s refl
handle_value-Grows c w (fields p) key s = elim (Bool-cases (passes_validators p)) [
  | inl e ↦ rw e (handle_payload-Grows c w p s e)
  | inr e ↦ rw e (publish_to_dlq-Grows c w (fields p) _ _ s refl)
]

-- One message adds at most one record to Kafka. A record that it adds is a wrapped message on the DLQ topic; or it is the
-- output event of a payload that passes the validators and whose hashes match, under the payload's key, on the topic
-- that the topic map gives for the event's decision.
pub process_message-Grows :
    (c : Settings) (w : World) (raw : RawValue) (key : RawKey) (s : State)
    → Grows c w raw s.broker.log (process_message c w raw key s).1.broker.log
unfolding process_message
process_message-Grows c w raw key s = elim (Option-cases (decode_key key)) [
  | inl e ↦ rw (e, process_message) (inl refl)
  | inr (k, e) ↦
      rw (e, process_message)
        (elim (Bool-cases (is_already_processed w k s)) [
          | inl d ↦ rw d (inl refl)
          | inr d ↦ rw d (handle_value-Grows c w raw k s)
        ])
]
