-- ===== src/Extract/Pipeline/Dedup.antt =====
-- Messages that were already processed, and messages that are lost.
use prompt_flow_ai.Prelude.{◌+◌, ◌<◌, ◌≡◌, String, true, false, some, arith, eq_refl, ap, ◌∙◌}
use prompt_flow_ai.Redis.{exists-setex}
use prompt_flow_ai.Kafka.{undelivered, Sent, returned, attempts, settled, attempts_lem, ending}
use prompt_flow_ai.Extract.Schemas.{Settings}
use prompt_flow_ai.Extract.Payload.{IngestedPayload, RawValue, fields, passes_validators}
use prompt_flow_ai.Extract.Pipeline.Laws.{event_record, mark_as_processed-broker}
use prompt_flow_ai.Extract.Pipeline.{
  State, text, World, mark_as_processed, publish_to_topic, verify_payload, ended, finish,
  handle_verified, handle_payload, handle_value, is_already_processed, process_message,
}

skips_processed :
    (c : Settings) (w : World) (raw : RawValue) (key : String) (s : State)
    → is_already_processed w key s ≡ true
    → process_message c w raw (text key) s ≡ (ended, s)
unfolding process_message
skips_processed c w raw key s h = rw h

marked :
    (c : Settings) (w w' : World) (key : String) (s : State)
    → w.redis_answers_mark ≡ true
    → w'.redis_answers_check ≡ true
    → w'.now < w.now + c.redis_processed_ttl_seconds
    → is_already_processed w' key (mark_as_processed c w key s) ≡ true
unfolding is_already_processed mark_as_processed
marked c w w' key s m k t = rw (m, k) (rw exists-setex (rw eq_refl (ground arith)))

-- What a fresh, valid and intact message becomes.
process_fresh :
    (c : Settings) (w : World) (p : IngestedPayload) (s : State)
    → is_already_processed w p.email.idempotency_key s ≡ false
    → passes_validators p ≡ true
    → (verify_payload w p).passed ≡ true
    → process_message c w (fields p) (text p.email.idempotency_key) s ≡ handle_verified c w p s
unfolding process_message handle_value handle_payload
process_fresh c w p s new valid intact = rw new (rw valid (rw intact))

sent_is_marked :
    (c : Settings) (w : World) (p : IngestedPayload) (s : State) (r : Sent × State)
    → r.0 ≡ returned true
    → finish c w p r ≡ (ended, mark_as_processed c w p.email.idempotency_key r.1)
unfolding finish
sent_is_marked c w p s (sent, s') e = rw e

handle_sent :
    (c : Settings) (w : World) (p : IngestedPayload) (s : State)
    → ending (settled 3 s.broker.schedule) ≡ returned true
    → handle_verified c w p s ≡ (
      ended,
      mark_as_processed c w p.email.idempotency_key
          (record s { broker = (attempts 3 (event_record c w p) s.broker).1 }),
    )
unfolding handle_verified publish_to_topic
handle_sent c w p s e =
    sent_is_marked c w p s _ ((attempts_lem 3 (event_record c w p) s.broker).0 ∙ e)

-- A valid and intact message that is new and whose publishing returned true is processed once: while its mark has not
-- expired, any later message under the same key, with Redis answering, changes nothing.
pub processed_once :
    (c : Settings) (w w' : World) (p : IngestedPayload) (raw : RawValue) (s : State)
    → is_already_processed w p.email.idempotency_key s ≡ false
    → passes_validators p ≡ true
    → (verify_payload w p).passed ≡ true
    → ending (settled 3 s.broker.schedule) ≡ returned true
    → w.redis_answers_mark ≡ true
    → w'.redis_answers_check ≡ true
    → w'.now < w.now + c.redis_processed_ttl_seconds
    → let s' = (process_message c w (fields p) (text p.email.idempotency_key) s).1 in
      process_message c w' raw (text p.email.idempotency_key) s' ≡ (ended, s')
processed_once c w w' p raw s new valid intact sent m k t =
    rw (process_fresh c w p s new valid intact) (
      rw (handle_sent c w p s sent) (
        skips_processed c w' raw p.email.idempotency_key _
          (marked c w w' p.email.idempotency_key _ m k t)))

-- When the broker never stores the event although `produce` and `flush` return, the worker adds no record to Kafka, and
-- its mark makes it skip every later message under the same key until the mark expires: the paper is lost.
pub undelivered_is_lost :
    (c : Settings) (w w' : World) (p : IngestedPayload) (raw : RawValue) (s : State)
    → is_already_processed w p.email.idempotency_key s ≡ false
    → passes_validators p ≡ true
    → (verify_payload w p).passed ≡ true
    → settled 3 s.broker.schedule ≡ some undelivered
    → w.redis_answers_mark ≡ true
    → w'.redis_answers_check ≡ true
    → w'.now < w.now + c.redis_processed_ttl_seconds
    → let s' = (process_message c w (fields p) (text p.email.idempotency_key) s).1 in
      (s'.broker.log ≡ s.broker.log)
      × (process_message c w' raw (text p.email.idempotency_key) s' ≡ (ended, s'))
undelivered_is_lost c w w' p raw s new valid intact un m k t = (
  rw (process_fresh c w p s new valid intact) (
      rw (handle_sent c w p s (ap ending un)) (
        rw mark_as_processed-broker
          (rw ((attempts_lem 3 (event_record c w p) s.broker).1) (rw un)))),
  processed_once c w w' p raw s new valid intact (ap ending un) m k t,
)
