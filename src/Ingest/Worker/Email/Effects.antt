-- ===== src/Ingest/Worker/Email/Effects.antt =====
-- What one email adds to Kafka, and when its keys are set in Redis.
use prompt_flow_ai.Prelude.{
  ◌≡◌, ◌⊎◌, refl, ap, ◌∙◌, String, Option, none, some, List, [], ◌∷◌, ◌++◌, arith, inl, inr,
}
use prompt_flow_ai.Kafka.{
  Attempt, delivered, undelivered, kafka_exception, other_exception, Record, Sent, produce,
  attempts, settled, attempts_lem, next_attempt, append_if, ending, settled_log,
}
use prompt_flow_ai.Ingest.Mail.{ParsedEmail, Settings}
use prompt_flow_ai.Ingest.Event.{PaperIngestedV1}
use prompt_flow_ai.Ingest.Worker.{
  Value, event, dlq_message, State, World, publish_event, publish_to_dlq, after_attempts,
}
use prompt_flow_ai.Ingest.Worker.Email.{
  key_of, finish, after_publish, publish_stage, process_single_email,
}
use prompt_flow_ai.Ingest.Worker.Email.Laws.{
  IsIngested, quiet, published, process_single_email-Result,
}

-- A record that an event may become.
pub record IsRecordOf (c : Settings) (key : String) (e : PaperIngestedV1) (r : Record Value)
    : Type 0 where
  pub key_is : r.key ≡ key
  pub content :
      ((r.topic ≡ c.kafka_topic_ingest) × (r.value ≡ event e))
      ⊎ ((r.topic ≡ c.kafka_topic_dlq) × (r.value ≡ dlq_message e))

abbrev pub Grows :
    Settings → String → PaperIngestedV1 → List (Record Value) → List (Record Value) → Type 0
Grows c key e log log' =
    (log' ≡ log) ⊎ ((r : Record Value) × (log' ≡ log ++ r ∷ []) × IsRecordOf c key e r)

abbrev event_record : Settings → World → ParsedEmail → PaperIngestedV1 → Record Value
event_record c w p e = record { topic = c.kafka_topic_ingest; key = key_of w p; value = event e }

abbrev dlq_record : Settings → World → ParsedEmail → PaperIngestedV1 → Record Value
dlq_record c w p e = record { topic = c.kafka_topic_dlq; key = key_of w p; value = dlq_message e }

event_is :
    (c : Settings) (w : World) (p : ParsedEmail) (e : PaperIngestedV1)
    → IsRecordOf c (key_of w p) e (event_record c w p e)
event_is c w p e = record { key_is = refl; content = inl (refl, refl) }

finish-broker :
    (c : Settings) (w : World) (raw_id : String) (p : ParsedEmail) (s : State)
    → (finish c w raw_id p s).1.broker ≡ s.broker
unfolding finish
finish-broker c w raw_id p s = ground arith

dlq-Grows :
    (c : Settings) (w : World) (p : ParsedEmail) (e : PaperIngestedV1) (s : State)
    → Grows c (key_of w p) e s.broker.log (publish_to_dlq c e (key_of w p) s).broker.log
unfolding produce publish_to_dlq
dlq-Grows c w p e s = go (next_attempt s.broker.schedule)
  where
    go :
        (a : Attempt)
        → Grows c (key_of w p) e s.broker.log (append_if a (dlq_record c w p e) s.broker.log)
    go delivered =
        inr (dlq_record c w p e, refl, record { key_is = refl; content = inr (refl, refl) })
    go undelivered = inl refl
    go kafka_exception = inl refl
    go other_exception = inl refl

module _ (c : Settings) (w : World) (raw_id : String) (p : ParsedEmail) (e : PaperIngestedV1) where
  -- The run after its `attempts`.
  ends : Sent × State → Sent × State
  ends r = after_publish c w raw_id p (after_attempts c e (key_of w p) r)

  ends-Grows :
      (o : Option Attempt) (sent : Sent) (log : List (Record Value)) (s : State)
      → sent ≡ ending o
      → s.broker.log ≡ settled_log o (event_record c w p e) log
      → Grows c (key_of w p) e log (ends (sent, s)).1.broker.log
  unfolding ends after_publish after_attempts
  ends-Grows none sent log s q l = rw q (rw (← l) (dlq-Grows c w p e s))
  ends-Grows (some delivered) sent log s q l =
      rw q (rw (finish-broker c w raw_id p s) (inr (event_record c w p e, l, event_is c w p e)))
  ends-Grows (some undelivered) sent log s q l = rw q (rw (finish-broker c w raw_id p s) (inl l))
  ends-Grows (some kafka_exception) sent log s q l = rw q (rw (← l) (dlq-Grows c w p e s))
  ends-Grows (some other_exception) sent log s q l = rw q (inl l)

  publish_stage-Grows :
      (s : State)
      → Grows c (key_of w p) e s.broker.log (publish_stage c w raw_id p e s).1.broker.log
  unfolding publish_stage publish_event ends
  publish_stage-Grows s =
      let (q, l) = attempts_lem c.kafka_max_retries (event_record c w p e) s.broker in
      ends-Grows (settled c.kafka_max_retries s.broker.schedule)
        (attempts c.kafka_max_retries (event_record c w p e) s.broker).0 s.broker.log
        (record s { broker = (attempts c.kafka_max_retries (event_record c w p e) s.broker).1 }) q l

-- One email adds at most one record to Kafka. What it adds is an event, or that event wrapped for the DLQ, under the
-- email's key; the sender is in the domain, the email was new, its redacted text is long enough, every attachment within
-- the size limit passed the scan, and the event lists exactly these attachments.
pub process_single_email-Grows :
    (c : Settings) (w : World) (raw_id : String) (p : ParsedEmail) (s : State)
    → let log' = (process_single_email c w raw_id (some p) s).1.broker.log in
      (log' ≡ s.broker.log)
      ⊎ ((e : PaperIngestedV1) × (r : Record Value) × (log' ≡ s.broker.log ++ r ∷ [])
          × IsRecordOf c (key_of w p) e r
          × IsIngested c w p s e)
process_single_email-Grows c w raw_id p s = elim (process_single_email-Result c w raw_id p s) [
  | quiet _ _ b ↦ inl (ap (λ b. b.log) b)
  | published e i s1 q same ↦ elim (publish_stage-Grows c w raw_id p e s1) [
    | inl g ↦ inl (ap (λ r. r.1.broker.log) same ∙ g ∙ ap (λ b. b.log) q.broker)
    | inr (r, g, is) ↦
        inr (e, r, ap (λ r. r.1.broker.log) same ∙ g ∙ ap (λ b. b.log ++ r ∷ []) q.broker, is, i)
  ]
]
