-- ===== src/Ingest/Worker.antt =====
-- `process_single_email` and `run_worker_loop` of module2-email-worker/app/worker.py, with
-- publish_event of app/services/kafka_producer.py and the two uploads of app/services/s3_uploader.py.
-- A call that the source lets raise ends the run with `raised`.
pub mod Email
use Prim.Native.String
use prompt_flow_ai.Prelude.{
  ℕ, suc, zero, ◌+◌, ◌>>=◌, String, Bool, true, false, not, ◌&&◌, Option, none, some, List, [], ◌∷◌,
  ◌++◌, ltb, length, str_eq, if◌then◌else◌,
}
use prompt_flow_ai.Prelude.Text.{Text, Bytes, strip}
use prompt_flow_ai.Redis.{Redis}
use prompt_flow_ai.Kafka.{Record, Broker, Sent, returned, raised, produce, attempts}
use prompt_flow_ai.Ingest.Mail.{
  Attachment, ParsedEmail, Settings, compute_file_checksum, compute_text_hash,
  compute_idempotency_key, PiiPatterns, redact_pii,
}
use prompt_flow_ai.Ingest.Domain.{validate_domain}
use prompt_flow_ai.Ingest.Dedup.{is_duplicate, mark_processed}
use prompt_flow_ai.Ingest.Scan.{Daemon, scan_bytes, requires_quarantine}
use prompt_flow_ai.Ingest.Event.{AttachmentInfo, PaperIngestedV1, construct}

pub data Value : Type 0 where
  event : PaperIngestedV1 → Value
  dlq_message : PaperIngestedV1 → Value

-- An object in a bucket. A later object under the same key replaces an earlier one.
pub record Object : Type 0 where
  pub s3_key : String
  pub body : Bytes

pub data Audit : Type 0 where
  email_domain_rejected attachment_quarantined email_ingested : (message_id : String) → Audit

pub record State : Type 0 where
  pub redis : Redis
  pub broker : Broker Value
  pub ingestion : List Object
  pub quarantine : List Object
  pub read : List String
  pub audit : List Audit

-- What one run meets: the time, the date in the keys, the SHA-256, whether Redis answers the two
-- calls and the two buckets take an object, the daemon's answer for a file, and the PII patterns.
-- How Gmail answers `mark_message_read`: it takes the label away, or raises an `HttpError`, which is
-- only logged, or another exception.
pub data Marking : Type 0 where
  unlabelled refused broken : Marking

pub record World : Type 0 where
  pub now : ℕ
  pub date_path : String
  pub sha256 : Bytes → String
  pub redis_answers_check : Bool
  pub redis_answers_mark : Bool
  pub bucket_takes : String → Bool
  pub daemon : Bytes → Daemon
  pub pii : PiiPatterns
  pub event_id : String
  pub worker_id : String
  pub marking : Marking

abbrev take_chars : ℕ → String → String
take_chars zero s = String.[]
take_chars (suc n) String.[] = String.[]
take_chars (suc n) (String.◌∷◌ c s) = String.◌∷◌ c (take_chars n s)

infixr 60 ◌⊹◌
abbrev ◌⊹◌ : String → String → String
s ⊹ t = String.◌++◌ s t

unfoldable pub object_key : World → (folder idempotency_key filename : String) → String
object_key w folder idempotency_key filename =
    folder ⊹ "/" ⊹ w.date_path ⊹ "/" ⊹ take_chars 8 idempotency_key ⊹ "/" ⊹ filename

-- `_publish_to_dlq`: one attempt, and every exception is only logged
unfoldable pub publish_to_dlq :
    Settings → PaperIngestedV1 → (idempotency_key : String) → State → State
publish_to_dlq c payload idempotency_key s =
    let (_, b) =
      produce
        (record { topic = c.kafka_topic_dlq; key = idempotency_key; value = dlq_message payload })
        s.broker in
    record s { broker = b }

-- The end of `publish_event`, by how its loop ended.
unfoldable pub after_attempts :
    Settings → PaperIngestedV1 → (idempotency_key : String) → Sent × State → Sent × State
unfolding publish_to_dlq
after_attempts c payload idempotency_key (returned true, s) = (returned true, s)
after_attempts c payload idempotency_key (returned false, s) =
    (returned false, publish_to_dlq c payload idempotency_key s)
after_attempts c payload idempotency_key (raised, s) = (raised, s)

unfoldable pub publish_event :
    Settings → PaperIngestedV1 → (idempotency_key : String) → State → Sent × State
unfolding after_attempts
publish_event c payload idempotency_key s =
    let (sent, b) =
      attempts c.kafka_max_retries
        (record { topic = c.kafka_topic_ingest; key = idempotency_key; value = event payload })
        s.broker in
    after_attempts c payload idempotency_key (sent, record s { broker = b })

-- How the loop over the attachments ends: with the infos, with `return False`, or with an exception.
pub data Uploads : Type 0 where
  uploaded : List AttachmentInfo → Uploads
  aborted : Uploads
  failed : Uploads

unfoldable pub attachment_info :
    Settings → World → (idempotency_key : String) → Attachment → AttachmentInfo
unfolding object_key compute_file_checksum
attachment_info c w idempotency_key a = record {
  filename = a.filename;
  content_type = a.content_type;
  size_bytes = length a.raw_bytes;
  checksum_sha256 = compute_file_checksum w.sha256 a.raw_bytes;
  s3_key = object_key w "attachments" idempotency_key a.filename;
  s3_bucket = c.s3_ingestion_bucket;
}

abbrev pub too_large : Settings → Attachment → Bool
too_large c a = ltb c.max_attachment_size_bytes (length a.raw_bytes)

abbrev pub add : AttachmentInfo → Uploads → Uploads
add i (uploaded is) = uploaded (i ∷ is)
add i aborted = aborted
add i failed = failed

-- `quarantine_file`, the audit line and `return False`
unfoldable pub quarantine_step :
    World → (message_id idempotency_key : String) → Attachment → State → Uploads × State
unfolding object_key
quarantine_step w message_id idempotency_key a s =
    let k = object_key w "quarantine" idempotency_key a.filename in
    if w.bucket_takes k
    then (
      aborted,
      record s {
        quarantine = record { s3_key = k; body = a.raw_bytes } ∷ s.quarantine;
        audit = s.audit ++ attachment_quarantined message_id ∷ [];
      },
    )
    else (failed, s)

unfoldable pub scan_and_upload :
    Settings
    → World
    → (message_id idempotency_key raw_text_hash : String) → List Attachment
    → State
    → Uploads × State
unfolding attachment_info quarantine_step compute_file_checksum
scan_and_upload c w message_id idempotency_key raw_text_hash [] s = (uploaded [], s)
scan_and_upload c w message_id idempotency_key raw_text_hash (a ∷ rest) s =
    let info = attachment_info c w idempotency_key a in
    let skipped = scan_and_upload c w message_id idempotency_key raw_text_hash rest s in
    let (later, s') = scan_and_upload c w message_id idempotency_key raw_text_hash rest (record s {
      ingestion = record { s3_key = info.s3_key; body = a.raw_bytes } ∷ s.ingestion;
    }) in
    if too_large c a
    then skipped
    else if str_eq (compute_file_checksum w.sha256 a.raw_bytes) raw_text_hash
    then (aborted, s)
    else if requires_quarantine (scan_bytes (w.daemon a.raw_bytes))
    then quarantine_step w message_id idempotency_key a s
    else if w.bucket_takes info.s3_key
    then (add info later, s')
    else (failed, s)
