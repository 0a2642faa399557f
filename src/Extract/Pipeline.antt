-- ===== src/Extract/Pipeline.antt =====
-- module3-ai-worker/app/pipeline.py, with app/services/idempotency.py and the publishing part of
-- app/services/kafka_client.py: one message through the worker.
pub mod Laws
pub mod Safety
pub mod Dedup
pub mod Loop
use Prim.Native.String
use prompt_flow_ai.Prelude.{
  ℕ, String, Bool, true, false, not, ◌&&◌, Option, none, some, List, [], ◌∷◌, ◌++◌, str_eq, head_of,
  non_empty, if◌then◌else◌,
}
use prompt_flow_ai.Prelude.Text.{Text, codes, before, contains}
use prompt_flow_ai.Redis.{Redis, exists, setex}
use prompt_flow_ai.Kafka.{Record, Broker, Sent, returned, raised, produce, attempts}
use prompt_flow_ai.Extract.Schemas.{
  RoutingDecision, auto_save, review_required, block, PipelineStatus, extracted, FacultyStatus,
  not_found, ExtractionTier, EnrichedContext, ValidationIssue, OverallConfidence, Reason,
  RoutingDecisionBlock, Settings,
}
use prompt_flow_ai.Extract.Payload.{
  IngestedAttachment, IngestedPayload, RawValue, undecodable, malformed, fields, passes_validators,
}
use prompt_flow_ai.Extract.Routing.{compute_routing, is_invalid_status, is_block}
use prompt_flow_ai.Extract.Cascade.{
  Draft, Sources, Outcome, compute_confidence, run_extraction_cascade,
}
use prompt_flow_ai.Extract.Verification.{
  Store, VerificationResult, verify_integrity, text_hash_matches,
}
use prompt_flow_ai.Extract.Directory.{unresolved_faculty_id, unresolved, Reply, get_faculty}
use prompt_flow_ai.Extract.Event.{Ids, PaperExtractedV1, build}

-- What the worker sends: an event on a paper topic, or a wrapped message on the DLQ topic. The
-- wrapper of the source cuts the original payload at 2,000 characters.
pub data DlqReason : Type 0 where
  schema_validation_failed : DlqReason
  integrity_check_failed : Option Text → DlqReason
  kafka_produce_failed_all_retries : DlqReason

pub data Value : Type 0 where
  event : PaperExtractedV1 → Value
  dlq_message : RawValue → DlqReason → Value
  dlq_event : PaperExtractedV1 → DlqReason → Value

pub record State : Type 0 where
  pub redis : Redis
  pub broker : Broker Value

-- The key of a Kafka message: `None` or empty, bytes that are no UTF-8, or a text.
pub data RawKey : Type 0 where
  missing invalid : RawKey
  text : String → RawKey

-- What a run of `process_message` meets: the time, whether Redis answers the two calls, and the
-- answers of the other services.
pub record World : Type 0 where
  pub now : ℕ
  pub redis_answers_check : Bool
  pub redis_answers_mark : Bool
  pub store : Store
  pub directory : Text → List Reply
  pub sources : Sources
  pub ids : Ids
  pub worker_id : String

-- idempotency.py; the key is f"{_KEY_PREFIX}{idempotency_key}"
abbrev pub processed_key : String → String
processed_key key = String.◌++◌ "m3:processed:" key

unfoldable pub is_already_processed : World → String → State → Bool
is_already_processed w key s =
    if w.redis_answers_check then exists w.now (processed_key key) s.redis else false

unfoldable pub mark_as_processed : Settings → World → String → State → State
mark_as_processed c w key s =
    if w.redis_answers_mark
    then record s { redis = setex w.now (processed_key key) c.redis_processed_ttl_seconds s.redis }
    else s

-- publish_to_topic(…, max_retries=3)
unfoldable pub publish_to_topic : (topic : String) → Value → (key : String) → State → Sent × State
publish_to_topic topic payload key s =
    let (sent, b) = attempts 3 (record { topic = topic; key = key; value = payload }) s.broker in
    (sent, record s { broker = b })

-- publish_to_dlq: one attempt, and every exception is only logged
unfoldable pub publish_to_dlq : Settings → Value → (key : String) → State → State
publish_to_dlq c payload key s =
    let (_, b) =
      produce (record { topic = c.kafka_topic_dlq; key = key; value = payload }) s.broker in
    record s { broker = b }

abbrev issue_if : Bool → ValidationIssue → List ValidationIssue
issue_if true i = i ∷ []
issue_if false i = []

abbrev status_value : FacultyStatus → String
status_value FacultyStatus.active = "active"
status_value FacultyStatus.inactive = "inactive"
status_value not_found = "not_found"

infixr 60 ◌⊹◌
abbrev ◌⊹◌ : String → String → String
s ⊹ t = String.◌++◌ s t

-- `_build_validation_issues`
unfoldable pub build_validation_issues : IngestedPayload → EnrichedContext → List ValidationIssue
build_validation_issues p ctx =
    issue_if (not (non_empty p.content.attachments)) (record {
      code = "NO_ATTACHMENTS";
      message = "Email has no file attachments to process";
      action = "REVIEW_REQUIRED";
    })
    ++ issue_if (not p.security.pii_redacted) (record {
      code = "PII_NOT_REDACTED";
      message = "Security flag pii_redacted=False — cannot process";
      action = "BLOCK";
    })
    ++ issue_if (not p.security.source_domain_verified) (record {
      code = "DOMAIN_NOT_VERIFIED";
      message = "source_domain_verified=False";
      action = "BLOCK";
    })
    ++ issue_if (not (str_eq p.security.clamav_result "CLEAN")) (record {
      code = "MALWARE_FLAG";
      message = "ClamAV result: " ⊹ p.security.clamav_result;
      action = "BLOCK";
    })
    ++ issue_if (is_invalid_status ctx.faculty_status) (record {
      code = "FACULTY_INVALID";
      message = "Faculty '" ⊹ ctx.faculty_id ⊹ "' status='" ⊹ status_value ctx.faculty_status ⊹ "'";
      action = "BLOCK";
    })

-- step 3: the attachment's file and the text, or the text alone
unfoldable pub verify_payload : World → IngestedPayload → VerificationResult
verify_payload w p =
    let text_ok = text_hash_matches w.store p.content.raw_text p.content.raw_text_hash in
    elim (head_of p.content.attachments) [
      | some a ↦
          verify_integrity w.store p.content.raw_text p.content.raw_text_hash a.s3_bucket a.s3_key
            a.checksum_sha256
      | none ↦ record {
        passed = text_ok;
        file_hash_ok = true;
        text_hash_ok = text_ok;
        failure_reason = if text_ok then none else some (codes "text_hash_mismatch");
        file_bytes = none;
      }
    ]

-- step 4: the local part of the sender
unfoldable pub faculty_key : Text → Text
faculty_key sender = if contains (codes "@") sender then before 64 sender else sender

unfoldable pub context_of : Settings → World → IngestedPayload → EnrichedContext
unfolding faculty_key
context_of c w p = get_faculty c (w.directory (faculty_key p.email.sender))

abbrev empty_metadata : Draft
empty_metadata = record {
  title = none;
  authors = [];
  doi = none;
  year = none;
  venue = none;
  abstract = none;
  crossref_verified = false;
  tier_used = ExtractionTier.regex;
  authors_score = 0;
  title_score = 0;
  venue_year_score = 0;
}

-- `_build_failed_event`
unfoldable pub build_failed_event :
    Settings → World → (reason : String) → IngestedPayload → PaperExtractedV1
build_failed_event c w reason p =
    build w.ids p.email.idempotency_key empty_metadata (compute_confidence 0 0 0) unresolved
      (record {
        final_action = block;
        reasons = Reason.named reason ∷ [];
        target_topic = c.kafka_topic_dlq;
        confidence_threshold_used = c.default_confidence_threshold;
        overall_confidence = 0;
      })
      (record { code = "INTEGRITY_CHECK_FAILED"; message = reason; action = "BLOCK" } ∷ [])
      PipelineStatus.failed p.content.raw_text_hash p.content.attachments w.worker_id p.event_id

-- steps 4 to 7
unfoldable pub extraction_of : Settings → World → IngestedPayload → Outcome
extraction_of c w p = run_extraction_cascade c w.sources p.content.raw_text

unfoldable pub routing_of : Settings → World → IngestedPayload → RoutingDecisionBlock
unfolding context_of extraction_of
routing_of c w p =
    let ctx = context_of c w p in
    compute_routing c ctx (extraction_of c w p).confidence (build_validation_issues p ctx) none

-- step 8
unfoldable pub output_event : Settings → World → IngestedPayload → PaperExtractedV1
unfolding routing_of
output_event c w p =
    let ctx = context_of c w p in
    let o = extraction_of c w p in
    let routing = routing_of c w p in
    build w.ids p.email.idempotency_key o.metadata o.confidence ctx routing
      (build_validation_issues p ctx)
      (if is_block routing.final_action then PipelineStatus.blocked else extracted)
      p.content.raw_text_hash p.content.attachments w.worker_id p.event_id

-- `process_message` returns, or an exception leaves it.
pub data Ending : Type 0 where
  ended escaped : Ending

-- steps 9 and 10
finish : Settings → World → IngestedPayload → Sent × State → Ending × State
finish c w p (returned true, s) = (ended, mark_as_processed c w p.email.idempotency_key s)
finish c w p (returned false, s) = (
  ended,
  publish_to_dlq c (dlq_event (output_event c w p) kafka_produce_failed_all_retries)
      p.email.idempotency_key s,
)
finish c w p (raised, s) = (escaped, s)

unfoldable pub handle_verified : Settings → World → IngestedPayload → State → Ending × State
unfolding finish publish_to_topic
handle_verified c w p s = finish c w p (
    publish_to_topic (routing_of c w p).target_topic (event (output_event c w p))
      p.email.idempotency_key s)

unfoldable pub handle_payload : Settings → World → IngestedPayload → State → Ending × State
unfolding verify_payload handle_verified
handle_payload c w p s =
    let v = verify_payload w p in
    if v.passed then handle_verified c w p s else (
      ended,
      publish_to_dlq c
          (dlq_event (build_failed_event c w "INTEGRITY_CHECK_FAILED" p)
            (integrity_check_failed v.failure_reason))
          p.email.idempotency_key s,
    )

-- step 2; the key is the message's
unfoldable pub handle_value : Settings → World → RawValue → (key : String) → State → Ending × State
unfolding handle_payload publish_to_dlq
handle_value c w undecodable key s = (escaped, s)
handle_value c w malformed key s =
    (ended, publish_to_dlq c (dlq_message malformed schema_validation_failed) key s)
handle_value c w (fields p) key s =
    if passes_validators p
    then handle_payload c w p s
    else (ended, publish_to_dlq c (dlq_message (fields p) schema_validation_failed) key s)

abbrev pub decode_key : RawKey → Option String
decode_key missing = some "unknown"
decode_key invalid = none
decode_key (text k) = some k

unfoldable pub process_message : Settings → World → RawValue → RawKey → State → Ending × State
unfolding handle_value is_already_processed
process_message c w raw_value raw_key s = elim (decode_key raw_key) [
  | none ↦ (escaped, s)
  | some key ↦ if is_already_processed w key s then (ended, s) else handle_value c w raw_value key s
]
