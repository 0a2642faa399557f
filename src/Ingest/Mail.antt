-- ===== src/Ingest/Mail.antt =====
-- module2-email-worker/app/services/email_parser.py: what `parse_email` returns;
-- app/utils/hashing.py and app/services/pii_redactor.py; and the settings that the worker reads.
use Prim.Native.String
use prompt_flow_ai.Prelude.{ℕ, String, Option, List, non_empty, if◌then◌else◌}
use prompt_flow_ai.Prelude.Text.{Text, Bytes, codes}
use prompt_flow_ai.Extract.Verification.{encode}

pub record Attachment : Type 0 where
  pub filename : String
  pub content_type : String
  pub raw_bytes : Bytes

pub record ParsedEmail : Type 0 where
  pub message_id : String
  pub in_reply_to : Option String
  pub references : Option String
  pub subject : String
  pub sender : Text
  pub recipients : List String
  pub body_text : Text
  pub attachments : List Attachment

pub record Settings : Type 0 where
  pub allowed_domain : String
  pub redis_dedup_ttl_seconds : ℕ
  pub kafka_topic_ingest : String
  pub kafka_topic_dlq : String
  pub kafka_max_retries : ℕ
  pub max_attachment_size_bytes : ℕ
  pub s3_ingestion_bucket : String

abbrev pub settings : Settings
settings = record {
  allowed_domain = "srmap.edu.in";
  redis_dedup_ttl_seconds = 604800;
  kafka_topic_ingest = "ingest.raw";
  kafka_topic_dlq = "dlq.ingestion.failed";
  kafka_max_retries = 3;
  max_attachment_size_bytes = 52428800;
  s3_ingestion_bucket = "promptflow-ingestion-dev";
}

-- hashing.py over a hexadecimal SHA-256, which is a parameter
unfoldable pub compute_file_checksum : (Bytes → String) → Bytes → String
compute_file_checksum sha256 file_bytes = sha256 file_bytes

unfoldable pub compute_text_hash : (Bytes → String) → Text → String
compute_text_hash sha256 redacted_text = sha256 (encode redacted_text)

unfoldable pub compute_idempotency_key :
    (Bytes → String) → (message_id primary_filename : String) → String
compute_idempotency_key sha256 message_id primary_filename =
    sha256 (encode (codes (String.◌++◌ message_id (String.◌++◌ ":" primary_filename))))

-- `pattern.subn(replacement, text)` of the three compiled patterns
pub record PiiPatterns : Type 0 where
  pub subn_email : Text → Text × ℕ
  pub subn_student_id : Text → Text × ℕ
  pub subn_phone : Text → Text × ℕ

pub record RedactionResult : Type 0 where
  pub redacted_text : Text
  pub phone_count : ℕ
  pub student_id_count : ℕ
  pub external_email_count : ℕ

unfoldable pub redact_pii : PiiPatterns → Text → RedactionResult
redact_pii p raw_text =
    let (text1, email_count) = p.subn_email raw_text in
    let (text2, student_id_count) = p.subn_student_id text1 in
    let (text3, phone_count) = p.subn_phone text2 in
    if non_empty raw_text
    then record {
      redacted_text = text3;
      phone_count = phone_count;
      student_id_count = student_id_count;
      external_email_count = email_count;
    }
    else record {
      redacted_text = raw_text;
      phone_count = 0;
      student_id_count = 0;
      external_email_count = 0;
    }
