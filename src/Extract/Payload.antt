-- ===== src/Extract/Payload.antt =====
-- module3-ai-worker/app/models/schemas.py: the message that the worker consumes and its
-- validators. Parsing JSON into typed fields is Pydantic's: `RawValue` is what it answers.
use prompt_flow_ai.Prelude.{ℕ, String, Bool, ◌&&◌, List, leb, length, str_eq}
use prompt_flow_ai.Prelude.Text.{Text}

pub record IngestedAttachment : Type 0 where
  pub filename : String
  pub content_type : String
  pub size_bytes : ℕ
  pub checksum_sha256 : String
  pub s3_key : String
  pub s3_bucket : String

pub record IngestedEmail : Type 0 where
  pub message_id : String
  pub subject : String
  pub sender : Text
  pub recipients : List String
  pub received_at : ℕ
  pub idempotency_key : String

pub record IngestedContent : Type 0 where
  pub raw_text : Text
  pub raw_text_hash : String
  pub attachments : List IngestedAttachment

pub record IngestedSecurity : Type 0 where
  pub pii_redacted : Bool
  pub source_domain_verified : Bool
  pub clamav_scanned : Bool
  pub clamav_result : String

pub record IngestedPayload : Type 0 where
  pub event_id : String
  pub contract_version : String
  pub pipeline_status : String
  pub created_at : ℕ
  pub email : IngestedEmail
  pub content : IngestedContent
  pub security : IngestedSecurity

-- `undecodable`: bytes that `decode("utf-8")` refuses. `malformed`: no JSON, or a field that is
-- missing or of another type.
pub data RawValue : Type 0 where
  undecodable malformed : RawValue
  fields : IngestedPayload → RawValue

-- `must_be_v1`, `must_be_ingested`, and `min_length=50` of `raw_text`
unfoldable pub passes_validators : IngestedPayload → Bool
passes_validators p =
    str_eq p.contract_version "v1"
    && str_eq p.pipeline_status "ingested"
    && leb 50 (length p.content.raw_text)
