-- ===== src/Ingest/Event.antt =====
-- module2-email-worker/app/models/events.py: the event `paper.ingested.v1` and its validators. A
-- validator that raises is `none`. Times are seconds.
use prompt_flow_ai.Prelude.{
  ℕ, ◌+◌, ◌>>=◌, String, Bool, not, ◌&&◌, Option, none, some, List, any, leb, length, non_empty,
  str_eq, if◌then◌else◌,
}
use prompt_flow_ai.Prelude.Text.{Text, strip}
use prompt_flow_ai.Ingest.Domain.{sender_must_be_srmap}

pub record EmailMetadata : Type 0 where
  pub message_id : String
  pub thread_id : Option String
  pub subject : String
  pub sender : Text
  pub recipients : List String
  pub received_at : ℕ
  pub idempotency_key : String

pub record AttachmentInfo : Type 0 where
  pub filename : String
  pub content_type : String
  pub size_bytes : ℕ
  pub checksum_sha256 : String
  pub s3_key : String
  pub s3_bucket : String

pub record ContentBlock : Type 0 where
  pub raw_text : Text
  pub raw_text_hash : String
  pub language : String
  pub attachments : List AttachmentInfo

-- An attempt of `attempts: List[dict]` is its JSON text.
pub record ProcessingBlock : Type 0 where
  pub attempts : List String
  pub worker_id : String
  pub processed_at : ℕ

pub record SecurityBlock : Type 0 where
  pub pii_redacted : Bool
  pub source_domain_verified : Bool
  pub clamav_scanned : Bool
  pub clamav_result : String

pub record PaperIngestedV1 : Type 0 where
  pub event_id : String
  pub contract_version : String
  pub pipeline_status : String
  pub created_at : ℕ
  pub email : EmailMetadata
  pub content : ContentBlock
  pub processing : ProcessingBlock
  pub security : SecurityBlock

abbrev pub guarded {ℓ} : {A : Type ℓ} → Bool → A → Option A
guarded ok a = if ok then some a else none

unfoldable pub validate_email : (now : ℕ) → EmailMetadata → Option EmailMetadata
validate_email now m = guarded (sender_must_be_srmap m.sender && leb m.received_at (now + 300)) m

-- `min_length=50` sees the text as it is given, the validator the stripped one, which it stores
unfoldable pub validate_content : ContentBlock → Option ContentBlock
validate_content c =
    guarded (leb 50 (length c.raw_text) && leb 50 (length (strip c.raw_text)))
      (record c { raw_text = strip c.raw_text })

unfoldable pub validate_processing : ProcessingBlock → Option ProcessingBlock
validate_processing p = guarded (not (non_empty p.attempts)) p

unfoldable pub validate_security : SecurityBlock → Option SecurityBlock
validate_security s = guarded (s.pii_redacted && s.source_domain_verified) s

unfoldable pub hashes_match : ContentBlock → Bool
hashes_match c = any (λ a. str_eq a.checksum_sha256 c.raw_text_hash) c.attachments

unfoldable pub validate_event : PaperIngestedV1 → Option PaperIngestedV1
unfolding hashes_match
validate_event e =
    guarded
      (str_eq e.contract_version "v1"
        && str_eq e.pipeline_status "ingested"
        && not (hashes_match e.content))
      e

-- The constructor call: every block is validated, then the event.
unfoldable pub construct :
    (now : ℕ) (event_id : String)
    → EmailMetadata
    → ContentBlock
    → ProcessingBlock
    → SecurityBlock
    → Option PaperIngestedV1
unfolding validate_email validate_content validate_processing validate_security validate_event
construct now event_id m c p s = do
  email ← validate_email now m
  content ← validate_content c
  processing ← validate_processing p
  security ← validate_security s
  validate_event (record {
    event_id = event_id;
    contract_version = "v1";
    pipeline_status = "ingested";
    created_at = now;
    email = email;
    content = content;
    processing = processing;
    security = security;
  })
