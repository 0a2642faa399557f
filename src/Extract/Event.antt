-- ===== src/Extract/Event.antt =====
-- module3-ai-worker/app/models/schemas.py: `PaperExtractedV1` and `build`. The nested dicts are
-- flat fields here, in the order of the source; constants of every event are left out.
use prompt_flow_ai.Prelude.{ℕ, ◌+◌, String, Option, List, [], ◌∷◌, map}
use prompt_flow_ai.Prelude.Text.{Text, codes}
use prompt_flow_ai.Extract.Schemas.{
  RoutingDecision, PipelineStatus, ExtractionTier, EnrichedContext, ValidationIssue,
  OverallConfidence, RoutingDecisionBlock, Reason,
}
use prompt_flow_ai.Extract.Payload.{IngestedAttachment}
use prompt_flow_ai.Extract.Cascade.{Draft}

-- {"name": …, "affiliation": None, "order": …}
pub record EventAuthor : Type 0 where
  pub name : Text
  pub order : ℕ

pub record EventAttachment : Type 0 where
  pub filename : String
  pub s3_bucket : String
  pub s3_key : String
  pub checksum_sha256 : String

-- The identifiers that `uuid.uuid4()` mints.
pub record Ids : Type 0 where
  pub extraction_id : String
  pub event_id : String
  pub trace_id_hex : String
  pub span_id_hex : String

pub record PaperExtractedV1 : Type 0 where
  pub ids : Ids
  pub idempotency_key : String
  -- routing_decision
  pub pipeline_status : PipelineStatus
  pub final_action : RoutingDecision
  pub overall_confidence : ℕ
  pub applied_threshold : ℕ
  pub reasons : List Reason
  -- extraction_result
  pub title : Option Text
  pub authors : List EventAuthor
  pub doi : Option Text
  pub year : Option ℕ
  pub venue : Option Text
  pub journal : Option Text
  pub abstract : Option Text
  pub paper_type : String
  pub confidence_scores : OverallConfidence
  pub extraction_source : ExtractionTier
  -- enriched_context
  pub enriched_context : EnrichedContext
  -- content_reference
  pub raw_text_hash : String
  pub attachments : List EventAttachment
  pub validation_issues : List ValidationIssue
  -- processing
  pub worker_id : String
  pub source_event_id : String

number_authors : ℕ → List Text → List EventAuthor
number_authors i [] = []
number_authors i (name ∷ names) =
    record { name = name; order = i + 1 } ∷ number_authors (i + 1) names

-- the list of numbered authors, `or` the single unknown one
unfoldable pub event_authors : List Text → List EventAuthor
unfolding number_authors
event_authors [] = record { name = codes "Unknown Author"; order = 1 } ∷ []
event_authors (name ∷ names) = number_authors 0 (name ∷ names)

event_attachment : IngestedAttachment → EventAttachment
event_attachment a = record {
  filename = a.filename;
  s3_bucket = a.s3_bucket;
  s3_key = a.s3_key;
  checksum_sha256 = a.checksum_sha256;
}

unfoldable pub build :
    Ids
    → (idempotency_key : String) → Draft
    → OverallConfidence
    → EnrichedContext
    → RoutingDecisionBlock
    → List ValidationIssue
    → PipelineStatus
    → (raw_text_hash : String) → List IngestedAttachment
    → (worker_id source_event_id : String) → PaperExtractedV1
unfolding event_authors event_attachment
build ids key m confidence ctx routing issues status raw_text_hash attachments worker_id source =
    record {
      ids = ids;
      idempotency_key = key;
      pipeline_status = status;
      final_action = routing.final_action;
      overall_confidence = confidence.score;
      applied_threshold = routing.confidence_threshold_used;
      reasons = routing.reasons;
      title = m.title;
      authors = event_authors m.authors;
      doi = m.doi;
      year = m.year;
      venue = m.venue;
      journal = m.venue;
      abstract = m.abstract;
      paper_type = "unknown";
      confidence_scores = confidence;
      extraction_source = m.tier_used;
      enriched_context = ctx;
      raw_text_hash = raw_text_hash;
      attachments = map event_attachment attachments;
      validation_issues = issues;
      worker_id = worker_id;
      source_event_id = source;
    }
