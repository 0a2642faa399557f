-- ===== src/Extract/Schemas.antt =====
-- module3-ai-worker/app/models/schemas.py and app/config.py: the enums, the models that the
-- pipeline passes on, and the settings that it reads.
-- Floats are scaled: a dimension's score counts hundredths, an overall score and a threshold
-- count ten-thousandths.
use prompt_flow_ai.Prelude.{ℕ, String, Option, List}

pub data RoutingDecision : Type 0 where
  auto_save review_required block : RoutingDecision

pub data PipelineStatus : Type 0 where
  extracted failed blocked : PipelineStatus

pub data FacultyStatus : Type 0 where
  active inactive not_found : FacultyStatus

pub data ExtractionTier : Type 0 where
  regex crossref nlp llm : ExtractionTier

pub record EnrichedContext : Type 0 where
  pub faculty_id : String
  pub faculty_name : Option String
  pub faculty_email : Option String
  pub department_code : Option String
  pub faculty_status : FacultyStatus

pub record ValidationIssue : Type 0 where
  pub code : String
  pub message : String
  pub action : String

pub record OverallConfidence : Type 0 where
  pub score : ℕ
  pub authors_score : ℕ
  pub title_score : ℕ
  pub venue_year_score : ℕ

-- The f-strings of `reasons`, by their parts.
pub data Reason : Type 0 where
  faculty : FacultyStatus → (faculty_id : String) → Reason
  issue_block : (code message : String) → Reason
  low_confidence : (score threshold : ℕ) → Reason
  issue_review : (code message : String) → Reason
  all_passed : (score threshold : ℕ) → Reason
  named : String → Reason

pub record RoutingDecisionBlock : Type 0 where
  pub final_action : RoutingDecision
  pub reasons : List Reason
  pub target_topic : String
  pub confidence_threshold_used : ℕ
  pub overall_confidence : ℕ

pub record Settings : Type 0 where
  pub kafka_topic_papers_validated : String
  pub kafka_topic_papers_review : String
  pub kafka_topic_papers_failed : String
  pub kafka_topic_dlq : String
  pub redis_processed_ttl_seconds : ℕ
  pub llm_confidence_threshold : ℕ
  pub llm_confidence_cap : ℕ
  pub directory_max_retries : ℕ
  pub default_confidence_threshold : ℕ

abbrev pub settings : Settings
settings = record {
  kafka_topic_papers_validated = "papers.validated";
  kafka_topic_papers_review = "papers.review";
  kafka_topic_papers_failed = "papers.failed";
  kafka_topic_dlq = "dlq.ingestion.failed";
  redis_processed_ttl_seconds = 604800;
  llm_confidence_threshold = 7000;
  llm_confidence_cap = 90;
  directory_max_retries = 2;
  default_confidence_threshold = 7500;
}
