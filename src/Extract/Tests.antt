-- ===== src/Extract/Tests.antt =====
-- Concrete runs of module 3, and its theorems at them.
use prompt_flow_ai.Prelude.{
  ◌≤◌, ◌<◌, ◌≡◌, ◌≢◌, ◌⊎◌, ◌↔◌, refl, true, false, none, some, List, [], ◌∷◌, arith, non_empty,
}
use prompt_flow_ai.Prelude.Text.{codes}
use prompt_flow_ai.Redis.{empty, exists, setex}
use prompt_flow_ai.Redis.Memory.{memory}
use prompt_flow_ai.Kafka.{undelivered, kafka_exception, returned, settled, ending}
use prompt_flow_ai.Extract.Schemas.{
  settings, auto_save, block, active, EnrichedContext, ValidationIssue, OverallConfidence, llm,
}
use prompt_flow_ai.Extract.Truth.{has_text}
use prompt_flow_ai.Extract.Payload.{
  IngestedPayload, IngestedAttachment, malformed, fields, passes_validators,
}
use prompt_flow_ai.Extract.Tiers.Regex.{Patterns, extract_with_regex}
use prompt_flow_ai.Extract.Tiers.Crossref.{Message, Reply}
use prompt_flow_ai.Extract.Tiers.Crossref
use prompt_flow_ai.Extract.Tiers.Nlp.{Language, extract_with_nlp}
use prompt_flow_ai.Extract.Tiers.Bedrock.{Answer, extract_with_bedrock}
use prompt_flow_ai.Extract.Routing.{chosen_threshold, topic_map, compute_routing}
use prompt_flow_ai.Extract.Routing.Laws.{table, compute_routing-eq-table}
use prompt_flow_ai.Extract.Cascade.{Sources, gather, confidence_of, run_extraction_cascade}
use prompt_flow_ai.Extract.Cascade.Bounds.{
  IsValid, run_extraction_cascade-IsValid, llm_gate_and_cap,
}
use prompt_flow_ai.Extract.Cascade.Gaps.{FillsGaps, run_extraction_cascade-FillsGaps}
use prompt_flow_ai.Extract.Verification.{Store, downloaded, verify_integrity}
use prompt_flow_ai.Extract.Directory
use prompt_flow_ai.Extract.Directory.{Profile}
use prompt_flow_ai.Extract.Pipeline.{
  State, text, World, build_validation_issues, ended, is_already_processed, verify_payload,
  context_of, extraction_of, routing_of, process_message,
}
use prompt_flow_ai.Extract.Pipeline.Laws.{Grows, process_message-Grows}
use prompt_flow_ai.Extract.Pipeline.Safety.{IsClean, auto_save_iff, block_iff}
use prompt_flow_ai.Extract.Pipeline.Dedup.{processed_once}
use prompt_flow_ai.Extract.Pipeline.Loop.{
  nothing, message, Worker, run_worker_loop, Adds, run_worker_loop-IsJustified,
}

-- What the definitions compute through.
pipeline : Unit {0}
unfolding process_message is_already_processed exists setex verify_payload passes_validators
    routing_of context_of extraction_of compute_routing run_extraction_cascade
    build_validation_issues Directory.get_faculty extract_with_bedrock extract_with_regex
    Crossref.lookup_crossref extract_with_nlp verify_integrity settled
pipeline = tt

abbrev crossref_message : Message
crossref_message = record {
  title = codes "Proof Checking in Practice" ∷ [];
  author = record { given = codes "Ada"; family = codes "Lovelace" } ∷ [];
  published_print = [] ∷ [];
  published_online = (2021 ∷ 4 ∷ []) ∷ [];
  created = [] ∷ [];
  container_title = codes "Journal of Proofs" ∷ [];
  publisher = none;
  abstract = codes "<jats:p>We check.</jats:p>";
}

abbrev patterns : Patterns
patterns = record {
  search_doi = λ t. some (codes "10.1000/xyz.");
  find_years = λ t. 2020 ∷ 2021 ∷ 2021 ∷ [];
}

abbrev no_patterns : Patterns
no_patterns = record { search_doi = λ t. none; find_years = λ t. [] }

abbrev language : Language
language = record {
  entities = λ t. [];
  set_list = λ l. l;
  is_upper = λ c. false;
  is_digit = λ c. false;
  search_year = λ t. none;
}

abbrev sources : Sources
sources = record {
  patterns = patterns;
  crossref_get = λ doi. Reply.status 200 crossref_message;
  language = language;
  invoke_model = λ t. Answer.raised "unavailable";
}

abbrev llm_sources : Sources
llm_sources = record {
  patterns = no_patterns;
  crossref_get = λ doi. Reply.failed;
  language = language;
  invoke_model = λ t. Answer.answered (record {
    title = none;
    authors = codes "Ada Lovelace" ∷ [];
    year = some 2021;
    venue = some (codes "Journal of Proofs");
    abstract = none;
    doi = none;
  });
}

abbrev store : Store
store = record { sha256 = λ b. "digest"; get_object = λ bucket key. downloaded [] }

abbrev profile : Profile
profile = record {
  faculty_status = some "active";
  faculty_id = some "11111111-1111-1111-1111-111111111111";
  faculty_name = some "Ada";
  faculty_email = some "ada@srmap.edu.in";
  department_code = some "CSE";
}

abbrev world : World
world = record {
  now = 100;
  redis_answers_check = true;
  redis_answers_mark = true;
  store = store;
  directory = λ key. Directory.exception ∷ Directory.status 200 profile ∷ [];
  sources = sources;
  ids = record { extraction_id = "e"; event_id = "v"; trace_id_hex = "t"; span_id_hex = "s" };
  worker_id = "m3";
}

abbrev later_world : World
later_world = record world { now = 200 }

abbrev attachment : IngestedAttachment
attachment = record {
  filename = "paper.pdf";
  content_type = "application/pdf";
  size_bytes = 3;
  checksum_sha256 = "digest";
  s3_key = "k";
  s3_bucket = "b";
}

abbrev payload : IngestedPayload
payload = record {
  event_id = "ev";
  contract_version = "v1";
  pipeline_status = "ingested";
  created_at = 1;
  email = record {
    message_id = "m";
    subject = "s";
    sender = codes "ada@srmap.edu.in";
    recipients = [];
    received_at = 1;
    idempotency_key = "key";
  };
  content = record {
    raw_text = codes "Proof checking in practice: a study with many examples and one theorem";
    raw_text_hash = "digest";
    attachments = attachment ∷ [];
  };
  security = record {
    pii_redacted = true;
    source_domain_verified = true;
    clamav_scanned = true;
    clamav_result = "CLEAN";
  };
}

abbrev start : State
start = record {
  redis = empty memory;
  broker = record { log = []; schedule = kafka_exception ∷ [] };
}

abbrev lossy : State
lossy = record {
  redis = empty memory;
  broker = record { log = []; schedule = kafka_exception ∷ undelivered ∷ [] };
}

-- A retried publish, then a saved paper.
saved : (routing_of settings world payload).final_action ≡ auto_save
unfolding pipeline
saved = refl

is_new : is_already_processed world "key" start ≡ false
unfolding pipeline
is_new = refl

is_new_lossy : is_already_processed world "key" lossy ≡ false
unfolding pipeline
is_new_lossy = refl

is_intact : (verify_payload world payload).passed ≡ true
unfolding pipeline
is_intact = refl

passes : passes_validators payload ≡ true
unfolding pipeline
passes = refl

sent : ending (settled 3 start.broker.schedule) ≡ returned true
unfolding pipeline
sent = refl

lost : settled 3 lossy.broker.schedule ≡ some undelivered
unfolding pipeline
lost = refl

titled : has_text (extract_with_regex patterns payload.content.raw_text).title_candidate ≡ true
unfolding pipeline
titled = refl

-- One issue that blocks and one that asks for review, below the threshold.
abbrev issues : List ValidationIssue
issues =
    record { code = "A"; message = "a"; action = "REVIEW_REQUIRED" }
    ∷ record { code = "B"; message = "b"; action = "BLOCK" }
    ∷ []

abbrev context : EnrichedContext
context = record {
  faculty_id = "f";
  faculty_name = none;
  faculty_email = none;
  department_code = none;
  faculty_status = active;
}

abbrev high : OverallConfidence
high = record { score = 8000; authors_score = 80; title_score = 80; venue_year_score = 80 }

abbrev low : OverallConfidence
low = record { score = 6000; authors_score = 60; title_score = 60; venue_year_score = 60 }

compute_routing-eq-table_example :
    let r = compute_routing settings context low issues (some 0) in
    (r.final_action ≡ table active 6000 7500 issues)
    × (r.target_topic ≡ topic_map settings r.final_action)
unfolding pipeline chosen_threshold
compute_routing-eq-table_example = compute_routing-eq-table settings context low issues (some 0)

run_extraction_cascade-IsValid_example :
    IsValid (run_extraction_cascade settings llm_sources payload.content.raw_text).confidence
run_extraction_cascade-IsValid_example =
    run_extraction_cascade-IsValid settings llm_sources payload.content.raw_text

llm_gate_and_cap_example :
    let o = run_extraction_cascade settings llm_sources payload.content.raw_text in
    let d = gather llm_sources payload.content.raw_text in
    ((o.metadata.tier_used ≡ llm) × (o.confidence.score ≤ 9000) × ((confidence_of d).score < 7000))
    ⊎ ((o.metadata.tier_used ≢ llm) × (o.metadata ≡ d) × (o.confidence ≡ confidence_of d))
llm_gate_and_cap_example = llm_gate_and_cap settings llm_sources payload.content.raw_text

run_extraction_cascade-FillsGaps_example :
    FillsGaps
      (gather llm_sources payload.content.raw_text)
      (run_extraction_cascade settings llm_sources payload.content.raw_text).metadata
run_extraction_cascade-FillsGaps_example =
    run_extraction_cascade-FillsGaps settings llm_sources payload.content.raw_text

process_message-Grows_example :
    Grows settings world
      (fields payload)
      []
      (process_message settings world (fields payload) (text "key") start).1.broker.log
process_message-Grows_example =
    process_message-Grows settings world (fields payload) (text "key") start

auto_save_iff_example : ((routing_of settings world payload).final_action ≡ auto_save) ↔ (
    IsClean payload
    × ((context_of settings world payload).faculty_status ≡ active)
    × (non_empty (attachment ∷ []) ≡ true)
    × (7500 ≤ (extraction_of settings world payload).confidence.score))
auto_save_iff_example = auto_save_iff settings world payload

block_iff_example : ((routing_of settings world payload).final_action ≡ block) ↔ (
    (true ≡ false)
    ⊎ (true ≡ false)
    ⊎ (payload.security.clamav_result ≢ "CLEAN")
    ⊎ ((context_of settings world payload).faculty_status ≢ active))
block_iff_example = block_iff settings world payload

processed_once_example :
    let s' = (process_message settings world (fields payload) (text "key") start).1 in
    process_message settings later_world malformed (text "key") s' ≡ (ended, s')
processed_once_example =
    processed_once settings world later_world payload malformed start is_new passes is_intact sent
      refl refl (omega arith)

abbrev worker : Worker
worker = record { state = start; committed = 0 }

run_worker_loop-IsJustified_example :
    Adds settings
      (nothing ∷ message world (fields payload) (text "key") ∷ [])
      worker.state.broker.log
      (run_worker_loop settings
        (nothing ∷ message world (fields payload) (text "key") ∷ [])
        worker).state.broker.log
run_worker_loop-IsJustified_example =
    run_worker_loop-IsJustified settings
      (nothing ∷ message world (fields payload) (text "key") ∷ []) worker
