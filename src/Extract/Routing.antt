-- ===== src/Extract/Routing.antt =====
-- module3-ai-worker/app/routing/engine.py: the routing decision and its reasons.
pub mod Laws
use prompt_flow_ai.Prelude.{
  ℕ, zero, String, Bool, true, false, Option, none, some, List, [], ◌∷◌, ◌++◌, ltb, str_eq,
  if◌then◌else◌,
}
use prompt_flow_ai.Extract.Schemas.{
  RoutingDecision, auto_save, review_required, block, FacultyStatus, active, inactive, not_found,
  EnrichedContext, ValidationIssue, OverallConfidence, Reason, RoutingDecisionBlock, Settings,
}

-- `_TOPIC_MAP`
unfoldable pub topic_map : Settings → RoutingDecision → String
topic_map s auto_save = s.kafka_topic_papers_validated
topic_map s review_required = s.kafka_topic_papers_review
topic_map s block = s.kafka_topic_papers_failed

-- `faculty_status in (not_found, inactive)`
unfoldable pub is_invalid_status : FacultyStatus → Bool
is_invalid_status active = false
is_invalid_status inactive = true
is_invalid_status not_found = true

-- `confidence_threshold or settings.default_confidence_threshold`: 0.0 counts as absent
unfoldable pub chosen_threshold : Settings → Option ℕ → ℕ
chosen_threshold s none = s.default_confidence_threshold
chosen_threshold s (some zero) = s.default_confidence_threshold
chosen_threshold s (some t) = t

-- The two variables of the function, `decision` and `reasons`.
pub record Verdict : Type 0 where
  pub decision : RoutingDecision
  pub reasons : List Reason

unfoldable pub rule_faculty : EnrichedContext → Verdict → Verdict
unfolding is_invalid_status
rule_faculty ctx v =
    if is_invalid_status ctx.faculty_status
    then record {
      decision = block;
      reasons = v.reasons ++ Reason.faculty ctx.faculty_status ctx.faculty_id ∷ [];
    }
    else v

note_block : ValidationIssue → Verdict → Verdict
note_block i v =
    if str_eq i.action "BLOCK"
    then record {
      decision = block;
      reasons = v.reasons ++ Reason.issue_block i.code i.message ∷ [];
    }
    else v

-- the loop of rule 2
unfoldable pub rule_block : List ValidationIssue → Verdict → Verdict
unfolding note_block
rule_block [] v = v
rule_block (i ∷ issues) v = rule_block issues (note_block i v)

unfoldable pub is_block : RoutingDecision → Bool
is_block block = true
is_block auto_save = false
is_block review_required = false

unfoldable pub rule_confidence : OverallConfidence → ℕ → Verdict → Verdict
unfolding is_block
rule_confidence c threshold v =
    if is_block v.decision
    then v
    else if ltb c.score threshold
    then record {
      decision = review_required;
      reasons = v.reasons ++ Reason.low_confidence c.score threshold ∷ [];
    }
    else v

note_review : ValidationIssue → Verdict → Verdict
note_review i v =
    if str_eq i.action "REVIEW_REQUIRED"
    then record {
      decision = review_required;
      reasons = v.reasons ++ Reason.issue_review i.code i.message ∷ [];
    }
    else v

-- the loop of rule 4
review_loop : List ValidationIssue → Verdict → Verdict
unfolding note_review
review_loop [] v = v
review_loop (i ∷ issues) v = review_loop issues (note_review i v)

unfoldable pub rule_review : List ValidationIssue → Verdict → Verdict
unfolding is_block review_loop
rule_review issues v = if is_block v.decision then v else review_loop issues v

-- `if not reasons`
or_passed : OverallConfidence → ℕ → List Reason → List Reason
or_passed c threshold [] = Reason.all_passed c.score threshold ∷ []
or_passed c threshold (r ∷ reasons) = r ∷ reasons

abbrev start : Verdict
start = record { decision = auto_save; reasons = [] }

unfoldable pub decide : EnrichedContext → OverallConfidence → List ValidationIssue → ℕ → Verdict
unfolding rule_faculty rule_block rule_confidence rule_review
decide ctx c issues threshold =
    rule_review issues (rule_confidence c threshold (rule_block issues (rule_faculty ctx start)))

unfoldable pub compute_routing :
    Settings
    → EnrichedContext
    → OverallConfidence
    → List ValidationIssue
    → Option ℕ
    → RoutingDecisionBlock
unfolding decide or_passed chosen_threshold topic_map
compute_routing s ctx c issues confidence_threshold =
    let threshold = chosen_threshold s confidence_threshold in
    let v = decide ctx c issues threshold in
    record {
      final_action = v.decision;
      reasons = or_passed c threshold v.reasons;
      target_topic = topic_map s v.decision;
      confidence_threshold_used = threshold;
      overall_confidence = c.score;
    }
