-- ===== src/Extract/Routing/Laws.antt =====
-- The routing decision against the rule table in the header of engine.py.
use prompt_flow_ai.Prelude.{
  ℕ, ◌≤◌, ◌≡◌, refl, sym, Bool, true, ◌||◌, Option, List, [], ◌∷◌, ◌++◌, arith, ltb, any, non_empty,
  String, str_eq, if◌then◌else◌,
}
use mathlib.Core.List.{append-nil, append_assoc}
use prompt_flow_ai.Extract.Schemas.{
  RoutingDecision, auto_save, review_required, block, FacultyStatus, EnrichedContext,
  ValidationIssue, OverallConfidence, Reason, Settings,
}
use prompt_flow_ai.Extract.Routing.{
  Verdict, note_block, note_review, is_block, is_invalid_status, chosen_threshold, topic_map,
  rule_faculty, rule_block, rule_confidence, review_loop, rule_review, or_passed, start, decide,
  compute_routing,
}

abbrev pub has_action : String → List ValidationIssue → Bool
has_action a issues = any (λ i. str_eq i.action a) issues

-- The five rules of the header, as a table.
unfoldable pub table : FacultyStatus → ℕ → ℕ → List ValidationIssue → RoutingDecision
table status score threshold issues =
    if is_invalid_status status || has_action "BLOCK" issues
    then block
    else if ltb score threshold || has_action "REVIEW_REQUIRED" issues
    then review_required
    else auto_save

rule_block-decision :
    (issues : List ValidationIssue) (v : Verdict)
    → (rule_block issues v).decision ≡ (if has_action "BLOCK" issues then block else v.decision)
unfolding rule_block
rule_block-decision [] v = refl
rule_block-decision (i ∷ issues) v = ground (arith, rule_block-decision issues (note_block i v))

review_loop-decision :
    (issues : List ValidationIssue) (v : Verdict)
    → (review_loop issues v).decision
      ≡ (if has_action "REVIEW_REQUIRED" issues then review_required else v.decision)
unfolding review_loop
review_loop-decision [] v = refl
review_loop-decision (i ∷ issues) v = ground (arith, review_loop-decision issues (note_review i v))

decide-eq-table :
    (ctx : EnrichedContext) (c : OverallConfidence) (issues : List ValidationIssue) (threshold : ℕ)
    → (decide ctx c issues threshold).decision ≡ table ctx.faculty_status c.score threshold issues
unfolding decide rule_review rule_confidence rule_faculty table is_block
decide-eq-table ctx c issues threshold = ground (
  arith,
  rule_block-decision issues (rule_faculty ctx start),
  review_loop-decision issues
      (rule_confidence c threshold (rule_block issues (rule_faculty ctx start))),
)

-- The decision follows the rule table: BLOCK for an unknown or inactive faculty member or any issue with action
-- BLOCK, else REVIEW_REQUIRED below the threshold or for any issue that asks for it, else AUTO_SAVE; the topic is the
-- one that the topic map gives for that decision.
pub compute_routing-eq-table :
    (s : Settings) (ctx : EnrichedContext) (c : OverallConfidence) (issues : List ValidationIssue)
    (t : Option ℕ)
    → let r = compute_routing s ctx c issues t in
      (r.final_action ≡ table ctx.faculty_status c.score (chosen_threshold s t) issues)
      × (r.target_topic ≡ topic_map s r.final_action)
unfolding compute_routing
compute_routing-eq-table s ctx c issues t =
    (decide-eq-table ctx c issues (chosen_threshold s t), refl)

-- What each rule says, in the order of the rules.
faculty_reasons : EnrichedContext → List Reason
faculty_reasons ctx =
    if is_invalid_status ctx.faculty_status
    then Reason.faculty ctx.faculty_status ctx.faculty_id ∷ []
    else []

block_reasons : List ValidationIssue → List Reason
block_reasons [] = []
block_reasons (i ∷ issues) =
    if str_eq i.action "BLOCK"
    then Reason.issue_block i.code i.message ∷ block_reasons issues
    else block_reasons issues

review_reasons : List ValidationIssue → List Reason
review_reasons [] = []
review_reasons (i ∷ issues) =
    if str_eq i.action "REVIEW_REQUIRED"
    then Reason.issue_review i.code i.message ∷ review_reasons issues
    else review_reasons issues

confidence_reasons : ℕ → ℕ → List Reason
confidence_reasons score threshold =
    if ltb score threshold then Reason.low_confidence score threshold ∷ [] else []

rule_block-reasons :
    (issues : List ValidationIssue) (v : Verdict)
    → (rule_block issues v).reasons ≡ v.reasons ++ block_reasons issues
unfolding rule_block block_reasons
rule_block-reasons [] v = sym (append-nil v.reasons)
rule_block-reasons (i ∷ issues) v = rw (rule_block-reasons issues (note_block i v)) (
    ground (
      arith,
      append_assoc v.reasons (Reason.issue_block i.code i.message ∷ []) (block_reasons issues),
    ))

review_loop-reasons :
    (issues : List ValidationIssue) (v : Verdict)
    → (review_loop issues v).reasons ≡ v.reasons ++ review_reasons issues
unfolding review_loop review_reasons
review_loop-reasons [] v = sym (append-nil v.reasons)
review_loop-reasons (i ∷ issues) v = rw (review_loop-reasons issues (note_review i v)) (
    ground (
      arith,
      append_assoc v.reasons (Reason.issue_review i.code i.message ∷ []) (review_reasons issues),
    ))

block_reasons-non_empty :
    (issues : List ValidationIssue) → has_action "BLOCK" issues ≡ non_empty (block_reasons issues)
unfolding block_reasons
block_reasons-non_empty [] = refl
block_reasons-non_empty (i ∷ issues) = ground (arith, block_reasons-non_empty issues)

-- What the block answers, from the reasons of the hard rules and of the soft ones.
pub explain : OverallConfidence → ℕ → List Reason → List Reason → List Reason
explain c threshold [] [] = Reason.all_passed c.score threshold ∷ []
explain c threshold [] (r ∷ soft) = r ∷ soft
explain c threshold (r ∷ hard) soft = r ∷ hard

pub hard_reasons : EnrichedContext → List ValidationIssue → List Reason
unfolding faculty_reasons block_reasons
hard_reasons ctx issues = faculty_reasons ctx ++ block_reasons issues

pub soft_reasons : OverallConfidence → ℕ → List ValidationIssue → List Reason
unfolding confidence_reasons review_reasons
soft_reasons c threshold issues = confidence_reasons c.score threshold ++ review_reasons issues

decide-reasons :
    (ctx : EnrichedContext) (c : OverallConfidence) (issues : List ValidationIssue) (threshold : ℕ)
    → or_passed c threshold (decide ctx c issues threshold).reasons
      ≡ explain c threshold (hard_reasons ctx issues) (soft_reasons c threshold issues)
unfolding decide rule_review rule_confidence rule_faculty is_block hard_reasons soft_reasons
    faculty_reasons confidence_reasons explain or_passed
decide-reasons ctx c issues threshold =
    let v = rule_block issues (rule_faculty ctx start) in
    ground (
      arith,
      rule_block-decision issues (rule_faculty ctx start),
      rule_block-reasons issues (rule_faculty ctx start),
      block_reasons-non_empty issues,
      review_loop-reasons issues (rule_confidence c threshold v),
    )

-- The reasons are those of the hard rules (faculty status, then each issue with action BLOCK in order) if there is
-- one; else those of the soft rules (low confidence, then each issue that asks for review in order) if there is one;
-- else the single reason that all checks passed.
pub compute_routing-reasons :
    (s : Settings) (ctx : EnrichedContext) (c : OverallConfidence) (issues : List ValidationIssue)
    (t : Option ℕ)
    → (compute_routing s ctx c issues t).reasons
      ≡ explain c
          (chosen_threshold s t)
          (hard_reasons ctx issues)
          (soft_reasons c (chosen_threshold s t) issues)
unfolding compute_routing
compute_routing-reasons s ctx c issues t = decide-reasons ctx c issues (chosen_threshold s t)

-- How severe a decision is.
abbrev pub severity : RoutingDecision → ℕ
severity auto_save = 0
severity review_required = 1
severity block = 2

has_action-append :
    (a : String) (xs ys : List ValidationIssue)
    → has_action a xs ≡ true
    → has_action a (xs ++ ys) ≡ true
has_action-append a [] ys h = cc
has_action-append a (x ∷ xs) ys h = ground (arith, has_action-append a xs ys)

table_mono :
    (st : FacultyStatus) (score score' threshold : ℕ) (xs ys : List ValidationIssue)
    → score' ≤ score
    → severity (table st score threshold xs) ≤ severity (table st score' threshold (xs ++ ys))
unfolding table
table_mono st score score' threshold xs ys h =
    ground (arith, has_action-append "BLOCK" xs ys, has_action-append "REVIEW_REQUIRED" xs ys)

-- More issues and a lower score never make the decision less severe: if the second confidence has at most the score
-- of the first, then routing the first with some issues is at most as severe as routing the second with those issues
-- and more.
pub compute_routing_escalates :
    (s : Settings) (ctx : EnrichedContext) (c c' : OverallConfidence) (xs ys : List ValidationIssue)
    (t : Option ℕ)
    → c'.score ≤ c.score
    → severity (compute_routing s ctx c xs t).final_action
      ≤ severity (compute_routing s ctx c' (xs ++ ys) t).final_action
compute_routing_escalates s ctx c c' xs ys t h =
    rw
      (
        (compute_routing-eq-table s ctx c xs t).0,
        (compute_routing-eq-table s ctx c' (xs ++ ys) t).0,
      )
      (table_mono ctx.faculty_status c.score c'.score (chosen_threshold s t) xs ys h)
