-- ===== src/Extract/Pipeline/Safety.antt =====
-- What stands behind a decision of the worker.
use prompt_flow_ai.Prelude.{
  ℕ, ◌≡◌, ◌≢◌, ◌↔◌, ◌⊎◌, ◌≤◌, true, false, not, ◌||◌, none, arith, inl, inr, non_empty, str_eq,
  eq_iff,
}
use prompt_flow_ai.Extract.Schemas.{
  Settings, settings, auto_save, block, active, EnrichedContext, nlp,
}
use prompt_flow_ai.Extract.Payload.{IngestedPayload}
use prompt_flow_ai.Extract.Truth.{has_text}
use prompt_flow_ai.Extract.Tiers.Regex.{extract_with_regex}
use prompt_flow_ai.Extract.Routing.{chosen_threshold, is_invalid_status}
use prompt_flow_ai.Extract.Routing.Laws.{has_action, table, compute_routing-eq-table}
use prompt_flow_ai.Extract.Cascade.Bounds.{llm_gate_and_cap, nlp_titled_score}
use prompt_flow_ai.Extract.Pipeline.{
  World, build_validation_issues, context_of, extraction_of, routing_of,
}

-- Every flag of the security block is good.
pub record IsClean (p : IngestedPayload) : Type 0 where
  pub redacted : p.security.pii_redacted ≡ true
  pub verified : p.security.source_domain_verified ≡ true
  pub scanned : p.security.clamav_result ≡ "CLEAN"

block_issues :
    (p : IngestedPayload) (ctx : EnrichedContext)
    → has_action "BLOCK" (build_validation_issues p ctx) ≡ (
        not p.security.pii_redacted
        || not p.security.source_domain_verified
        || not (str_eq p.security.clamav_result "CLEAN")
        || is_invalid_status ctx.faculty_status)
unfolding build_validation_issues is_invalid_status
block_issues p ctx = ground (arith, eq_iff "REVIEW_REQUIRED" "BLOCK")

review_issues :
    (p : IngestedPayload) (ctx : EnrichedContext)
    → has_action "REVIEW_REQUIRED" (build_validation_issues p ctx)
      ≡ not (non_empty p.content.attachments)
unfolding build_validation_issues is_invalid_status
review_issues p ctx = ground (arith, eq_iff "BLOCK" "REVIEW_REQUIRED")

routing-eq-table :
    (c : Settings) (w : World) (p : IngestedPayload)
    → let ctx = context_of c w p in
      (routing_of c w p).final_action
      ≡ table ctx.faculty_status
          (extraction_of c w p).confidence.score
          c.default_confidence_threshold
          (build_validation_issues p ctx)
unfolding routing_of chosen_threshold
routing-eq-table c w p = (compute_routing-eq-table c _ _ _ none).0

-- An event is saved automatically exactly when PII was redacted, the domain verified and the scan clean, the faculty
-- member is active, there is an attachment, and the confidence reaches the default threshold.
pub auto_save_iff :
    (c : Settings) (w : World) (p : IngestedPayload)
    → ((routing_of c w p).final_action ≡ auto_save) ↔ (
        IsClean p
        × ((context_of c w p).faculty_status ≡ active)
        × (non_empty p.content.attachments ≡ true)
        × (c.default_confidence_threshold ≤ (extraction_of c w p).confidence.score))
auto_save_iff c w p = rw (routing-eq-table c w p) (
    unfold table is_invalid_status in
    rw (block_issues p (context_of c w p), review_issues p (context_of c w p))
      (
        λ h. (
          record {
            redacted = ground arith;
            verified = ground arith;
            scanned = ground (arith, eq_iff p.security.clamav_result "CLEAN");
          },
          ground arith,
          ground arith,
          ground arith,
        ),
        λ h. ground (
          arith,
          h.0.redacted,
          h.0.verified,
          h.0.scanned,
          h.1,
          h.2,
          h.3,
          eq_iff p.security.clamav_result "CLEAN",
        ),
      ))

-- An event is blocked exactly when a security flag is bad or the faculty member is inactive or not found.
pub block_iff :
    (c : Settings) (w : World) (p : IngestedPayload)
    → ((routing_of c w p).final_action ≡ block) ↔ (
        (p.security.pii_redacted ≡ false)
        ⊎ (p.security.source_domain_verified ≡ false)
        ⊎ (p.security.clamav_result ≢ "CLEAN")
        ⊎ ((context_of c w p).faculty_status ≢ active))
block_iff c w p = rw (routing-eq-table c w p) (
    unfold table is_invalid_status in
    rw (block_issues p (context_of c w p), review_issues p (context_of c w p))
      (
        λ h. ground (arith, eq_iff p.security.clamav_result "CLEAN"),
        λ h. ground (arith, eq_iff p.security.clamav_result "CLEAN"),
      ))

-- With the default settings, a text with a title line that neither CrossRef nor the LLM has confirmed is never saved
-- automatically.
pub auto_save-ne-nlp :
    (w : World) (p : IngestedPayload)
    → has_text (extract_with_regex w.sources.patterns p.content.raw_text).title_candidate ≡ true
    → (routing_of settings w p).final_action ≡ auto_save
    → (extraction_of settings w p).metadata.tier_used ≢ nlp
auto_save-ne-nlp w p titled saved =
    let score = ((auto_save_iff settings w p).0 saved).3 in
    unfold extraction_of in
    elim (llm_gate_and_cap settings w.sources p.content.raw_text) [
      | inl (l, _, _) ↦ λ e. cc (l, e)
      | inr (_, m, s) ↦ λ e.
          low (rw s at score) (nlp_titled_score w.sources p.content.raw_text titled (rw m at e))
    ]
  where
    low : {n : ℕ} → 7500 ≤ n → n ≤ 7050 → ⊥
    low h k = omega arith
