-- ===== src/Extract/Cascade/Gaps.antt =====
-- What the later tiers may change of what the earlier ones found.
use prompt_flow_ai.Prelude.{
  ◌≡◌, ◌↔◌, refl, ◌&&◌, true, some, non_empty, is_some, not, arith, inl, inr, Bool-cases,
  Option-cases,
}
use prompt_flow_ai.Prelude.Text.{Text}
use prompt_flow_ai.Extract.Schemas.{Settings}
use prompt_flow_ai.Extract.Truth.{has_text, has_number}
use prompt_flow_ai.Extract.Tiers.Regex.{extract_with_regex}
use prompt_flow_ai.Extract.Tiers.Crossref.{CrossRefResult, lookup_crossref}
use prompt_flow_ai.Extract.Tiers.Nlp.{NlpResult}
use prompt_flow_ai.Extract.Tiers.Bedrock.{BedrockResult, extract_with_bedrock}
use prompt_flow_ai.Extract.Cascade.{
  Draft, after_tier1, overwrite, apply_tier2, merge_nlp, apply_tier3, confidence_of, merge_llm,
  apply_tier4, Sources, gather, run_extraction_cascade,
}

-- Whatever `d` holds, `d'` holds too; only what is missing may be filled in.
pub record FillsGaps (d d' : Draft) : Type 0 where
  pub title : has_text d.title ≡ true → d'.title ≡ d.title
  pub authors : non_empty d.authors ≡ true → d'.authors ≡ d.authors
  pub doi : has_text d.doi ≡ true → d'.doi ≡ d.doi
  pub year : has_number d.year ≡ true → d'.year ≡ d.year
  pub venue : has_text d.venue ≡ true → d'.venue ≡ d.venue
  pub abstract : has_text d.abstract ≡ true → d'.abstract ≡ d.abstract
  pub verified : d'.crossref_verified ≡ d.crossref_verified

merge_llm-FillsGaps : (t4 : BedrockResult) (d : Draft) → FillsGaps d (merge_llm t4 d)
unfolding merge_llm
merge_llm-FillsGaps t4 d = record {
  title = λ h. ground arith;
  authors = λ h. ground arith;
  doi = λ h. ground arith;
  year = λ h. ground arith;
  venue = λ h. ground arith;
  abstract = λ h. ground arith;
  verified = refl;
}

FillsGaps-refl : (d : Draft) → FillsGaps d d
FillsGaps-refl d = record {
  title = λ h. refl;
  authors = λ h. refl;
  doi = λ h. refl;
  year = λ h. refl;
  venue = λ h. refl;
  abstract = λ h. refl;
  verified = refl;
}

apply_tier4-FillsGaps : (t4 : BedrockResult) (d : Draft) → FillsGaps d (apply_tier4 t4 d).metadata
unfolding apply_tier4
apply_tier4-FillsGaps t4 d = elim (Bool-cases (t4.invoked && not (is_some t4.error))) [
  | inl e ↦ rw e (merge_llm-FillsGaps t4 d)
  | inr e ↦ rw e (FillsGaps-refl d)
]

-- The LLM changes nothing that the first three tiers found: each of the title, the authors, the DOI, the year, the
-- venue and the abstract that is present after them is in the result as it was, and so is the CrossRef flag.
pub run_extraction_cascade-FillsGaps :
    (s : Settings) (src : Sources) (t : Text)
    → FillsGaps (gather src t) (run_extraction_cascade s src t).metadata
unfolding run_extraction_cascade
run_extraction_cascade-FillsGaps s src t =
    apply_tier4-FillsGaps
      (extract_with_bedrock s src.invoke_model t (confidence_of (gather src t)).score)
      (gather src t)

-- CrossRef was asked for the DOI that the regular expression found, and knew it.
abbrev pub IsResolved : Sources → Text → Type 0
IsResolved src t =
    (doi : Text) × ((extract_with_regex src.patterns t).doi ≡ some doi)
    × (has_text (some doi) ≡ true)
    × ((lookup_crossref src.crossref_get doi).found ≡ true)

tier2_verified :
    (src : Sources) (t : Text) (f : Text → CrossRefResult)
    → let d = after_tier1 (extract_with_regex src.patterns t) in
      ((apply_tier2 f d).crossref_verified ≡ true) ↔ (
        (doi : Text) × ((extract_with_regex src.patterns t).doi ≡ some doi)
        × (has_text (some doi) ≡ true)
        × ((f doi).found ≡ true))
unfolding apply_tier2 after_tier1 overwrite
tier2_verified src t f = elim (Option-cases (extract_with_regex src.patterns t).doi) [
  | inl e ↦ (λ h. absurd (ground arith), λ h. absurd (cc (h.1)))
  | inr (doi, e) ↦ (λ h. (doi, e, ground arith, ground arith), λ h. ground (arith, h.1, h.2, h.3))
]

tier3_verified :
    (t3 : NlpResult) (d : Draft) → (apply_tier3 t3 d).crossref_verified ≡ d.crossref_verified
unfolding apply_tier3 merge_nlp
tier3_verified t3 d = ground arith

-- The result is marked as verified exactly when the regular expression found a DOI that is not empty and CrossRef
-- answered for it.
pub crossref_verified_iff :
    (s : Settings) (src : Sources) (t : Text)
    → ((run_extraction_cascade s src t).metadata.crossref_verified ≡ true) ↔ IsResolved src t
crossref_verified_iff s src t =
    rw (run_extraction_cascade-FillsGaps s src t).verified
      (unfold gather in rw tier3_verified (tier2_verified src t (lookup_crossref src.crossref_get)))
