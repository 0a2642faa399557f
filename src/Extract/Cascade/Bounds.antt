-- ===== src/Extract/Cascade/Bounds.antt =====
-- The confidence of the cascade: its range, the cap after the LLM, and what each tier can reach.
use prompt_flow_ai.Prelude.{
  ℕ, ◌+◌, ◌*◌, ◌≤◌, ◌<◌, ◌≡◌, ◌≢◌, ◌⊎◌, ◌&&◌, refl, true, false, arith, inl, inr, Bool-cases,
  Option-cases, ltb, is_some, not,
}
use prompt_flow_ai.Prelude.Text.{Text}
use prompt_flow_ai.Extract.Schemas.{regex, crossref, nlp, llm, OverallConfidence, Settings}
use prompt_flow_ai.Extract.Truth.{has_text}
use prompt_flow_ai.Extract.Tiers.Regex.{Patterns, extract_with_regex}
use prompt_flow_ai.Extract.Tiers.Crossref.{CrossRefResult, lookup_crossref}
use prompt_flow_ai.Extract.Tiers.Nlp.{Language, extract_with_nlp}
use prompt_flow_ai.Extract.Tiers.Bedrock.{Answer, BedrockResult, extract_with_bedrock}
use prompt_flow_ai.Extract.Cascade.{
  Draft, compute_confidence, after_tier1, overwrite, apply_tier2, merge_nlp, apply_tier3,
  confidence_of, merge_llm, capped, Outcome, apply_tier4, Sources, gather, run_extraction_cascade,
}

-- Every dimension's score is at most 1.00.
pub record IsScored (d : Draft) : Type 0 where
  pub authors : d.authors_score ≤ 100
  pub title : d.title_score ≤ 100
  pub venue_year : d.venue_year_score ≤ 100

-- What the validators of `OverallConfidence` ask.
pub record IsValid (c : OverallConfidence) : Type 0 where
  pub authors : c.authors_score ≤ 100
  pub title : c.title_score ≤ 100
  pub venue_year : c.venue_year_score ≤ 100
  pub score : c.score ≤ 10000
  pub formula : c.score ≡ c.authors_score * 40 + c.title_score * 30 + c.venue_year_score * 30

year_confidence_le : (p : Patterns) (t : Text) → (extract_with_regex p t).year_confidence ≤ 60
unfolding extract_with_regex
year_confidence_le p t = ground arith

nlp_confidences :
    (l : Language) (t : Text)
    → let r = extract_with_nlp l t in
      (r.title_confidence ≤ 75) × (r.authors_confidence ≤ 75) × (r.venue_confidence ≤ 75)
unfolding extract_with_nlp
nlp_confidences l t = (ground arith, ground arith, ground arith)

-- The state of the draft before tier 2, and after a failed tier 2.
record IsRegex (d : Draft) : Type 0 where
  authors : d.authors_score ≤ 0
  title : d.title_score ≤ 60
  venue_year : d.venue_year_score ≤ 60
  tier : d.tier_used ≡ regex
  unverified : d.crossref_verified ≡ false
  titled : has_text d.title ≡ false → d.title_score ≡ 0

after_tier1-IsRegex : (p : Patterns) (t : Text) → IsRegex (after_tier1 (extract_with_regex p t))
unfolding after_tier1
after_tier1-IsRegex p t =
    let h = year_confidence_le p t in
    record {
      authors = omega arith;
      title = ground arith;
      venue_year = ground arith;
      tier = refl;
      unverified = refl;
      titled = ground arith;
    }

record IsCrossref (d : Draft) : Type 0 where
  scored : IsScored d
  tier : d.tier_used ≡ crossref
  verified : d.crossref_verified ≡ true

record IsNlp (d : Draft) : Type 0 where
  authors : d.authors_score ≤ 75
  title : d.title_score ≤ 75
  venue_year : d.venue_year_score ≤ 75
  tier : d.tier_used ≡ nlp
  unverified : d.crossref_verified ≡ false

overwrite-IsCrossref : (t2 : CrossRefResult) (d : Draft) → IsCrossref (overwrite t2 d)
unfolding overwrite
overwrite-IsCrossref t2 d = record {
  scored = record { authors = ground arith; title = ground arith; venue_year = ground arith };
  tier = refl;
  verified = refl;
}

apply_tier2_cases :
    (f : Text → CrossRefResult) (d : Draft)
    → (apply_tier2 f d ≡ d) ⊎ ((t2 : CrossRefResult) × (apply_tier2 f d ≡ overwrite t2 d))
unfolding apply_tier2
apply_tier2_cases f d = elim (Option-cases d.doi) [
  | inl e ↦ inl (ground arith)
  | inr (doi, e) ↦ elim (Bool-cases (has_text d.doi && (f doi).found)) [
    | inl h ↦ inr (f doi, ground arith)
    | inr h ↦ inl (ground arith)
  ]
]

merge_nlp-IsNlp :
    (l : Language) (t : Text) (d : Draft) → IsRegex d → IsNlp (merge_nlp (extract_with_nlp l t) d)
unfolding merge_nlp
merge_nlp-IsNlp l t d h =
    let (a, b, c) = nlp_confidences l t in
    record {
      authors = ground arith;
      title = ground arith;
      venue_year = ground arith;
      tier = refl;
      unverified = h.unverified;
    }

gather_cases : (src : Sources) (t : Text) → IsNlp (gather src t) ⊎ IsCrossref (gather src t)
unfolding gather apply_tier3
gather_cases src t =
    let d = after_tier1 (extract_with_regex src.patterns t) in
    let h = after_tier1-IsRegex src.patterns t in
    elim (apply_tier2_cases (lookup_crossref src.crossref_get) d) [
      | inl e ↦ inl (rw e (rw h.unverified (merge_nlp-IsNlp src.language t d h)))
      | inr (t2, e) ↦
          inr (rw e (rw (overwrite-IsCrossref t2 d).verified (overwrite-IsCrossref t2 d)))
    ]

gather-IsScored : (src : Sources) (t : Text) → IsScored (gather src t)
gather-IsScored src t = elim (gather_cases src t) [
  | inl h ↦ record {
    authors = omega (arith, h.authors);
    title = omega (arith, h.title);
    venue_year = omega (arith, h.venue_year);
  }
  | inr h ↦ h.scored
]

gather-ne-llm : (src : Sources) (t : Text) → (gather src t).tier_used ≢ llm
gather-ne-llm src t e = elim (gather_cases src t) [ inl h ↦ cc (h.tier) | inr h ↦ cc (h.tier) ]

merge_llm-IsScored : (t4 : BedrockResult) (d : Draft) → IsScored d → IsScored (merge_llm t4 d)
unfolding merge_llm
merge_llm-IsScored t4 d h = record {
  authors = ground (arith, h.authors);
  title = ground (arith, h.title);
  venue_year = ground (arith, h.venue_year);
}

confidence_of-IsValid : (d : Draft) → IsScored d → IsValid (confidence_of d)
unfolding confidence_of compute_confidence
confidence_of-IsValid d h = record {
  authors = h.authors;
  title = h.title;
  venue_year = h.venue_year;
  score = omega (arith, h.authors, h.title, h.venue_year);
  formula = refl;
}

capped-IsValid : (d : Draft) → IsScored d → IsValid (capped d) × ((capped d).score ≤ 9000)
unfolding capped confidence_of compute_confidence
capped-IsValid d h = elim (Bool-cases (ltb 9000 (confidence_of d).score)) [
  | inl e ↦ rw e (
    record {
      authors = omega arith;
      title = omega arith;
      venue_year = omega arith;
      score = omega arith;
      formula = refl;
    },
    omega arith,
  )
  | inr e ↦ rw e (confidence_of-IsValid d h, ground arith)
]

-- What the last tier makes of the gathered draft: nothing, or the merge with the LLM's answer.
record IsAfterTier4 (t4 : BedrockResult) (d : Draft) (o : Outcome) : Type 0 where
  ran : t4.invoked ≡ true
  metadata : o.metadata ≡ merge_llm t4 d
  confidence : o.confidence ≡ capped (merge_llm t4 d)

apply_tier4_cases :
    (t4 : BedrockResult) (d : Draft)
    → ((apply_tier4 t4 d).metadata ≡ d) × ((apply_tier4 t4 d).confidence ≡ confidence_of d)
      ⊎ IsAfterTier4 t4 d (apply_tier4 t4 d)
unfolding apply_tier4
apply_tier4_cases t4 d = elim (Bool-cases (t4.invoked && not (is_some t4.error))) [
  | inl e ↦ inr (record { ran = ground arith; metadata = rw e; confidence = rw e })
  | inr e ↦ inl (rw e, rw e)
]

-- Whatever the sources answer, the confidence of the cascade passes the validators of its model: each dimension is at
-- most 1.00, the score is at most 1.00 and is the locked formula of the three dimensions.
pub run_extraction_cascade-IsValid :
    (s : Settings) (src : Sources) (t : Text) → IsValid (run_extraction_cascade s src t).confidence
unfolding run_extraction_cascade
run_extraction_cascade-IsValid s src t =
    let d = gather src t in
    let t4 = extract_with_bedrock s src.invoke_model t (confidence_of d).score in
    elim (apply_tier4_cases t4 d) [
      | inl (_, e) ↦ rw e (confidence_of-IsValid d (gather-IsScored src t))
      | inr h ↦
          rw (h.confidence)
            (capped-IsValid (merge_llm t4 d) (merge_llm-IsScored t4 d (gather-IsScored src t))).0
    ]

bedrock_gate :
    (s : Settings) (f : Text → Answer) (t : Text) (c : ℕ)
    → (extract_with_bedrock s f t c).invoked ≡ true
    → c < s.llm_confidence_threshold
unfolding extract_with_bedrock
bedrock_gate s f t c h = ground arith

tier_of_merge_llm : (t4 : BedrockResult) (d : Draft) → (merge_llm t4 d).tier_used ≡ llm
unfolding merge_llm
tier_of_merge_llm t4 d = refl

-- A result of the LLM tier has a score of at most 0.90, and the first three tiers had a score below the LLM's
-- threshold. Any other result is the draft of the first three tiers with its own confidence.
pub llm_gate_and_cap :
    (s : Settings) (src : Sources) (t : Text)
    → let o = run_extraction_cascade s src t in
      let d = gather src t in
      ((o.metadata.tier_used ≡ llm)
        × (o.confidence.score ≤ 9000)
        × ((confidence_of d).score < s.llm_confidence_threshold))
      ⊎ ((o.metadata.tier_used ≢ llm) × (o.metadata ≡ d) × (o.confidence ≡ confidence_of d))
unfolding run_extraction_cascade
llm_gate_and_cap s src t =
    let d = gather src t in
    let t4 = extract_with_bedrock s src.invoke_model t (confidence_of d).score in
    elim (apply_tier4_cases t4 d) [
      | inl (m, e) ↦ inr (rw m (gather-ne-llm src t), m, e)
      | inr h ↦ inl (
        rw (h.metadata) (tier_of_merge_llm t4 d),
        rw (h.confidence)
            (capped-IsValid (merge_llm t4 d) (merge_llm-IsScored t4 d (gather-IsScored src t))).1,
        bedrock_gate s src.invoke_model t (confidence_of d).score h.ran,
      )
    ]

nlp_score : (d : Draft) → IsNlp d → (confidence_of d).score ≤ 7500
unfolding confidence_of compute_confidence
nlp_score d h = omega (arith, h.authors, h.title, h.venue_year)

titled_score :
    (l : Language) (t : Text) (d : Draft)
    → IsRegex d
    → has_text d.title ≡ true
    → (confidence_of (merge_nlp (extract_with_nlp l t) d)).score ≤ 7050
unfolding confidence_of compute_confidence
titled_score l t d h titled =
    let n = merge_nlp-IsNlp l t d h in
    let same : (merge_nlp (extract_with_nlp l t) d).title_score ≤ 60 =
      unfold merge_nlp in ground (arith, h.title) in
    omega (arith, n.authors, n.venue_year, same)

crossref≢nlp : crossref ≢ nlp
crossref≢nlp = cc

-- A text with a title line, read by the first three tiers without CrossRef, scores at most 0.7050.
pub nlp_titled_score :
    (src : Sources) (t : Text)
    → has_text (extract_with_regex src.patterns t).title_candidate ≡ true
    → (gather src t).tier_used ≡ nlp
    → (confidence_of (gather src t)).score ≤ 7050
unfolding gather apply_tier3
nlp_titled_score src t titled e =
    let d = after_tier1 (extract_with_regex src.patterns t) in
    let h = after_tier1-IsRegex src.patterns t in
    let same : has_text d.title ≡ true = unfold after_tier1 in titled in
    elim (apply_tier2_cases (lookup_crossref src.crossref_get) d) [
      | inl q ↦ rw q (rw h.unverified (titled_score src.language t d h same))
      | inr (t2, q) ↦ absurd (crossref≢nlp (rw q at e))
    ]
