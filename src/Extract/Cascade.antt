-- ===== src/Extract/Cascade.antt =====
-- module3-ai-worker/app/services/extraction/cascade.py: the four-tier cascade.
-- A dimension's score counts hundredths. The locked formula then counts ten-thousandths, and
-- `round(score, 4)` changes nothing.
pub mod Bounds
pub mod Gaps
use prompt_flow_ai.Prelude.{
  ℕ, ◌+◌, ◌*◌, Bool, true, false, not, ◌&&◌, ◌||◌, Option, none, some, List, [], ltb, non_empty,
  is_some, if◌then◌else◌,
}
use Prim.Native.Nat.{min, max}
use prompt_flow_ai.Prelude.Text.{Text}
use prompt_flow_ai.Extract.Schemas.{
  ExtractionTier, regex, crossref, nlp, llm, OverallConfidence, Settings,
}
use prompt_flow_ai.Extract.Truth.{has_text, has_number, or_text, or_number, or_list}
use prompt_flow_ai.Extract.Tiers.Regex.{Patterns, RegexResult, extract_with_regex}
use prompt_flow_ai.Extract.Tiers.Crossref.{CrossRefResult, Reply, lookup_crossref}
use prompt_flow_ai.Extract.Tiers.Nlp.{Language, NlpResult, extract_with_nlp}
use prompt_flow_ai.Extract.Tiers.Bedrock.{Parsed, Answer, BedrockResult, extract_with_bedrock}

-- The local variables of `run_extraction_cascade`.
pub record Draft : Type 0 where
  pub title : Option Text
  pub authors : List Text
  pub doi : Option Text
  pub year : Option ℕ
  pub venue : Option Text
  pub abstract : Option Text
  pub crossref_verified : Bool
  pub tier_used : ExtractionTier
  pub authors_score : ℕ
  pub title_score : ℕ
  pub venue_year_score : ℕ

unfoldable pub compute_confidence :
    (authors_score title_score venue_year_score : ℕ) → OverallConfidence
compute_confidence a t v = record {
  score = a * 40 + t * 30 + v * 30;
  authors_score = a;
  title_score = t;
  venue_year_score = v;
}

unfoldable pub after_tier1 : RegexResult → Draft
after_tier1 t1 = record {
  title = t1.title_candidate;
  authors = [];
  doi = t1.doi;
  year = t1.year;
  venue = none;
  abstract = none;
  crossref_verified = false;
  tier_used = regex;
  authors_score = 0;
  title_score = if has_text t1.title_candidate then 60 else 0;
  venue_year_score = if has_number t1.year then t1.year_confidence else 0;
}

-- `if t2.found`: overwrite with CrossRef's data
unfoldable pub overwrite : CrossRefResult → Draft → Draft
overwrite t2 d =
    let title = or_text t2.title d.title in
    let authors = or_list t2.authors d.authors in
    let year = or_number t2.year d.year in
    record {
      title = title;
      authors = authors;
      doi = d.doi;
      year = year;
      venue = t2.venue;
      abstract = t2.abstract;
      crossref_verified = true;
      tier_used = crossref;
      authors_score = if non_empty authors then 100 else 0;
      title_score = if has_text title then 100 else 0;
      venue_year_score = if has_text t2.venue || has_number year then 100 else 0;
    }

unfoldable pub apply_tier2 : (Text → CrossRefResult) → Draft → Draft
unfolding overwrite
apply_tier2 lookup d = elim d.doi [
  | none ↦ d
  | some doi ↦
      if has_text d.doi then (if (lookup doi).found then overwrite (lookup doi) d else d) else d
]

-- The four independent `if`s of tier 3.
unfoldable pub merge_nlp : NlpResult → Draft → Draft
merge_nlp t3 d =
    let new_title = has_text t3.title && not (has_text d.title) in
    let new_authors = non_empty t3.authors && not (non_empty d.authors) in
    let new_venue = has_text t3.venue && not (has_text d.venue) in
    let new_year = has_number t3.year && not (has_number d.year) in
    record {
      title = if new_title then t3.title else d.title;
      authors = if new_authors then t3.authors else d.authors;
      doi = d.doi;
      year = if new_year then t3.year else d.year;
      venue = if new_venue then t3.venue else d.venue;
      abstract = d.abstract;
      crossref_verified = d.crossref_verified;
      tier_used = nlp;
      authors_score = if new_authors then t3.authors_confidence else d.authors_score;
      title_score = if new_title then t3.title_confidence else d.title_score;
      venue_year_score =
          if new_venue then max d.venue_year_score t3.venue_confidence else d.venue_year_score;
    }

unfoldable pub apply_tier3 : NlpResult → Draft → Draft
unfolding merge_nlp
apply_tier3 t3 d = if d.crossref_verified then d else merge_nlp t3 d

unfoldable pub confidence_of : Draft → OverallConfidence
unfolding compute_confidence
confidence_of d = compute_confidence d.authors_score d.title_score d.venue_year_score

unfoldable pub merge_llm : BedrockResult → Draft → Draft
merge_llm t4 d =
    let f = t4.fields in
    let new_title = has_text f.title && not (has_text d.title) in
    let new_authors = non_empty f.authors && not (non_empty d.authors) in
    let new_venue = has_text f.venue && not (has_text d.venue) in
    let new_year = has_number f.year && not (has_number d.year) in
    let new_doi = has_text f.doi && not (has_text d.doi) in
    let new_abstract = has_text f.abstract && not (has_text d.abstract) in
    record {
      title = if new_title then f.title else d.title;
      authors = if new_authors then f.authors else d.authors;
      doi = if new_doi then f.doi else d.doi;
      year = if new_year then f.year else d.year;
      venue = if new_venue then f.venue else d.venue;
      abstract = if new_abstract then f.abstract else d.abstract;
      crossref_verified = d.crossref_verified;
      tier_used = llm;
      authors_score = if new_authors then min t4.confidence 90 else d.authors_score;
      title_score = if new_title then min t4.confidence 90 else d.title_score;
      venue_year_score =
          if new_venue then min (max d.venue_year_score t4.confidence) 90 else d.venue_year_score;
    }

-- the hard cap after the LLM
unfoldable pub capped : Draft → OverallConfidence
unfolding confidence_of
capped d =
    if ltb 9000 (confidence_of d).score
    then compute_confidence (min d.authors_score 90) (min d.title_score 90)
        (min d.venue_year_score 90)
    else confidence_of d

pub record Outcome : Type 0 where
  pub metadata : Draft
  pub confidence : OverallConfidence

unfoldable pub apply_tier4 : BedrockResult → Draft → Outcome
unfolding merge_llm capped confidence_of
apply_tier4 t4 d =
    if t4.invoked && not (is_some t4.error)
    then record { metadata = merge_llm t4 d; confidence = capped (merge_llm t4 d) }
    else record { metadata = d; confidence = confidence_of d }

-- What the tiers ask of the outside.
pub record Sources : Type 0 where
  pub patterns : Patterns
  pub crossref_get : Text → Reply
  pub language : Language
  pub invoke_model : Text → Answer

-- The draft before tier 4.
unfoldable pub gather : Sources → Text → Draft
unfolding after_tier1 apply_tier2 apply_tier3
gather src raw_text = apply_tier3 (extract_with_nlp src.language raw_text) (
    apply_tier2 (lookup_crossref src.crossref_get)
      (after_tier1 (extract_with_regex src.patterns raw_text)))

unfoldable pub run_extraction_cascade : Settings → Sources → Text → Outcome
unfolding apply_tier4 gather
run_extraction_cascade s src raw_text =
    let d = gather src raw_text in
    apply_tier4 (extract_with_bedrock s src.invoke_model raw_text (confidence_of d).score) d
