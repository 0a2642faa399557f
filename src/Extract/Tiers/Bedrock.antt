-- ===== src/Extract/Tiers/Bedrock.antt =====
-- module3-ai-worker/app/services/extraction/tier4_bedrock.py. The model's answer is a parameter:
-- the fields of its JSON, or the message of an exception. `_parse_bedrock_response` strips a
-- markdown wrapper before the JSON library reads the text, and stands in that parameter.
use prompt_flow_ai.Prelude.{
  ℕ, ◌+◌, ◌*◌, Bool, true, false, String, Option, none, some, List, [], take, leb, non_empty,
  if◌then◌else◌,
}
use Prim.Native.Nat.{min}
use prompt_flow_ai.Prelude.Text.{Text}
use prompt_flow_ai.Extract.Schemas.{Settings}
use prompt_flow_ai.Extract.Truth.{has_text, has_number}

-- `parsed`: `authors` is [] where the field is no list, `year` absent where it is not a number.
pub record Parsed : Type 0 where
  pub title : Option Text
  pub authors : List Text
  pub year : Option ℕ
  pub venue : Option Text
  pub abstract : Option Text
  pub doi : Option Text

pub data Answer : Type 0 where
  answered : Parsed → Answer
  raised : String → Answer

pub record BedrockResult : Type 0 where
  pub fields : Parsed
  pub confidence : ℕ
  pub invoked : Bool
  pub error : Option String

abbrev no_fields : Parsed
no_fields = record {
  title = none;
  authors = [];
  year = none;
  venue = none;
  abstract = none;
  doi = none;
}

abbrev one_if : Bool → ℕ
one_if b = if b then 1 else 0

unfoldable pub fields_found : Parsed → ℕ
fields_found p =
    one_if (has_text p.title)
    + one_if (non_empty p.authors)
    + one_if (has_number p.year)
    + one_if (has_text p.venue)

-- 0.70 + (fields_found / 4) * 0.20 in hundredths, then the cap
unfoldable pub answer_confidence : Settings → Parsed → ℕ
unfolding fields_found
answer_confidence s p = min (70 + 5 * fields_found p) s.llm_confidence_cap

-- The model is asked for the first 6,000 code points only, below the threshold only.
unfoldable pub extract_with_bedrock : Settings → (Text → Answer) → Text → ℕ → BedrockResult
unfolding answer_confidence
extract_with_bedrock s invoke_model raw_text current_confidence =
    if leb s.llm_confidence_threshold current_confidence
    then record { fields = no_fields; confidence = 0; invoked = false; error = none }
    else elim (invoke_model (take 6000 raw_text)) [
      | answered p ↦ record {
        fields = p;
        confidence = answer_confidence s p;
        invoked = true;
        error = none;
      }
      | raised message ↦ record {
        fields = no_fields;
        confidence = 0;
        invoked = true;
        error = some message;
      }
    ]
