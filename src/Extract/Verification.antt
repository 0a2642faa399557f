-- ===== src/Extract/Verification.antt =====
-- module3-ai-worker/app/services/verification.py. SHA-256 of a byte string and the download from
-- S3 are parameters.
use prompt_flow_ai.Prelude.{
  ℕ, String, Bool, false, not, ◌&&◌, Option, none, some, [], ◌∷◌, ◌++◌, str_eq, is_some, ltb, ◌+◌,
  ◌/◌, ◌%◌, if◌then◌else◌,
}
use prompt_flow_ai.Prelude.Text.{Text, Bytes, codes, strip}

-- `chr(c).encode("utf-8")`
encode_code : ℕ → Bytes
encode_code c =
    if ltb c 128
    then c ∷ []
    else if ltb c 2048
    then (192 + c / 64) ∷ (128 + c % 64) ∷ []
    else if ltb c 65536
    then (224 + c / 4096) ∷ (128 + c / 64 % 64) ∷ (128 + c % 64) ∷ []
    else (240 + c / 262144) ∷ (128 + c / 4096 % 64) ∷ (128 + c / 64 % 64) ∷ (128 + c % 64) ∷ []

unfoldable pub encode : Text → Bytes
unfolding encode_code
encode [] = []
encode (c ∷ s) = encode_code c ++ encode s

pub data Download : Type 0 where
  downloaded : Bytes → Download
  failed : (message : Text) → Download

-- The digest is the hexadecimal one.
pub record Store : Type 0 where
  pub sha256 : Bytes → String
  pub get_object : (bucket key : String) → Download

pub record VerificationResult : Type 0 where
  pub passed : Bool
  pub file_hash_ok : Bool
  pub text_hash_ok : Bool
  pub failure_reason : Option Text
  pub file_bytes : Option Bytes

unfoldable pub text_hash_matches : Store → Text → String → Bool
unfolding encode
text_hash_matches st raw_text raw_text_hash = str_eq (st.sha256 (encode raw_text)) raw_text_hash

file_hash_of : Store → String → Download → Bool
file_hash_of st checksum (downloaded bytes) = str_eq (st.sha256 bytes) checksum
file_hash_of st checksum (failed message) = false

download_reason : Download → Option Text
download_reason (downloaded bytes) = none
download_reason (failed message) = some (codes "S3 download error: " ++ message)

bytes_of : Download → Option Bytes
bytes_of (downloaded bytes) = some bytes
bytes_of (failed message) = none

abbrev or_empty : Option Text → Text
or_empty none = []
or_empty (some t) = t

-- the two `if`s that complete `failure_reason`, and its final `strip`
reason_of : Bool → Bool → Option Text → Option Text
unfolding strip
reason_of text_ok file_ok r =
    let r1 = if text_ok then r else some (or_empty r ++ codes " text_hash_mismatch") in
    let r2 =
      if not file_ok && not (is_some r1) then some (codes "file_checksum_mismatch") else r1 in
    elim r2 [ none ↦ none | some t ↦ some (strip t) ]

unfoldable pub verify_integrity :
    Store
    → (raw_text : Text) (raw_text_hash s3_bucket s3_key checksum_sha256 : String)
    → VerificationResult
unfolding text_hash_matches file_hash_of download_reason bytes_of reason_of
verify_integrity st raw_text raw_text_hash s3_bucket s3_key checksum_sha256 =
    let text_hash_ok = text_hash_matches st raw_text raw_text_hash in
    let d = st.get_object s3_bucket s3_key in
    let file_hash_ok = file_hash_of st checksum_sha256 d in
    let passed = text_hash_ok && file_hash_ok in
    record {
      passed = passed;
      file_hash_ok = file_hash_ok;
      text_hash_ok = text_hash_ok;
      failure_reason = reason_of text_hash_ok file_hash_ok (download_reason d);
      file_bytes = if passed then bytes_of d else none;
    }
