-- ===== src/Storage/Schemas.antt =====
-- module4-storage/app/models/schemas.py: the payload that the consumer reads, `PaperCreate` and its
-- validators. The dictionaries of the payload are records of fields that may be absent or null.
use prompt_flow_ai.Prelude.{
  ℕ, ◌+◌, String, Bool, true, ◌&&◌, ◌||◌, Option, none, some, List, [], ◌∷◌, leb, length, non_empty,
  ◌==◌, any, not,
}
use prompt_flow_ai.Prelude.Text.{Text, codes, text_eq}

-- A value under a key of a dictionary.
pub data Field {ℓ} (A : Type ℓ) : Type ℓ where
  absent : Field A
  null : Field A
  present : A → Field A

-- `d.get(key, default)`; `none` is `None`
abbrev pub get {ℓ} : {A : Type ℓ} → A → Field A → Option A
get default absent = some default
get default null = none
get default (present a) = some a

-- `d.get(key)`
abbrev pub get_or_none {ℓ} : {A : Type ℓ} → Field A → Option A
get_or_none absent = none
get_or_none null = none
get_or_none (present a) = some a

pub record RawAuthor : Type 0 where
  pub name : Field Text
  pub affiliation : Field Text
  pub order : Field ℕ

pub data RawAuthors : Type 0 where
  absent : RawAuthors
  null : RawAuthors
  one_name : Text → RawAuthors
  entries : List RawAuthor → RawAuthors

pub record RawAttachment : Type 0 where
  pub filename : Field Text
  pub uri : Field Text
  pub s3_uri : Field Text
  pub checksum_sha256 : Field Text
  pub checksum : Field Text

pub record KafkaPayload : Type 0 where
  pub extraction_id : Text
  pub idempotency_key : String
  -- `trace_id_uuid or event_id`
  pub trace_id : ℕ
  -- routing_decision
  pub final_action : Field String
  pub overall_confidence : Field ℕ
  -- extraction_result.metadata
  pub title : Field Text
  pub authors : RawAuthors
  pub venue : Field Text
  pub journal : Field Text
  pub year : Field ℕ
  pub doi : Field Text
  pub paper_type : Field Text
  -- enriched_context
  pub faculty_id : Field Text
  pub faculty_email : Field Text
  pub department_code : Field Text
  -- content_reference
  pub raw_text_hash : Field Text
  pub attachments : List RawAttachment

pub record Author : Type 0 where
  pub name : Text
  pub affiliation : Option Text
  pub order : ℕ

pub record Attachment : Type 0 where
  pub filename : Text
  pub uri : Text
  pub checksum_sha256 : Text

pub data Status : Type 0 where
  published draft rejected pending_review : Status

pub record PaperCreate : Type 0 where
  pub ingestion_idempotency_key : Text
  pub extraction_id : Text
  pub title : Text
  pub authors : List Author
  pub venue : Option Text
  pub year : ℕ
  pub doi : Option Text
  pub paper_type : Text
  pub faculty_id : Text
  pub faculty_email : Text
  pub department_code : Text
  pub status : Status
  pub overall_confidence : ℕ
  pub raw_text_hash : Text
  pub attachment_uris : List Attachment
  pub embedding : Option (List ℕ)

abbrev pub within : ℕ → Option Text → Bool
within n none = true
within n (some t) = leb (length t) n

is_hex : ℕ → Bool
is_hex c = leb 48 c && leb c 57 || leb 97 c && leb c 102

-- the pattern ^[a-f0-9]{64}$
is_digest : Text → Bool
unfolding is_hex
is_digest t = length t == 64 && not (any (λ c. not (is_hex c)) t)

valid_author : Author → Bool
valid_author a = leb 1 (length a.name) && leb (length a.name) 300 && leb 1 a.order

valid_attachment : Attachment → Bool
unfolding is_digest
valid_attachment a = non_empty a.filename && non_empty a.uri && is_digest a.checksum_sha256

unfoldable pub is_paper_type : Text → Bool
is_paper_type t = any (text_eq t) (
    codes "journal"
    ∷ codes "conference"
    ∷ codes "thesis"
    ∷ codes "book_chapter"
    ∷ codes "unknown"
    ∷ [])

unfoldable pub valid_embedding : Option (List ℕ) → Bool
valid_embedding none = true
valid_embedding (some v) = length v == 768

-- The constraints of the fields, in order; the first argument is the current year.
unfoldable pub valid_paper : ℕ → PaperCreate → Bool
unfolding is_digest valid_author valid_attachment is_paper_type valid_embedding
valid_paper current_year p =
    leb 8 (length p.ingestion_idempotency_key)
    && leb (length p.ingestion_idempotency_key) 64
    && leb 10 (length p.title)
    && non_empty p.authors
    && not (any (λ a. not (valid_author a)) p.authors)
    && within 500 p.venue
    && leb 2000 p.year
    && leb p.year (current_year + 1)
    && within 200 p.doi
    && is_paper_type p.paper_type
    && leb (length p.faculty_email) 200
    && leb (length p.department_code) 20
    && leb p.overall_confidence 10000
    && is_digest p.raw_text_hash
    && not (any (λ a. not (valid_attachment a)) p.attachment_uris)
    && valid_embedding p.embedding
