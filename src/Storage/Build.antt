-- ===== src/Storage/Build.antt =====
-- `_map_topic_to_status` and `_build_paper_create` of module4-storage/app/consumer.py.
pub mod Laws
pub mod Nulls
use Prim.Native.String
use prompt_flow_ai.Prelude.{
  ℕ, suc, zero, ◌+◌, ◌-◌, ◌>>=◌, String, Bool, true, false, Option, none, some, List, [], ◌∷◌, ◌++◌,
  leb, ltb, length, take, non_empty, str_eq, if◌then◌else◌,
}
use prompt_flow_ai.Prelude.Text.{Text, codes}
use prompt_flow_ai.Extract.Truth.{or_text}
use prompt_flow_ai.Storage.Schemas.{
  Field, get, get_or_none, RawAuthor, RawAuthors, RawAttachment, KafkaPayload, Author, Attachment,
  Status, published, draft, rejected, pending_review, PaperCreate, valid_paper,
}
use prompt_flow_ai.Storage.Schemas

unfoldable pub map_topic_to_status : (topic action : String) → Status
map_topic_to_status topic action =
    if str_eq action "AUTO_SAVE"
    then published
    else if str_eq action "REVIEW_REQUIRED"
    then pending_review
    else if str_eq action "BLOCK"
    then rejected
    else draft

-- What the builder takes from outside: `uuid.UUID` of a text, a random identifier, the embedding
-- model, where `none` is an exception, and the current year.
pub record Tools : Type 0 where
  pub parse_uuid : Text → Option Text
  pub uuid4 : Text
  pub generate_embedding : (title : Text) (venue : Option Text) → Option (List ℕ)
  pub current_year : ℕ

-- A missing or null name, like a null order, ends in a validator that raises.
build_author : ℕ → RawAuthor → Option Author
build_author i a = do
  name ← get (codes "Unknown") a.name
  order ← get (i + 1) a.order
  some (record { name = name; affiliation = get_or_none a.affiliation; order = order })

build_authors : ℕ → List RawAuthor → Option (List Author)
unfolding build_author
build_authors i [] = some []
build_authors i (a ∷ rest) = do b ← build_author i a; bs ← build_authors (suc i) rest; some (b ∷ bs)

-- `None` is no sequence: `enumerate` raises
authors_of : RawAuthors → Option (List Author)
unfolding build_authors
authors_of RawAuthors.absent = some []
authors_of RawAuthors.null = none
authors_of (RawAuthors.one_name t) = some (record { name = t; affiliation = none; order = 1 } ∷ [])
authors_of (RawAuthors.entries as_given) = build_authors 0 as_given

or_unknown : List Author → List Author
or_unknown [] = record { name = codes "Unknown Author"; affiliation = none; order = 1 } ∷ []
or_unknown (a ∷ rest) = a ∷ rest

zeros : ℕ → Text
zeros zero = []
zeros (suc n) = 48 ∷ zeros n

or_given : Field Text → Option Text → Option Text
or_given Field.absent default = default
or_given Field.null default = none
or_given (Field.present t) default = some t

build_attachment : RawAttachment → Option Attachment
unfolding or_given zeros
build_attachment a = do
  filename ← get (codes "unknown") a.filename
  uri ← or_given a.uri (get [] a.s3_uri)
  checksum ← or_given a.checksum_sha256 (get (zeros 64) a.checksum)
  some (record { filename = filename; uri = uri; checksum_sha256 = checksum })

build_attachments : List RawAttachment → Option (List Attachment)
unfolding build_attachment
build_attachments [] = some []
build_attachments (a ∷ rest) = do b ← build_attachment a; bs ← build_attachments rest; some (b ∷ bs)

-- `idem_key[:64].ljust(64, "0") if len(idem_key) < 64 else idem_key[:64]`
unfoldable pub stored_key : Text → Text
unfolding zeros
stored_key k = if ltb (length k) 64 then take 64 k ++ zeros (64 - length k) else take 64 k

abbrev pub action_of : KafkaPayload → String
action_of p = elim (get "REVIEW_REQUIRED" p.final_action) [ none ↦ "" | some a ↦ a ]

is_published : Status → Bool
is_published published = true
is_published draft = false
is_published rejected = false
is_published pending_review = false

-- The arguments of `PaperCreate`.
unfoldable pub paper_of :
    Tools
    → KafkaPayload
    → (topic : String) → List Author
    → List Attachment
    → (extraction_id title : Text) → (year : ℕ)
    → (paper_type faculty_id faculty_email department_code : Text) → (overall_confidence : ℕ)
    → (raw_text_hash : Text) → PaperCreate
unfolding map_topic_to_status or_unknown stored_key is_published
paper_of t p topic authors attachments extraction_id title year paper_type faculty_id faculty_email
      department_code overall_confidence raw_text_hash =
    let status = map_topic_to_status topic (action_of p) in
    let venue = or_text (get_or_none p.venue) (get_or_none p.journal) in
    record {
      ingestion_idempotency_key = stored_key (codes p.idempotency_key);
      extraction_id = extraction_id;
      title = title;
      authors = or_unknown authors;
      venue = venue;
      year = year;
      doi = get_or_none p.doi;
      paper_type = paper_type;
      faculty_id = faculty_id;
      faculty_email = faculty_email;
      department_code = department_code;
      status = status;
      overall_confidence = overall_confidence;
      raw_text_hash = raw_text_hash;
      attachment_uris = attachments;
      embedding = if is_published status then t.generate_embedding title venue else none;
    }

-- `none` is an exception, of the builder or of a validator.
unfoldable pub build_paper_create : Tools → KafkaPayload → (topic : String) → Option PaperCreate
unfolding paper_of authors_of build_attachments valid_paper zeros
build_paper_create t p topic = do
  authors ← authors_of p.authors
  attachments ← build_attachments p.attachments
  extraction_id ← t.parse_uuid p.extraction_id
  title ← get (codes "Untitled Paper") p.title
  year ← get 2024 p.year
  paper_type ← get (codes "unknown") p.paper_type
  faculty ← get t.uuid4 p.faculty_id
  faculty_id ← t.parse_uuid faculty
  faculty_email ← get (codes "unknown@srmap.edu.in") p.faculty_email
  department_code ← get (codes "UNKNOWN") p.department_code
  overall_confidence ← get 0 p.overall_confidence
  raw_text_hash ← get (zeros 64) p.raw_text_hash
  let paper =
        paper_of t p topic authors attachments extraction_id title year paper_type faculty_id
          faculty_email department_code overall_confidence raw_text_hash in
      if valid_paper t.current_year paper then some paper else none
