-- ===== src/Ingest/Worker/Email/Built.antt =====
-- The event that module2-email-worker/app/worker.py builds, as module3-ai-worker/app/models/schemas.py
-- and app/services/verification.py read it.
use mathlib.Core.Path.{subst}
use prompt_flow_ai.Prelude.{
  ◌≡◌, ◌+◌, ◌>>=◌, refl, sym, ap, ◌∙◌, Bool, true, false, not, ◌&&◌, Option, none, some, List, [],
  map, arith, leb, length, eq_refl, if◌then◌else◌,
}
use prompt_flow_ai.Prelude.Text.{Text, Bytes, strip}
use prompt_flow_ai.Ingest.Mail.{ParsedEmail, compute_text_hash}
use prompt_flow_ai.Ingest.Domain.{sender_must_be_srmap}
use prompt_flow_ai.Ingest.Event.{
  AttachmentInfo, PaperIngestedV1, ContentBlock, construct, validate_email, validate_content,
  validate_processing, validate_security, validate_event, hashes_match, guarded,
}
use prompt_flow_ai.Ingest.Worker.{World}
use prompt_flow_ai.Ingest.Worker.Email.{key_of, build_event}
use prompt_flow_ai.Extract.Payload.{IngestedAttachment, IngestedPayload, passes_validators}
use prompt_flow_ai.Extract.Verification.{Store, text_hash_matches}
use prompt_flow_ai.Extract.Pipeline.Safety.{IsClean}

-- The event, when the validators pass.
abbrev pub content_of : World → Text → List AttachmentInfo → ContentBlock
content_of w t infos = record {
  raw_text = strip t;
  raw_text_hash = compute_text_hash w.sha256 t;
  language = "en";
  attachments = infos;
}

abbrev pub event_of : World → ParsedEmail → Text → List AttachmentInfo → PaperIngestedV1
event_of w p t infos = record {
  event_id = w.event_id;
  contract_version = "v1";
  pipeline_status = "ingested";
  created_at = w.now;
  email = record {
    message_id = p.message_id;
    thread_id = p.in_reply_to;
    subject = p.subject;
    sender = p.sender;
    recipients = p.recipients;
    received_at = w.now;
    idempotency_key = key_of w p;
  };
  content = content_of w t infos;
  processing = record { attempts = []; worker_id = w.worker_id; processed_at = w.now };
  security = record {
    pii_redacted = true;
    source_domain_verified = true;
    clamav_scanned = true;
    clamav_result = "CLEAN";
  };
}

abbrev pub accepts : World → ParsedEmail → Text → List AttachmentInfo → Bool
accepts w p t infos =
    (sender_must_be_srmap p.sender && leb w.now (w.now + 300))
    && ((leb 50 (length t) && leb 50 (length (strip t)))
        && not (hashes_match (content_of w t infos)))

three_guards {ℓ κ μ} :
    {A : Type ℓ} {B : Type κ} {C : Type μ} (x y : Bool) (z : B → Bool) (m : A) (k : B)
    (f : A → B → C)
    → (guarded x m >>= (λ m. guarded y k >>= (λ k. guarded (z k) (f m k))))
      ≡ (if x && (y && z k) then some (f m k) else none)
three_guards true true z m k f = refl
three_guards true false z m k f = refl
three_guards false y z m k f = refl

build_event_lem :
    (w : World) (p : ParsedEmail) (t : Text) (infos : List AttachmentInfo)
    → build_event w p t infos ≡ (if accepts w p t infos then some (event_of w p t infos) else none)
unfolding build_event construct validate_email validate_content validate_processing
    validate_security validate_event
build_event_lem w p t infos =
    three_guards (sender_must_be_srmap p.sender && leb w.now (w.now + 300))
      (leb 50 (length t) && leb 50 (length (strip t))) (λ k. not (hashes_match k))
      (event_of w p t infos).email (content_of w t infos)
      (λ m k. record (event_of w p t infos) { email = m; content = k })

abbrev elim_or {ℓ} : {A : Type ℓ} → A → Option A → A
elim_or d none = d
elim_or d (some a) = a

if_some {ℓ} :
    {A : Type ℓ} (b : Bool) (x y : A) → (if b then some x else none) ≡ some y → (b ≡ true) × (x ≡ y)
if_some true x y h = (refl, ap (elim_or x) h)
if_some false x y h = ground arith

-- A built event is the one that the validators accept.
pub build_event-some :
    (w : World) (p : ParsedEmail) (t : Text) (infos : List AttachmentInfo) (e : PaperIngestedV1)
    → build_event w p t infos ≡ some e
    → (accepts w p t infos ≡ true) × (event_of w p t infos ≡ e)
build_event-some w p t infos e h = if_some _ _ e (sym (build_event_lem w p t infos) ∙ h)

-- The fields of the event's JSON that module 3 declares.
abbrev pub as_attachment : AttachmentInfo → IngestedAttachment
as_attachment i = record {
  filename = i.filename;
  content_type = i.content_type;
  size_bytes = i.size_bytes;
  checksum_sha256 = i.checksum_sha256;
  s3_key = i.s3_key;
  s3_bucket = i.s3_bucket;
}

abbrev pub payload_of : PaperIngestedV1 → IngestedPayload
payload_of e = record {
  event_id = e.event_id;
  contract_version = e.contract_version;
  pipeline_status = e.pipeline_status;
  created_at = e.created_at;
  email = record {
    message_id = e.email.message_id;
    subject = e.email.subject;
    sender = e.email.sender;
    recipients = e.email.recipients;
    received_at = e.email.received_at;
    idempotency_key = e.email.idempotency_key;
  };
  content = record {
    raw_text = e.content.raw_text;
    raw_text_hash = e.content.raw_text_hash;
    attachments = map as_attachment e.content.attachments;
  };
  security = record {
    pii_redacted = e.security.pii_redacted;
    source_domain_verified = e.security.source_domain_verified;
    clamav_scanned = e.security.clamav_scanned;
    clamav_result = e.security.clamav_result;
  };
}

-- What module 3 finds of an event of module 2.
pub record IsAccepted (st : Store) (e : PaperIngestedV1) : Type 0 where
  pub valid : passes_validators (payload_of e) ≡ true
  pub clean : IsClean (payload_of e)
  pub hash_ok :
      text_hash_matches st (payload_of e).content.raw_text (payload_of e).content.raw_text_hash
      ≡ true

third : (a b c d : Bool) → (a && ((b && c) && d)) ≡ true → c ≡ true
third a b c d h = ground arith

event-IsAccepted :
    (w : World) (st : Store) (p : ParsedEmail) (t : Text) (infos : List AttachmentInfo)
    → ((b : Bytes) → st.sha256 b ≡ w.sha256 b)
    → strip t ≡ t
    → accepts w p t infos ≡ true
    → IsAccepted st (event_of w p t infos)
unfolding passes_validators text_hash_matches compute_text_hash
event-IsAccepted w st p t infos same stripped h = record {
  valid =
      third (sender_must_be_srmap p.sender && leb w.now (w.now + 300)) (leb 50 (length t))
        (leb 50 (length (strip t))) _ h;
  clean = record { redacted = refl; verified = refl; scanned = refl };
  hash_ok = rw (stripped, same) (eq_refl _);
}

-- An event that module 2 builds from a text without white space at its ends passes the validators, the security checks
-- and the text-hash check of module 3, when both compute the same SHA-256.
pub build_event-IsAccepted :
    (w : World) (st : Store) (p : ParsedEmail) (t : Text) (infos : List AttachmentInfo)
    (e : PaperIngestedV1)
    → ((b : Bytes) → st.sha256 b ≡ w.sha256 b)
    → strip t ≡ t
    → build_event w p t infos ≡ some e
    → IsAccepted st e
build_event-IsAccepted w st p t infos e same stripped h =
    let (ok, is) = build_event-some w p t infos e h in
    subst (IsAccepted st) is (event-IsAccepted w st p t infos same stripped ok)
