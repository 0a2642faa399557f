-- ===== src/Ingest/Worker/Email.antt =====
-- `process_single_email` and `run_worker_loop` of module2-email-worker/app/worker.py, over the
-- attachments' loop and the publisher.
pub mod Steps
pub mod Laws
pub mod Effects
pub mod Marks
pub mod Built
pub mod Bucket
use Prim.Native.String
use prompt_flow_ai.Prelude.{
  ℕ, String, Bool, true, false, not, Option, none, some, List, [], ◌∷◌, ◌++◌, ltb, length,
  if◌then◌else◌,
}
use prompt_flow_ai.Prelude.Text.{Text, strip}
use prompt_flow_ai.Kafka.{Sent, returned, raised}
use prompt_flow_ai.Ingest.Mail.{
  Attachment, ParsedEmail, Settings, compute_text_hash, compute_idempotency_key, redact_pii,
}
use prompt_flow_ai.Ingest.Domain.{validate_domain}
use prompt_flow_ai.Ingest.Dedup.{is_duplicate, mark_processed}
use prompt_flow_ai.Ingest.Event.{AttachmentInfo, PaperIngestedV1, construct}
use prompt_flow_ai.Ingest.Worker.{
  Audit, email_domain_rejected, email_ingested, State, World, Marking, unlabelled, refused, broken,
  publish_event, Uploads, uploaded, aborted, failed, scan_and_upload,
}

-- `mark_message_read`; `none` is an exception that leaves it
unfoldable pub mark_message_read : Marking → String → State → Option State
mark_message_read unlabelled raw_id s = some (record s { read = raw_id ∷ s.read })
mark_message_read refused raw_id s = some s
mark_message_read broken raw_id s = none

-- The run returns once the message is marked, after what comes behind the mark.
unfoldable pub after_mark : Bool → (State → State) → State → Option State → Sent × State
after_mark result rest s none = (raised, s)
after_mark result rest s (some s') = (returned result, rest s')

-- The end of a run that skips the email.
unfoldable pub skip : World → String → State → Sent × State
unfolding after_mark mark_message_read
skip w raw_id s = after_mark false (λ s'. s') s (mark_message_read w.marking raw_id s)

abbrev pub log_audit : Audit → State → State
log_audit a s = record s { audit = s.audit ++ a ∷ [] }

-- The key of the email: its id and the name of its first attachment.
abbrev pub primary_filename : List Attachment → String
primary_filename [] = "no-attachment"
primary_filename (a ∷ _) = a.filename

unfoldable pub key_of : World → ParsedEmail → String
unfolding compute_idempotency_key
key_of w p = compute_idempotency_key w.sha256 p.message_id (primary_filename p.attachments)

unfoldable pub redacted : World → ParsedEmail → Text
unfolding redact_pii
redacted w p = (redact_pii w.pii p.body_text).redacted_text

-- step 8
unfoldable pub build_event :
    World → ParsedEmail → (redacted_text : Text) → List AttachmentInfo → Option PaperIngestedV1
unfolding key_of compute_text_hash construct
build_event w p redacted_text infos =
    construct w.now w.event_id
      (record {
        message_id = p.message_id;
        thread_id = p.in_reply_to;
        subject = p.subject;
        sender = p.sender;
        recipients = p.recipients;
        received_at = w.now;
        idempotency_key = key_of w p;
      })
      (record {
        raw_text = redacted_text;
        raw_text_hash = compute_text_hash w.sha256 redacted_text;
        language = "en";
        attachments = infos;
      })
      (record { attempts = []; worker_id = w.worker_id; processed_at = w.now })
      (record {
        pii_redacted = true;
        source_domain_verified = true;
        clamav_scanned = true;
        clamav_result = "CLEAN";
      })

unfoldable pub marked_end : World → String → ParsedEmail → State → Sent × State
unfolding after_mark mark_message_read
marked_end w raw_id p s =
    after_mark true (log_audit (email_ingested p.message_id)) s
      (mark_message_read w.marking raw_id s)

-- step 10 and the end
unfoldable pub finish : Settings → World → String → ParsedEmail → State → Sent × State
unfolding key_of mark_processed marked_end
finish c w raw_id p s =
    if w.redis_answers_mark
    then marked_end w raw_id p (record s {
      redis = mark_processed c w.now p.message_id (key_of w p) p.in_reply_to s.redis;
    })
    else (raised, s)

-- The end of step 9, by what `publish_event` returned.
unfoldable pub after_publish : Settings → World → String → ParsedEmail → Sent × State → Sent × State
unfolding finish
after_publish c w raw_id p (returned true, s) = finish c w raw_id p s
after_publish c w raw_id p (returned false, s) = (returned false, s)
after_publish c w raw_id p (raised, s) = (raised, s)

-- step 9
unfoldable pub publish_stage :
    Settings → World → String → ParsedEmail → PaperIngestedV1 → State → Sent × State
unfolding after_publish publish_event key_of
publish_stage c w raw_id p e s = after_publish c w raw_id p (publish_event c e (key_of w p) s)

unfoldable pub build_stage :
    Settings → World → String → ParsedEmail → Text → List AttachmentInfo → State → Sent × State
unfolding build_event publish_stage
build_stage c w raw_id p redacted_text infos s = elim (build_event w p redacted_text infos) [
  | none ↦ (returned false, s)
  | some e ↦ publish_stage c w raw_id p e s
]

-- steps 5 to 7
unfoldable pub attachment_stage :
    Settings → World → String → ParsedEmail → Text → State → Sent × State
unfolding scan_and_upload build_stage compute_text_hash key_of
attachment_stage c w raw_id p redacted_text s =
    let (uploads, s') =
      scan_and_upload c w p.message_id (key_of w p) (compute_text_hash w.sha256 redacted_text)
        p.attachments s in
    elim uploads [
      | uploaded infos ↦ build_stage c w raw_id p redacted_text infos s'
      | aborted ↦ (returned false, s')
      | failed ↦ (raised, s')
    ]

-- step 4
unfoldable pub text_stage : Settings → World → String → ParsedEmail → State → Sent × State
unfolding attachment_stage redacted strip skip
text_stage c w raw_id p s =
    if ltb (length (strip (redacted w p))) 50
    then skip w raw_id s
    else attachment_stage c w raw_id p (redacted w p) s

-- `is_duplicate` as the worker sees it
unfoldable pub seen_before : World → ParsedEmail → State → Bool
unfolding is_duplicate key_of
seen_before w p s = is_duplicate w.now p.message_id (key_of w p) p.in_reply_to p.references s.redis

-- step 3
unfoldable pub dedup_stage : Settings → World → String → ParsedEmail → State → Sent × State
unfolding text_stage seen_before skip
dedup_stage c w raw_id p s =
    if not w.redis_answers_check
    then (raised, s)
    else if seen_before w p s
    then skip w raw_id s
    else text_stage c w raw_id p s

-- steps 1 and 2; `none` is a message that `parse_email` fails on
unfoldable pub process_single_email :
    Settings → World → (raw_id : String) → Option ParsedEmail → State → Sent × State
unfolding dedup_stage validate_domain skip
process_single_email c w raw_id none s = (returned false, s)
process_single_email c w raw_id (some p) s =
    if validate_domain c p.sender
    then dedup_stage c w raw_id p s
    else skip w raw_id (log_audit (email_domain_rejected p.message_id) s)

-- A message of the mailbox and what its run meets.
pub record Message : Type 0 where
  pub raw_id : String
  pub parsed : Option ParsedEmail
  pub world : World

-- One poll: the messages in order; an exception leaves the rest of the batch for the next poll.
unfoldable pub run_batch : Settings → List Message → State → State
unfolding process_single_email
run_batch c [] s = s
run_batch c (m ∷ rest) s =
    let (sent, s') = process_single_email c m.world m.raw_id m.parsed s in
    let later = run_batch c rest s' in elim sent [ returned success ↦ later | raised ↦ s' ]

-- `run_worker_loop` over the first polls; a poll whose fetch raises has no messages.
unfoldable pub run_worker_loop : Settings → List (List Message) → State → State
unfolding run_batch
run_worker_loop c [] s = s
run_worker_loop c (messages ∷ polls) s = run_worker_loop c polls (run_batch c messages s)
