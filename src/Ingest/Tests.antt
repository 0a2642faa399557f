-- ===== src/Ingest/Tests.antt =====
-- Concrete runs of module 2, and its theorems at them.
use prompt_flow_ai.Prelude.{
  ℕ, ◌≡◌, ◌⊎◌, refl, inl, inr, String, true, false, none, some, List, [], ◌∷◌, ◌++◌, arith, any,
  eq_iff, ◌==◌, if◌then◌else◌,
}
use prompt_flow_ai.Prelude.Text.{Text, Bytes, codes, strip}
use prompt_flow_ai.Redis.{empty, exists, setex}
use prompt_flow_ai.Redis.Memory.{memory}
use prompt_flow_ai.Kafka.{kafka_exception, Record, returned, attempts, settled}
use prompt_flow_ai.Ingest.Mail.{Attachment, ParsedEmail, settings, PiiPatterns}
use prompt_flow_ai.Ingest.Domain.{validate_domain, sender_must_be_srmap}
use prompt_flow_ai.Ingest.Dedup.{is_duplicate, mark_processed}
use prompt_flow_ai.Ingest.Dedup.Laws.{is_duplicate-mark_processed, Repeats}
use prompt_flow_ai.Ingest.Scan.{Daemon, answers, request, scan_bytes, requires_quarantine}
use prompt_flow_ai.Ingest.Scan.Framing.{receive, request-receive}
use prompt_flow_ai.Ingest.Upload
use prompt_flow_ai.Ingest.Upload.Laws.{IsFinished, multipart_upload-IsFinished}
use prompt_flow_ai.Ingest.Event.{PaperIngestedV1}
use prompt_flow_ai.Ingest.Worker.{
  unlabelled, Value, State, World, scan_and_upload, attachment_info, object_key,
}
use prompt_flow_ai.Ingest.Worker.Email.{key_of, build_event, process_single_email}
use prompt_flow_ai.Ingest.Worker.Email.Steps.{within, is_refused}
use prompt_flow_ai.Ingest.Worker.Email.Laws.{IsIngested}
use prompt_flow_ai.Ingest.Worker.Email.Effects.{IsRecordOf, process_single_email-Grows}
use prompt_flow_ai.Ingest.Worker.Email.Marks.{
  Marks, IsSkipped, process_single_email-Marks, refused_sends_nothing, ingested_once,
}
use prompt_flow_ai.Ingest.Worker.Email.Built.{event_of, IsAccepted, build_event-IsAccepted}
use prompt_flow_ai.Ingest.Worker.Email.Bucket.{
  is_uploaded, latest, last_with, scan_and_upload-latest,
}
use prompt_flow_ai.Extract.Verification.{Store, downloaded, encode}

-- What the definitions compute through.
ingestion : Unit {0}
unfolding process_single_email build_event scan_and_upload scan_bytes requires_quarantine exists
    setex settled attempts validate_domain sender_must_be_srmap object_key attachment_info key_of
    strip encode
ingestion = tt

abbrev pii : PiiPatterns
pii = record { subn_email = λ t. (t, 0); subn_student_id = λ t. (t, 0); subn_phone = λ t. (t, 0) }

-- A digest that tells the two files and the text apart.
abbrev digest : Bytes → String
digest [] = "empty"
digest (b ∷ _) = if b == 1 then "one" else if b == 2 then "two" else "text"

abbrev daemon : Bytes → Daemon
daemon [] = answers (codes "stream: OK")
daemon (b ∷ _) =
    answers (if b == 9 then codes "stream: Eicar-Test-Signature FOUND" else codes "stream: OK")

abbrev world_at : ℕ → World
world_at now = record {
  now = now;
  date_path = "2026/01/01";
  sha256 = digest;
  redis_answers_check = true;
  redis_answers_mark = true;
  bucket_takes = λ k. true;
  daemon = daemon;
  pii = pii;
  event_id = "event";
  worker_id = "worker-a";
  marking = unlabelled;
}

abbrev body : Text
body = codes "Please find attached the published version of the paper."

abbrev first_file : Attachment
first_file = record {
  filename = "paper.pdf";
  content_type = "application/pdf";
  raw_bytes = 1 ∷ 1 ∷ [];
}

abbrev second_file : Attachment
second_file = record {
  filename = "paper.pdf";
  content_type = "application/pdf";
  raw_bytes = 2 ∷ [];
}

abbrev infected_file : Attachment
infected_file = record {
  filename = "virus.exe";
  content_type = "application/pdf";
  raw_bytes = 9 ∷ [];
}

abbrev email_with : List Attachment → ParsedEmail
email_with files = record {
  message_id = "<m1>";
  in_reply_to = none;
  references = none;
  subject = "Paper";
  sender = codes "Ada@SRMAP.edu.in";
  recipients = "papers@srmap.edu.in" ∷ [];
  body_text = body;
  attachments = files;
}

abbrev start : State
start = record {
  redis = empty memory;
  broker = record { log = []; schedule = kafka_exception ∷ [] };
  ingestion = [];
  quarantine = [];
  read = [];
  audit = [];
}

abbrev files : List Attachment
files = first_file ∷ second_file ∷ []

-- A retried publish succeeds.
succeeds :
    (process_single_email settings (world_at 100) "raw" (some (email_with files)) start).0
    ≡ returned true
unfolding ingestion
succeeds = refl

in_domain : validate_domain settings (codes "Ada@SRMAP.edu.in") ≡ true
unfolding ingestion
in_domain = refl

same_key : Repeats "<m1>" "key" none "<m2>" "key" none
same_key = inr (inl (refl, ground (arith, eq_iff "key" "")))

is_duplicate-mark_processed_example :
    is_duplicate 20 "<m2>" "key" none none
      (mark_processed settings 10 "<m1>" "key" none (empty memory))
    ≡ true
is_duplicate-mark_processed_example =
    is_duplicate-mark_processed settings 10 20 "<m1>" "key" none "<m2>" "key" none none
      (empty memory) (omega arith) same_key

request-receive_example :
    (framed : Bytes) × (request (1 ∷ 2 ∷ []) ≡ codes "zINSTREAM" ++ 0 ∷ framed)
    × (receive 3 framed ≡ some (1 ∷ 2 ∷ []))
request-receive_example = request-receive (1 ∷ 2 ∷ [])

process_single_email-Grows_example :
    let log' =
      (process_single_email settings
        (world_at 100)
        "raw"
        (some (email_with files))
        start).1.broker.log in
    (log' ≡ [])
    ⊎ ((e : PaperIngestedV1) × (r : Record Value) × (log' ≡ [] ++ r ∷ [])
        × IsRecordOf settings (key_of (world_at 100) (email_with files)) e r
        × IsIngested settings (world_at 100) (email_with files) start e)
process_single_email-Grows_example =
    process_single_email-Grows settings (world_at 100) "raw" (email_with files) start

process_single_email-Marks_example :
    Marks settings
      (world_at 100)
      "raw"
      (email_with files)
      start
      (process_single_email settings (world_at 100) "raw" (some (email_with files)) start)
process_single_email-Marks_example =
    process_single_email-Marks settings (world_at 100) "raw" (email_with files) start

is_infected :
    any (is_refused (world_at 100)) (within settings (first_file ∷ infected_file ∷ [])) ≡ true
unfolding ingestion
is_infected = refl

refused_sends_nothing_example :
    let s' =
      (process_single_email settings
        (world_at 100)
        "raw"
        (some (email_with (first_file ∷ infected_file ∷ [])))
        start).1 in
    (s'.broker ≡ start.broker) × (s'.redis ≡ start.redis)
refused_sends_nothing_example =
    refused_sends_nothing settings (world_at 100) "raw"
      (email_with (first_file ∷ infected_file ∷ [])) start is_infected

same_id :
    Repeats "<m1>"
      (key_of (world_at 100) (email_with files))
      none
      "<m1>"
      (key_of (world_at 200) (email_with []))
      none
same_id = inl (refl, ground (arith, eq_iff "<m1>" ""))

ingested_once_example :
    let s' =
      (process_single_email settings (world_at 100) "raw" (some (email_with files)) start).1 in
    IsSkipped unlabelled "raw2" s'
      (process_single_email settings (world_at 200) "raw2" (some (email_with [])) s')
ingested_once_example =
    ingested_once settings (world_at 100) (world_at 200) "raw" "raw2" (email_with files)
      (email_with []) start succeeds in_domain refl (omega arith) same_id

is_built :
    build_event (world_at 100) (email_with []) body []
    ≡ some (event_of (world_at 100) (email_with []) body [])
unfolding ingestion
is_built = refl

abbrev store : Store
store = record { sha256 = digest; get_object = λ bucket key. downloaded [] }

is_stripped : strip body ≡ body
unfolding ingestion
is_stripped = refl

build_event-IsAccepted_example : IsAccepted store (event_of (world_at 100) (email_with []) body [])
build_event-IsAccepted_example =
    build_event-IsAccepted (world_at 100) store (email_with []) body []
      (event_of (world_at 100) (email_with []) body []) (λ b. refl) is_stripped is_built

abbrev paper_key : String
paper_key = "attachments/2026/01/01/k/paper.pdf"

both_uploaded :
    is_uploaded (scan_and_upload settings (world_at 100) "<m1>" "k" "h" files start).0 ≡ true
unfolding ingestion
both_uploaded = refl

scan_and_upload-latest_example :
    latest paper_key
      (scan_and_upload settings (world_at 100) "<m1>" "k" "h" files start).1.ingestion
    ≡ last_with (world_at 100) "k" paper_key (within settings files) none
scan_and_upload-latest_example =
    scan_and_upload-latest settings (world_at 100) "<m1>" "k" "h" files start paper_key
      both_uploaded

-- A file of one part, whose completion fails.
abbrev calls : Upload.Calls
calls = record {
  create_works = true;
  part_works = λ n. true;
  complete_works = false;
  abort_works = true;
}

abbrev bucket : Upload.Bucket
bucket = record { objects = []; open_uploads = [] }

multipart_upload-IsFinished_example :
    IsFinished calls "key"
      (1 ∷ 2 ∷ [])
      bucket
      (Upload.multipart_upload calls "key" (1 ∷ 2 ∷ []) bucket)
multipart_upload-IsFinished_example = multipart_upload-IsFinished calls "key" (1 ∷ 2 ∷ []) bucket
