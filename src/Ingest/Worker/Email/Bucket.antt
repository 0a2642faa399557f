-- ===== src/Ingest/Worker/Email/Bucket.antt =====
-- What the ingestion bucket holds after the attachments' loop of module2-email-worker/app/worker.py.
use prompt_flow_ai.Prelude.{
  ◌≡◌, refl, sym, ap, ◌∙◌, String, Bool, true, false, Option, none, some, List, [], ◌∷◌, arith, inl,
  inr, Bool-cases, str_eq, if◌then◌else◌,
}
use prompt_flow_ai.Prelude.Text.{Bytes}
use prompt_flow_ai.Ingest.Mail.{Attachment, Settings}
use prompt_flow_ai.Ingest.Event.{AttachmentInfo}
use prompt_flow_ai.Ingest.Worker.{
  Object, State, World, Uploads, uploaded, aborted, failed, quarantine_step, scan_and_upload,
  object_key, add,
}
use prompt_flow_ai.Ingest.Worker.Email.Steps.{
  within, skips, collides, refuses, stores, fails, scan_and_upload-First, stored_state,
}

-- The object under a key: the one that was put last.
abbrev pub latest : String → List Object → Option Bytes
latest key [] = none
latest key (o ∷ os) =
    let older = latest key os in if str_eq o.s3_key key then some o.body else older

-- The bytes of the last attachment whose object has the key.
abbrev pub last_with :
    World → (idempotency_key key : String) → List Attachment → Option Bytes → Option Bytes
last_with w k key [] held = held
last_with w k key (a ∷ rest) held =
    last_with w k key rest
      (if str_eq (object_key w "attachments" k a.filename) key then some a.raw_bytes else held)

-- The loop ended with infos.
abbrev pub is_uploaded : Uploads → Bool
is_uploaded (uploaded infos) = true
is_uploaded aborted = false
is_uploaded failed = false

add-is_uploaded : (i : AttachmentInfo) (u : Uploads) → is_uploaded (add i u) ≡ is_uploaded u
add-is_uploaded i (uploaded is) = refl
add-is_uploaded i aborted = refl
add-is_uploaded i failed = refl

quarantine-is_uploaded :
    (w : World) (m k : String) (a : Attachment) (s : State)
    → is_uploaded (quarantine_step w m k a s).0 ≡ false
unfolding quarantine_step
quarantine-is_uploaded w m k a s =
    elim (Bool-cases (w.bucket_takes (object_key w "quarantine" k a.filename))) [
      | inl e ↦ rw e refl
      | inr e ↦ rw e refl
    ]

-- When the loop over the attachments completes, the ingestion bucket holds under every key the bytes of the last attachment within the size
-- limit whose object has that key, and what it held before when there is none: of two attachments with the same file name only the second is kept.
pub scan_and_upload-latest :
    (c : Settings) (w : World) (m k h : String) (files : List Attachment) (s : State) (key : String)
    → is_uploaded (scan_and_upload c w m k h files s).0 ≡ true
    → latest key (scan_and_upload c w m k h files s).1.ingestion
      ≡ last_with w k key (within c files) (latest key s.ingestion)
unfolding scan_and_upload
scan_and_upload-latest c w m k h [] s key done = refl
scan_and_upload-latest c w m k h (a ∷ rest) s key done =
    elim (scan_and_upload-First c w m k h a rest s) [
      | skips t e ↦
          ap (λ r. latest key r.1.ingestion) e
          ∙ scan_and_upload-latest c w m k h rest s key (sym (ap (λ r. is_uploaded r.0) e) ∙ done)
          ∙ rw t refl
      | collides _ e ↦ absurd (no (sym (ap (λ r. is_uploaded r.0) e) ∙ done))
      | refuses _ _ e ↦
          absurd (no (sym (ap (λ r. is_uploaded r.0) e ∙ quarantine-is_uploaded w m k a s) ∙ done))
      | stores t _ e ↦
          ap (λ r. latest key r.1.ingestion) e
          ∙ scan_and_upload-latest c w m k h rest (stored_state w k a s) key
              (sym (ap (λ r. is_uploaded r.0) e ∙ add-is_uploaded _ _) ∙ done)
          ∙ rw t refl
      | fails _ e ↦ absurd (no (sym (ap (λ r. is_uploaded r.0) e) ∙ done))
    ]
  where
    no : false ≡ true → ⊥
    no e = ground arith
