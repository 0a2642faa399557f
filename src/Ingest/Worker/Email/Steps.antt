-- ===== src/Ingest/Worker/Email/Steps.antt =====
-- What the attachments' loop and the publisher of module2-email-worker leave as it was, and what
-- stands behind their results.
use mathlib.Core.Path.{subst}
use prompt_flow_ai.Prelude.{
  ◌≡◌, refl, sym, ap, String, Bool, true, false, List, [], ◌∷◌, map, any, inl, inr, Bool-cases,
  str_eq, if◌then◌else◌,
}
use prompt_flow_ai.Ingest.Mail.{Attachment, Settings, compute_file_checksum}
use prompt_flow_ai.Ingest.Scan.{scan_bytes, requires_quarantine}
use prompt_flow_ai.Ingest.Event.{AttachmentInfo}
use prompt_flow_ai.Ingest.Worker.{
  State, World, Uploads, uploaded, aborted, failed, attachment_info, too_large, quarantine_step,
  scan_and_upload, object_key, add,
}

-- The attachments that are not skipped for their size.
abbrev pub within : Settings → List Attachment → List Attachment
within c [] = []
within c (a ∷ rest) = let kept = within c rest in if too_large c a then kept else a ∷ kept

-- The attachments that the scan sends to quarantine.
abbrev pub is_refused : World → Attachment → Bool
is_refused w a = requires_quarantine (scan_bytes (w.daemon a.raw_bytes))

-- The state in which a safe file is stored.
abbrev pub stored_state : World → String → Attachment → State → State
stored_state w k a s = record s {
  ingestion =
      record { s3_key = object_key w "attachments" k a.filename; body = a.raw_bytes } ∷ s.ingestion;
}

-- What the loop does with its first attachment.
pub data First (c : Settings) (w : World) (m k h : String) (a : Attachment) (rest : List Attachment)
    (s : State) : Type 0 where
  skips :
      too_large c a ≡ true
      → scan_and_upload c w m k h (a ∷ rest) s ≡ scan_and_upload c w m k h rest s
      → First c w m k h a rest s
  collides :
      too_large c a ≡ false
      → scan_and_upload c w m k h (a ∷ rest) s ≡ (aborted, s)
      → First c w m k h a rest s
  refuses :
      too_large c a ≡ false
      → is_refused w a ≡ true
      → scan_and_upload c w m k h (a ∷ rest) s ≡ quarantine_step w m k a s
      → First c w m k h a rest s
  stores :
      too_large c a ≡ false
      → is_refused w a ≡ false
      → scan_and_upload c w m k h (a ∷ rest) s ≡ (
        add (attachment_info c w k a) (scan_and_upload c w m k h rest (stored_state w k a s)).0,
        (scan_and_upload c w m k h rest (stored_state w k a s)).1,
      )
      → First c w m k h a rest s
  fails :
      too_large c a ≡ false
      → scan_and_upload c w m k h (a ∷ rest) s ≡ (failed, s)
      → First c w m k h a rest s

pub scan_and_upload-First :
    (c : Settings) (w : World) (m k h : String) (a : Attachment) (rest : List Attachment)
    (s : State)
    → First c w m k h a rest s
unfolding scan_and_upload attachment_info
scan_and_upload-First c w m k h a rest s = elim (Bool-cases (too_large c a)) [
  | inl e ↦ skips e (rw e refl)
  | inr e ↦ elim (Bool-cases (str_eq (compute_file_checksum w.sha256 a.raw_bytes) h)) [
    | inl f ↦ collides e (rw (e, f) refl)
    | inr f ↦ elim (Bool-cases (is_refused w a)) [
      | inl g ↦ refuses e g (rw (e, f, g) refl)
      | inr g ↦ elim (Bool-cases (w.bucket_takes (object_key w "attachments" k a.filename))) [
        | inl b ↦ stores e g (rw (e, f, g, b) refl)
        | inr b ↦ fails e (rw (e, f, g, b) refl)
      ]
    ]
  ]
]

-- The loop writes no mark, sends nothing to Kafka, and reads no mail.
pub record Quiet (s s' : State) : Type 0 where
  pub redis : s'.redis ≡ s.redis
  pub broker : s'.broker ≡ s.broker
  pub read : s'.read ≡ s.read

quarantine_step-Quiet :
    (w : World) (m k : String) (a : Attachment) (s : State) → Quiet s (quarantine_step w m k a s).1
unfolding quarantine_step
quarantine_step-Quiet w m k a s =
    elim (Bool-cases (w.bucket_takes (object_key w "quarantine" k a.filename))) [
      | inl e ↦ rw e (record { redis = refl; broker = refl; read = refl })
      | inr e ↦ rw e (record { redis = refl; broker = refl; read = refl })
    ]

pub scan_and_upload-Quiet :
    (c : Settings) (w : World) (m k h : String) (files : List Attachment) (s : State)
    → Quiet s (scan_and_upload c w m k h files s).1
unfolding scan_and_upload
scan_and_upload-Quiet c w m k h [] s = record { redis = refl; broker = refl; read = refl }
scan_and_upload-Quiet c w m k h (a ∷ rest) s = elim (scan_and_upload-First c w m k h a rest s) [
  | skips _ e ↦ subst (λ r. Quiet s r.1) (sym e) (scan_and_upload-Quiet c w m k h rest s)
  | collides _ e ↦
      subst (λ r. Quiet s r.1) (sym e) (record { redis = refl; broker = refl; read = refl })
  | refuses _ _ e ↦ subst (λ r. Quiet s r.1) (sym e) (quarantine_step-Quiet w m k a s)
  | stores _ _ e ↦
      let q = scan_and_upload-Quiet c w m k h rest (stored_state w k a s) in
      subst (λ r. Quiet s r.1) (sym e)
        (record { redis = q.redis; broker = q.broker; read = q.read })
  | fails _ e ↦
      subst (λ r. Quiet s r.1) (sym e) (record { redis = refl; broker = refl; read = refl })
]

-- When the loop ends with infos, it scanned every attachment within the limit and found it safe, and
-- the infos are theirs in order.
pub record Safe (c : Settings) (w : World) (k : String) (files : List Attachment)
    (infos : List AttachmentInfo) : Type 0 where
  pub scanned : any (is_refused w) (within c files) ≡ false
  pub infos_are : infos ≡ map (attachment_info c w k) (within c files)

-- How the loop ends, by the attachments within the limit.
abbrev pub SafeEnd : Settings → World → String → List Attachment → Uploads → Type 0
SafeEnd c w k files (uploaded infos) = Safe c w k files infos
SafeEnd c w k files aborted = Unit
SafeEnd c w k files failed = Unit

add-SafeEnd :
    (c : Settings) (w : World) (k : String) (a : Attachment) (rest : List Attachment) (u : Uploads)
    → too_large c a ≡ false
    → is_refused w a ≡ false
    → SafeEnd c w k rest u
    → SafeEnd c w k (a ∷ rest) (add (attachment_info c w k a) u)
add-SafeEnd c w k a rest (uploaded infos) e g q = record {
  scanned = rw (e, g) (q.scanned);
  infos_are = rw e (ap (λ is. attachment_info c w k a ∷ is) q.infos_are);
}
add-SafeEnd c w k a rest aborted e g q = tt
add-SafeEnd c w k a rest failed e g q = tt

skip-SafeEnd :
    (c : Settings) (w : World) (k : String) (a : Attachment) (rest : List Attachment) (u : Uploads)
    → too_large c a ≡ true
    → SafeEnd c w k rest u
    → SafeEnd c w k (a ∷ rest) u
skip-SafeEnd c w k a rest (uploaded infos) e q = record {
  scanned = rw e (q.scanned);
  infos_are = rw e (q.infos_are);
}
skip-SafeEnd c w k a rest aborted e q = tt
skip-SafeEnd c w k a rest failed e q = tt

quarantine-SafeEnd :
    (c : Settings) (w : World) (m k : String) (a : Attachment) (files : List Attachment) (s : State)
    → SafeEnd c w k files (quarantine_step w m k a s).0
unfolding quarantine_step
quarantine-SafeEnd c w m k a files s =
    elim (Bool-cases (w.bucket_takes (object_key w "quarantine" k a.filename))) [
      | inl e ↦ rw e tt
      | inr e ↦ rw e tt
    ]

pub scan_and_upload-SafeEnd :
    (c : Settings) (w : World) (m k h : String) (files : List Attachment) (s : State)
    → SafeEnd c w k files (scan_and_upload c w m k h files s).0
unfolding scan_and_upload
scan_and_upload-SafeEnd c w m k h [] s = record { scanned = refl; infos_are = refl }
scan_and_upload-SafeEnd c w m k h (a ∷ rest) s = elim (scan_and_upload-First c w m k h a rest s) [
  | skips t e ↦
      subst (λ r. SafeEnd c w k (a ∷ rest) r.0) (sym e)
        (skip-SafeEnd c w k a rest _ t (scan_and_upload-SafeEnd c w m k h rest s))
  | collides _ e ↦ subst (λ r. SafeEnd c w k (a ∷ rest) r.0) (sym e) tt
  | refuses _ _ e ↦
      subst (λ r. SafeEnd c w k (a ∷ rest) r.0) (sym e) (quarantine-SafeEnd c w m k a (a ∷ rest) s)
  | stores t g e ↦
      subst (λ r. SafeEnd c w k (a ∷ rest) r.0) (sym e)
        (add-SafeEnd c w k a rest _ t g
          (scan_and_upload-SafeEnd c w m k h rest (stored_state w k a s)))
  | fails _ e ↦ subst (λ r. SafeEnd c w k (a ∷ rest) r.0) (sym e) tt
]
