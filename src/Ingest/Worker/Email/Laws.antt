-- ===== src/Ingest/Worker/Email/Laws.antt =====
-- What one email changes in Kafka and in Redis.
use mathlib.Core.Path.{subst}
use prompt_flow_ai.Prelude.{
  ◌≡◌, ◌≢◌, refl, sym, String, true, false, some, List, map, any, inl, inr, Bool-cases,
  Option-cases, ltb, length,
}
use prompt_flow_ai.Prelude.Text.{strip}
use prompt_flow_ai.Kafka.{Sent, returned, raised}
use prompt_flow_ai.Ingest.Mail.{ParsedEmail, Settings, compute_text_hash}
use prompt_flow_ai.Ingest.Domain.{validate_domain}
use prompt_flow_ai.Ingest.Event.{AttachmentInfo, PaperIngestedV1}
use prompt_flow_ai.Ingest.Worker.{
  email_domain_rejected, Marking, unlabelled, refused, broken, State, World, Uploads, uploaded,
  aborted, failed, attachment_info,
}
use prompt_flow_ai.Ingest.Worker.Email.{
  skip, after_mark, mark_message_read, log_audit, key_of, redacted, build_event, publish_stage,
  build_stage, attachment_stage, text_stage, seen_before, dedup_stage, process_single_email,
}
use prompt_flow_ai.Ingest.Worker.Email.Steps.{
  within, is_refused, Quiet, scan_and_upload-Quiet, Safe, SafeEnd, scan_and_upload-SafeEnd,
}

-- What holds of an email and of the event that is built from it when the event is published.
pub record IsIngested (c : Settings) (w : World) (p : ParsedEmail) (s : State) (e : PaperIngestedV1)
    : Type 0 where
  pub sender : validate_domain c p.sender ≡ true
  pub is_new : seen_before w p s ≡ false
  pub is_long : ltb (length (strip (redacted w p))) 50 ≡ false
  pub scanned : any (is_refused w) (within c p.attachments) ≡ false
  pub built :
      build_event w p
        (redacted w p)
        (map (attachment_info c w (key_of w p)) (within c p.attachments))
      ≡ some e

-- The two ways in which a run ends.
pub data Result (c : Settings) (w : World) (raw_id : String) (p : ParsedEmail) (s : State)
    (r : Sent × State) : Type 0 where
  quiet :
      r.0 ≢ returned true → r.1.redis ≡ s.redis → r.1.broker ≡ s.broker → Result c w raw_id p s r
  published :
      (e : PaperIngestedV1)
      → IsIngested c w p s e
      → (s1 : State) → Quiet s s1
      → r ≡ publish_stage c w raw_id p e s1
      → Result c w raw_id p s r

abbrev IsTrue : Sent → Type 0
IsTrue (returned true) = Unit
IsTrue (returned false) = ⊥
IsTrue raised = ⊥

pub false_ne : returned false ≢ returned true
false_ne e = subst IsTrue (sym e) tt

pub raised_ne : raised ≢ returned true
raised_ne e = subst IsTrue (sym e) tt

skipped :
    (c : Settings) (w : World) (raw_id : String) (p : ParsedEmail) (s s1 : State) (m : Marking)
    → s1.redis ≡ s.redis
    → s1.broker ≡ s.broker
    → Result c w raw_id p s (after_mark false (λ s'. s') s1 (mark_message_read m raw_id s1))
unfolding after_mark mark_message_read
skipped c w raw_id p s s1 unlabelled r b = quiet false_ne r b
skipped c w raw_id p s s1 refused r b = quiet false_ne r b
skipped c w raw_id p s s1 broken r b = quiet raised_ne r b

-- A skipped email changes no key and sends nothing, whether or not it is marked.
skip-Result :
    (c : Settings) (w : World) (raw_id : String) (p : ParsedEmail) (s s1 : State)
    → s1.redis ≡ s.redis
    → s1.broker ≡ s.broker
    → Result c w raw_id p s (skip w raw_id s1)
unfolding skip
skip-Result c w raw_id p s s1 r b = skipped c w raw_id p s s1 w.marking r b

module _ (c : Settings) (w : World) (raw_id : String) (p : ParsedEmail) (s : State)
    (sender : validate_domain c p.sender ≡ true) (is_new : seen_before w p s ≡ false)
    (is_long : ltb (length (strip (redacted w p))) 50 ≡ false) where
  build-Result :
      (infos : List AttachmentInfo) (s1 : State)
      → Safe c w (key_of w p) p.attachments infos
      → Quiet s s1
      → Result c w raw_id p s (build_stage c w raw_id p (redacted w p) infos s1)
  unfolding build_stage
  build-Result infos s1 safe q = elim (Option-cases (build_event w p (redacted w p) infos)) [
    | inl n ↦ rw (n, build_stage) (quiet false_ne q.redis q.broker)
    | inr (e, b) ↦
        rw (b, build_stage)
          (published e
            (record {
              sender = sender;
              is_new = is_new;
              is_long = is_long;
              scanned = safe.scanned;
              built = rw (← safe.infos_are) b;
            })
            s1 q refl)
  ]

  after_uploads :
      (u : Uploads) (s1 : State)
      → SafeEnd c w (key_of w p) p.attachments u
      → Quiet s s1
      → Result c w raw_id p s (elim u [
        | uploaded infos ↦ build_stage c w raw_id p (redacted w p) infos s1
        | aborted ↦ (returned false, s1)
        | failed ↦ (raised, s1)
      ])
  after_uploads (uploaded infos) s1 safe q = build-Result infos s1 safe q
  after_uploads aborted s1 safe q = quiet false_ne q.redis q.broker
  after_uploads failed s1 safe q = quiet raised_ne q.redis q.broker

  attachment-Result : Result c w raw_id p s (attachment_stage c w raw_id p (redacted w p) s)
  unfolding attachment_stage
  attachment-Result =
      let h = compute_text_hash w.sha256 (redacted w p) in
      after_uploads _ _ (scan_and_upload-SafeEnd c w p.message_id (key_of w p) h p.attachments s)
        (scan_and_upload-Quiet c w p.message_id (key_of w p) h p.attachments s)

pub skips_seen :
    (c : Settings) (w : World) (raw_id : String) (p : ParsedEmail) (s : State)
    → validate_domain c p.sender ≡ true
    → w.redis_answers_check ≡ true
    → seen_before w p s ≡ true
    → process_single_email c w raw_id (some p) s ≡ skip w raw_id s
unfolding process_single_email dedup_stage
skips_seen c w raw_id p s d k n = simp (d, k, n)

skips_short :
    (c : Settings) (w : World) (raw_id : String) (p : ParsedEmail) (s : State)
    → validate_domain c p.sender ≡ true
    → w.redis_answers_check ≡ true
    → seen_before w p s ≡ false
    → ltb (length (strip (redacted w p))) 50 ≡ true
    → process_single_email c w raw_id (some p) s ≡ skip w raw_id s
unfolding process_single_email dedup_stage text_stage
skips_short c w raw_id p s d k n l = simp (d, k, n, l)

to_attachments :
    (c : Settings) (w : World) (raw_id : String) (p : ParsedEmail) (s : State)
    → validate_domain c p.sender ≡ true
    → w.redis_answers_check ≡ true
    → seen_before w p s ≡ false
    → ltb (length (strip (redacted w p))) 50 ≡ false
    → process_single_email c w raw_id (some p) s ≡ attachment_stage c w raw_id p (redacted w p) s
unfolding process_single_email dedup_stage text_stage
to_attachments c w raw_id p s d k n l = simp (d, k, n, l)

pub process_single_email-Result :
    (c : Settings) (w : World) (raw_id : String) (p : ParsedEmail) (s : State)
    → Result c w raw_id p s (process_single_email c w raw_id (some p) s)
unfolding process_single_email dedup_stage text_stage
process_single_email-Result c w raw_id p s = elim (Bool-cases (validate_domain c p.sender)) [
  | inr d ↦
      rw d (skip-Result c w raw_id p s (log_audit (email_domain_rejected p.message_id) s) refl refl)
  | inl d ↦ elim (Bool-cases w.redis_answers_check) [
    | inr k ↦ rw (d, k) (quiet raised_ne refl refl)
    | inl k ↦ elim (Bool-cases (seen_before w p s)) [
      | inl n ↦
          subst (Result c w raw_id p s) (sym (skips_seen c w raw_id p s d k n))
            (skip-Result c w raw_id p s s refl refl)
      | inr n ↦ elim (Bool-cases (ltb (length (strip (redacted w p))) 50)) [
        | inl l ↦
            subst (Result c w raw_id p s) (sym (skips_short c w raw_id p s d k n l))
              (skip-Result c w raw_id p s s refl refl)
        | inr l ↦
            subst (Result c w raw_id p s) (sym (to_attachments c w raw_id p s d k n l))
              (attachment-Result c w raw_id p s d n l)
      ]
    ]
  ]
]
