-- ===== src/Ingest/Worker/Email/Marks.antt =====
-- When an email's keys are set in Redis, and what follows for its later deliveries.
use mathlib.Core.Path.{subst}
use prompt_flow_ai.Prelude.{
  ◌≡◌, ◌≢◌, ◌⊎◌, ◌+◌, ◌<◌, refl, sym, ap, ◌∙◌, String, true, false, some, ◌∷◌, any, arith, inl, inr,
  if-elim,
}
use prompt_flow_ai.Kafka.{Sent, returned, raised}
use prompt_flow_ai.Ingest.Mail.{ParsedEmail, Settings}
use prompt_flow_ai.Ingest.Dedup.{is_duplicate, mark_processed}
use prompt_flow_ai.Ingest.Dedup.Laws.{is_duplicate-mark_processed, Repeats}
use prompt_flow_ai.Ingest.Domain.{validate_domain}
use prompt_flow_ai.Ingest.Event.{PaperIngestedV1}
use prompt_flow_ai.Ingest.Worker.{
  email_ingested, State, World, Marking, unlabelled, refused, broken, publish_event, publish_to_dlq,
  after_attempts,
}
use prompt_flow_ai.Ingest.Worker.Email.{
  key_of, finish, after_publish, publish_stage, mark_message_read, after_mark, skip, marked_end,
  log_audit, seen_before, process_single_email,
}
use prompt_flow_ai.Ingest.Worker.Email.Steps.{within, is_refused}
use prompt_flow_ai.Ingest.Worker.Email.Laws.{
  quiet, published, skips_seen, process_single_email-Result, false_ne, raised_ne,
}

-- The end of a run that has set the keys, by Gmail's answer: an `HttpError` leaves the email unread,
-- another exception leaves the run.
abbrev pub EndsMarked : Marking → String → State → Sent × State → Type 0
EndsMarked unlabelled raw_id s r = (r.0 ≡ returned true) × (r.1.read ≡ raw_id ∷ s.read)
EndsMarked refused raw_id s r = (r.0 ≡ returned true) × (r.1.read ≡ s.read)
EndsMarked broken raw_id s r = (r.0 ≡ raised) × (r.1.read ≡ s.read)

-- How a run relates its result and Redis.
abbrev pub Marks : Settings → World → String → ParsedEmail → State → Sent × State → Type 0
Marks c w raw_id p s r =
    (EndsMarked w.marking raw_id s r
      × (r.1.redis ≡ mark_processed c w.now p.message_id (key_of w p) p.in_reply_to s.redis))
    ⊎ ((r.0 ≢ returned true) × (r.1.redis ≡ s.redis))

module _ (c : Settings) (w : World) (raw_id : String) (p : ParsedEmail) where
  same_end :
      (m : Marking) (s s1 : State) (r : Sent × State)
      → s1.read ≡ s.read
      → EndsMarked m raw_id s1 r
      → EndsMarked m raw_id s r
  same_end unlabelled s s1 r q (t, d) = (t, d ∙ ap (λ l. raw_id ∷ l) q)
  same_end refused s s1 r q (t, d) = (t, d ∙ q)
  same_end broken s s1 r q (t, d) = (t, d ∙ q)

  -- What holds from a state that differs in neither the keys nor the mail read.
  from_quiet :
      (s s1 : State) (r : Sent × State)
      → s1.redis ≡ s.redis
      → s1.read ≡ s.read
      → Marks c w raw_id p s1 r
      → Marks c w raw_id p s r
  from_quiet s s1 r k d (inl (t, e)) = inl (
    same_end w.marking s s1 r d t,
    e ∙ ap (mark_processed c w.now p.message_id (key_of w p) p.in_reply_to) k,
  )
  from_quiet s s1 r k d (inr (ne, e)) = inr (ne, e ∙ k)

  -- The state with the email's keys.
  keyed : State → State
  keyed s = record s {
    redis = mark_processed c w.now p.message_id (key_of w p) p.in_reply_to s.redis;
  }

  after_mark-Marks :
      (m : Marking) (s : State)
      → EndsMarked m raw_id s (
          after_mark true
            (log_audit (email_ingested p.message_id))
            (keyed s)
            (mark_message_read m raw_id (keyed s)))
        × ((after_mark true
              (log_audit (email_ingested p.message_id))
              (keyed s)
              (mark_message_read m raw_id (keyed s))).1.redis
            ≡ mark_processed c w.now p.message_id (key_of w p) p.in_reply_to s.redis)
  unfolding after_mark mark_message_read keyed
  after_mark-Marks unlabelled s = ((refl, refl), refl)
  after_mark-Marks refused s = ((refl, refl), refl)
  after_mark-Marks broken s = ((refl, refl), refl)

  finish-Marks : (s : State) → Marks c w raw_id p s (finish c w raw_id p s)
  unfolding finish marked_end keyed
  finish-Marks s =
      if-elim {A = Sent × State} (Marks c w raw_id p s) w.redis_answers_mark _ _
        (λ _. inl (after_mark-Marks w.marking s)) (λ _. inr (raised_ne, refl))

  ends-Marks :
      (e : PaperIngestedV1) (sent : Sent) (s : State)
      → Marks c w raw_id p s
          (after_publish c w raw_id p (after_attempts c e (key_of w p) (sent, s)))
  unfolding after_publish after_attempts publish_to_dlq
  ends-Marks e (returned true) s = finish-Marks s
  ends-Marks e (returned false) s = inr (false_ne, refl)
  ends-Marks e raised s = inr (raised_ne, refl)

  publish_stage-Marks :
      (e : PaperIngestedV1) (s : State) → Marks c w raw_id p s (publish_stage c w raw_id p e s)
  unfolding publish_stage publish_event
  publish_stage-Marks e s =
      from_quiet s (record s { broker = _ }) _ refl refl (ends-Marks e _ (record s { broker = _ }))

  -- A run of an email either sets its keys in Redis, or does not return `True` and leaves Redis as it
  -- was. When it sets them, it goes by Gmail's answer to the mark: it returns `True` with the email
  -- marked as read, or still unread after an `HttpError`; or another exception leaves the run,
  -- with the keys set and the email unread.
  pub process_single_email-Marks :
      (s : State) → Marks c w raw_id p s (process_single_email c w raw_id (some p) s)
  process_single_email-Marks s = elim (process_single_email-Result c w raw_id p s) [
    | quiet ne r _ ↦ inr (ne, r)
    | published e i s1 q same ↦
        subst (Marks c w raw_id p s) (sym same)
          (from_quiet s s1 _ q.redis q.read (publish_stage-Marks e s1))
  ]

-- An email with an attachment within the size limit that the scan refuses sends nothing to Kafka, not even to the DLQ,
-- and sets no key.
pub refused_sends_nothing :
    (c : Settings) (w : World) (raw_id : String) (p : ParsedEmail) (s : State)
    → any (is_refused w) (within c p.attachments) ≡ true
    → let s' = (process_single_email c w raw_id (some p) s).1 in
      (s'.broker ≡ s.broker) × (s'.redis ≡ s.redis)
refused_sends_nothing c w raw_id p s h = elim (process_single_email-Result c w raw_id p s) [
  | quiet _ r b ↦ (b, r)
  | published e i _ _ _ ↦ absurd (true_ne_false (sym h ∙ i.scanned))
]
  where
    true_ne_false : true ≢ false
    true_ne_false e = ground arith

-- A run that sends nothing and sets no key: it returns `False` with the email marked or, after an
-- `HttpError`, unread; or another exception leaves it.
abbrev pub IsSkipped : Marking → String → State → Sent × State → Type 0
IsSkipped m raw_id s r =
    (r.0 ≢ returned true)
    × (r.1.broker ≡ s.broker)
    × (r.1.redis ≡ s.redis)
    × (r.1.ingestion ≡ s.ingestion)
    × ((m ≡ unlabelled) → r.1.read ≡ raw_id ∷ s.read)

IsUnmarked : Marking → Type 0
IsUnmarked broken = Unit
IsUnmarked unlabelled = ⊥
IsUnmarked refused = Unit

not_unlabelled : (m : Marking) → IsUnmarked m → m ≡ unlabelled → ⊥
unfolding IsUnmarked
not_unlabelled m h e = subst IsUnmarked e h

by_marking :
    (m : Marking) (raw_id : String) (s : State)
    → IsSkipped m raw_id s (after_mark false (λ s'. s') s (mark_message_read m raw_id s))
unfolding after_mark mark_message_read IsUnmarked
by_marking unlabelled raw_id s = (false_ne, refl, refl, refl, λ _. refl)
by_marking refused raw_id s =
    (false_ne, refl, refl, refl, λ e. absurd (not_unlabelled refused tt e))
by_marking broken raw_id s = (raised_ne, refl, refl, refl, λ e. absurd (not_unlabelled broken tt e))

skip-IsSkipped :
    (w : World) (raw_id : String) (s : State) → IsSkipped w.marking raw_id s (skip w raw_id s)
unfolding skip
skip-IsSkipped w raw_id s = by_marking w.marking raw_id s

-- After a run that returned `True`, while its keys live and Redis
-- answers, another delivery of an email with the same Message-ID, the same key, or an In-Reply-To
-- the same as the first one's sends nothing to Kafka, uploads nothing and sets no key; it does not
-- return `True`, and it is marked as read if Gmail takes the mark.
pub ingested_once :
    (c : Settings) (w w' : World) (raw_id raw_id' : String) (p p' : ParsedEmail) (s : State)
    → (process_single_email c w raw_id (some p) s).0 ≡ returned true
    → validate_domain c p'.sender ≡ true
    → w'.redis_answers_check ≡ true
    → w'.now < w.now + c.redis_dedup_ttl_seconds
    → Repeats p.message_id (key_of w p) p.in_reply_to p'.message_id (key_of w' p') p'.in_reply_to
    → let s' = (process_single_email c w raw_id (some p) s).1 in
      IsSkipped w'.marking raw_id' s' (process_single_email c w' raw_id' (some p') s')
unfolding seen_before
ingested_once c w w' raw_id raw_id' p p' s done sender answers lt rep =
    let s' = (process_single_email c w raw_id (some p) s).1 in
    elim (process_single_email-Marks c w raw_id p s) [
      | inl (_, r) ↦
          subst (IsSkipped w'.marking raw_id' s')
            (sym (
              skips_seen c w' raw_id' p' s' sender answers (
                ap (is_duplicate w'.now p'.message_id (key_of w' p') p'.in_reply_to p'.references) r
                ∙ is_duplicate-mark_processed c w.now w'.now p.message_id (key_of w p) p.in_reply_to
                    p'.message_id (key_of w' p') p'.in_reply_to p'.references s.redis lt rep)))
            (skip-IsSkipped w' raw_id' s')
      | inr (ne, _) ↦ absurd (ne done)
    ]
