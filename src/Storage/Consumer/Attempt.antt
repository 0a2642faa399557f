-- ===== src/Storage/Consumer/Attempt.antt =====
-- One attempt at a message of module4-storage/app/consumer.py.
use mathlib.Core.Path.{subst}
use prompt_flow_ai.Prelude.{
  ℕ, ◌≡◌, ◌≢◌, ◌⊎◌, refl, sym, ap, ◌∙◌, String, Bool, true, false, not, Option, none, some, List,
  [], ◌∷◌, inl, inr, length, non_empty, if-elim,
}
use prompt_flow_ai.Prelude.Text.{codes, text_eq, text_eq_refl}
use prompt_flow_ai.Redis.{exists}
use prompt_flow_ai.Storage.Schemas.{KafkaPayload, PaperCreate}
use prompt_flow_ai.Storage.Build.{stored_key, build_paper_create}
use prompt_flow_ai.Storage.Build.Laws.{IsBuilt, build_paper_create-IsBuilt, stored_key-fixed}
use prompt_flow_ai.Storage.Api.Tables.{Row, Database, column_values}
use prompt_flow_ai.Storage.Api.Papers.{one_or_none, with_key}
use prompt_flow_ai.Storage.Consumer.{
  State, World, processed_key, session_of, found_rows, Ending, returned, raised, mark_processed,
  after_create, insert, store, fenced, attempt,
}
use prompt_flow_ai.Storage.Consumer.Laws.{
  has_key, HasRow, IsConsistent, HasRow-cons, has_key-first, with_key-has_key, with_key-first,
  IsCreated, create-IsCreated, mark_processed-IsConsistent, mark_processed-papers,
}

-- The session of the payload finds a row of its key.
abbrev pub IsFound : KafkaPayload → State → Type 0
IsFound p s = non_empty (found_rows p s) ≡ true

-- Redis held the key as processed at some time.
abbrev pub IsMarked : KafkaPayload → State → Type 0
IsMarked p s = (t : ℕ) × (exists t (processed_key p.idempotency_key) s.redis ≡ true)

-- A world is one of those that the attempts meet.
abbrev pub IsOneOf : World → List World → Type 0
IsOneOf w [] = ⊥
IsOneOf w (v ∷ worlds) = (v ≡ w) ⊎ IsOneOf w worlds

-- One row on top of the table, as the columns hold the paper that one of the attempts built from the
-- payload.
abbrev pub AddsRow : List World → KafkaPayload → (topic : String) → List Row → List Row → Type 0
AddsRow worlds p topic papers papers' =
    (w : World) × (paper : PaperCreate) × (row : Row) × IsOneOf w worlds
    × (build_paper_create w.tools p topic ≡ some paper)
    × IsBuilt w.tools p topic paper
    × (row.paper ≡ column_values paper)
    × (papers' ≡ row ∷ papers)

-- A sound end of attempts from a state.
pub record IsSound (worlds : List World) (p : KafkaPayload) (topic : String) (s : State)
    (r : Ending × State) : Type 0 where
  pub adds :
      (r.1.db.papers ≡ s.db.papers)
      ⊎ (AddsRow worlds p topic s.db.papers r.1.db.papers × IsFound p r.1)
  pub stored : r.0 ≡ returned → IsFound p r.1 ⊎ IsMarked p s
  pub once : IsFound p s → r.1.db.papers ≡ s.db.papers
  pub kept : r.0 ≡ raised → r.1.redis ≡ s.redis

abbrev IsReturned : Ending → Type 0
IsReturned returned = Unit
IsReturned raised = ⊥

pub raised_ne : raised ≢ returned
raised_ne e = subst IsReturned (sym e) tt

pub fails :
    (worlds : List World) (p : KafkaPayload) (topic : String) (s : State)
    → IsSound worlds p topic s (raised, s)
fails worlds p topic s = record {
  adds = inl refl;
  stored = λ e. absurd (raised_ne e);
  once = λ _. refl;
  kept = λ _. refl;
}

pub IsFound-papers :
    (p : KafkaPayload) (s s' : State) → s'.db.papers ≡ s.db.papers → IsFound p s → IsFound p s'
unfolding found_rows
IsFound-papers p s s' e h =
    ap (λ rs. non_empty (with_key (session_of p) (codes p.idempotency_key) rs)) e ∙ h

mark_processed-kept :
    (w : World) (key : String) (s : State)
    → (mark_processed w key s).0 ≡ raised
    → (mark_processed w key s).1.redis ≡ s.redis
unfolding mark_processed
mark_processed-kept w key s =
    if-elim {A = Ending × State} (λ r. r.0 ≡ raised → r.1.redis ≡ s.redis) w.redis_answers_mark _ _
      (λ _ e. absurd (raised_ne (sym e))) (λ _ _. refl)

-- The mark, where the session finds the row.
marked-IsSound :
    (w : World) (worlds : List World) (p : KafkaPayload) (topic : String) (s : State)
    → IsFound p s
    → IsSound (w ∷ worlds) p topic s (mark_processed w p.idempotency_key s)
marked-IsSound w worlds p topic s h =
    let e = ap Database.papers (mark_processed-papers w p.idempotency_key s) in
    record {
      adds = inl e;
      stored = λ _. inl (IsFound-papers p s _ e h);
      once = λ _. e;
      kept = mark_processed-kept w p.idempotency_key s;
    }

module _ (w : World) (worlds : List World) (p : KafkaPayload) (topic : String) (s : State)
    (long : length (codes p.idempotency_key) ≡ 64) (empty : IsFound p s → ⊥) where
  after_create-IsSound :
      (paper : PaperCreate) (o : Option (Row × Database))
      → build_paper_create w.tools p topic ≡ some paper
      → IsBuilt w.tools p topic paper
      → IsCreated (session_of p) paper s.db o
      → IsSound (w ∷ worlds) p topic s (after_create w p s o)
  unfolding after_create found_rows column_values
  after_create-IsSound paper none made built c = fails (w ∷ worlds) p topic s
  after_create-IsSound paper (some (row, db)) made built (e, v, sees) =
      let s' = record s { db = db } in
      let key : text_eq row.paper.ingestion_idempotency_key (codes p.idempotency_key) ≡ true =
        ap (λ k. text_eq k (codes p.idempotency_key))
          (ap PaperCreate.ingestion_idempotency_key v
            ∙ built.key
            ∙ (stored_key-fixed (codes p.idempotency_key)).1.1 long)
        ∙ text_eq_refl (codes p.idempotency_key) in
      let found : IsFound p s' =
        ap (λ rs. non_empty (with_key (session_of p) (codes p.idempotency_key) rs)) e
        ∙ with_key-first (session_of p) (codes p.idempotency_key) row s.db.papers sees key in
      let same = ap Database.papers (mark_processed-papers w p.idempotency_key s') in
      if-elim {A = Ending × State} (IsSound (w ∷ worlds) p topic s) w.clock.commits _ _
        (λ _. record {
          adds = inr (
            (w, paper, row, inl refl, made, built, v, same ∙ e),
            IsFound-papers p s' (mark_processed w p.idempotency_key s').1 same found,
          );
          stored =
              λ _. inl (IsFound-papers p s' (mark_processed w p.idempotency_key s').1 same found);
          once = λ h. absurd (empty h);
          kept = mark_processed-kept w p.idempotency_key s';
        })
        (λ _. fails (w ∷ worlds) p topic s)

  insert-IsSound :
      (o : Option PaperCreate)
      → build_paper_create w.tools p topic ≡ o
      → IsSound (w ∷ worlds) p topic s (insert w p s o)
  unfolding insert
  insert-IsSound none e = fails (w ∷ worlds) p topic s
  insert-IsSound (some paper) e =
      after_create-IsSound paper _ e (build_paper_create-IsBuilt w.tools p topic paper e)
        (create-IsCreated (session_of p) w.clock paper s.db)

-- The second fence.
fenced-IsSound :
    (w : World) (worlds : List World) (p : KafkaPayload) (topic : String) (s : State)
    (rows : List Row)
    → length (codes p.idempotency_key) ≡ 64
    → found_rows p s ≡ rows
    → IsSound (w ∷ worlds) p topic s (fenced w p topic s (one_or_none rows))
unfolding fenced store one_or_none
fenced-IsSound w worlds p topic s [] long e =
    insert-IsSound w worlds p topic s long (λ h. nothing (sym (ap non_empty e) ∙ h)) _ refl
  where
    IsTrue : Bool → Type 0
    IsTrue true = Unit
    IsTrue false = ⊥

    nothing : false ≡ true → ⊥
    nothing e = subst IsTrue (sym e) tt
fenced-IsSound w worlds p topic s (row ∷ []) long e =
    marked-IsSound w worlds p topic s (ap non_empty e)
fenced-IsSound w worlds p topic s (row ∷ (other ∷ rest)) long e = fails (w ∷ worlds) p topic s

pub attempt-IsSound :
    (w : World) (worlds : List World) (p : KafkaPayload) (topic : String) (s : State)
    → length (codes p.idempotency_key) ≡ 64
    → IsSound (w ∷ worlds) p topic s (attempt w (some p) topic s)
unfolding attempt
attempt-IsSound w worlds p topic s long =
    if-elim (IsSound (w ∷ worlds) p topic s) (not w.redis_answers_check) _ _
      (λ _. fails (w ∷ worlds) p topic s)
      (λ _.
        if-elim (IsSound (w ∷ worlds) p topic s)
          (exists w.clock.now (processed_key p.idempotency_key) s.redis) _ _
          (λ b. record {
            adds = inl refl;
            stored = λ _. inr (w.clock.now, b);
            once = λ _. refl;
            kept = λ _. refl;
          })
          (λ _.
            if-elim (IsSound (w ∷ worlds) p topic s) (not w.session_works) _ _
              (λ _. fails (w ∷ worlds) p topic s)
              (λ _. fenced-IsSound w worlds p topic s (found_rows p s) long refl)))

-- What the mark stands for, for a key of any length.
module _ (w : World) (p : KafkaPayload) (topic : String) (s : State) (i : IsConsistent s) where
  created-IsConsistent :
      (paper : PaperCreate) (o : Option (Row × Database))
      → IsBuilt w.tools p topic paper
      → IsCreated (session_of p) paper s.db o
      → IsConsistent (after_create w p s o).1
  unfolding after_create column_values
  created-IsConsistent paper none built c = i
  created-IsConsistent paper (some (row, db)) built (e, v, sees) =
      let here : has_key (stored_key (codes p.idempotency_key)) (row ∷ s.db.papers) ≡ true =
        has_key-first (stored_key (codes p.idempotency_key)) row s.db.papers (
          ap (λ k. text_eq k (stored_key (codes p.idempotency_key)))
            (ap PaperCreate.ingestion_idempotency_key v ∙ built.key)
          ∙ text_eq_refl (stored_key (codes p.idempotency_key))) in
      if-elim {A = Ending × State} (λ r. IsConsistent r.1) w.clock.commits _ _
        (λ _.
          mark_processed-IsConsistent w p.idempotency_key (record s { db = db })
            (λ t key m. subst (HasRow key) (sym e) (HasRow-cons key row s.db.papers (i t key m)))
            (subst (HasRow p.idempotency_key) (sym e) (inl here)))
        (λ _. i)

  insert-IsConsistent :
      (o : Option PaperCreate)
      → build_paper_create w.tools p topic ≡ o
      → IsConsistent (insert w p s o).1
  unfolding insert
  insert-IsConsistent none e = i
  insert-IsConsistent (some paper) e =
      created-IsConsistent paper _ (build_paper_create-IsBuilt w.tools p topic paper e)
        (create-IsCreated (session_of p) w.clock paper s.db)

  fenced-IsConsistent :
      (rows : List Row)
      → found_rows p s ≡ rows
      → IsConsistent (fenced w p topic s (one_or_none rows)).1
  unfolding fenced store one_or_none found_rows
  fenced-IsConsistent [] e = insert-IsConsistent _ refl
  fenced-IsConsistent (row ∷ []) e =
      mark_processed-IsConsistent w p.idempotency_key s i (
        inr
          (with_key-has_key (session_of p) (codes p.idempotency_key) s.db.papers (ap non_empty e)))
  fenced-IsConsistent (row ∷ (other ∷ rest)) e = i

pub attempt-IsConsistent :
    (w : World) (value : Option KafkaPayload) (topic : String) (s : State)
    → IsConsistent s
    → IsConsistent (attempt w value topic s).1
unfolding attempt
attempt-IsConsistent w none topic s i = i
attempt-IsConsistent w (some p) topic s i =
    if-elim {A = Ending × State} (λ r. IsConsistent r.1) (not w.redis_answers_check) _ _ (λ _. i)
      (λ _.
        if-elim {A = Ending × State} (λ r. IsConsistent r.1)
          (exists w.clock.now (processed_key p.idempotency_key) s.redis) _ _ (λ _. i)
          (λ _.
            if-elim {A = Ending × State} (λ r. IsConsistent r.1) (not w.session_works) _ _ (λ _. i)
              (λ _. fenced-IsConsistent w p topic s i (found_rows p s) refl)))
