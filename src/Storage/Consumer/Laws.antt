-- ===== src/Storage/Consumer/Laws.antt =====
-- What the insertion and the mark of module4-storage/app/consumer.py do to the two stores.
use text.Mathlib.TextLemmas.{append_cancel_left}
use prompt_flow_ai.Prelude.{
  ℕ, ◌≡◌, ◌⊎◌, refl, sym, ap, ◌∙◌, String, Bool, true, false, not, ◌&&◌, Option, none, some, List,
  [], ◌∷◌, any, arith, inl, inr, Bool-cases, non_empty, str_eq, eq_iff, if◌then◌else◌, if-elim,
  both,
}
use prompt_flow_ai.Prelude.Text.{Text, codes, text_eq}
use prompt_flow_ai.Redis.{exists, exists-setex}
use prompt_flow_ai.Storage.Schemas.{PaperCreate}
use prompt_flow_ai.Storage.Build.{stored_key}
use prompt_flow_ai.Storage.Api.Tables.{
  Row, Version, Database, Session, sees_paper, where_rows, initial_version, column_values,
}
use prompt_flow_ai.Storage.Api.Context.{World as Clock}
use prompt_flow_ai.Storage.Api.Papers.{with_key, new_row, clashes, create, with_paper}
use prompt_flow_ai.Storage.Consumer.{State, World, processed_key, ttl_seconds, mark_processed}

-- A row has the key.
unfoldable pub has_key : Text → List Row → Bool
has_key k papers = any (λ r. text_eq r.paper.ingestion_idempotency_key k) papers

-- The row of a payload's key: with the key itself, or with the stored form of it.
abbrev pub HasRow : String → List Row → Type 0
HasRow key papers =
    (has_key (stored_key (codes key)) papers ≡ true) ⊎ (has_key (codes key) papers ≡ true)

-- Every key that Redis holds as processed has its row.
abbrev pub IsConsistent : State → Type 0
IsConsistent s =
    (t : ℕ) (key : String) → exists t (processed_key key) s.redis ≡ true → HasRow key s.db.papers

pub has_key-cons :
    (k : Text) (r : Row) (rs : List Row) → has_key k rs ≡ true → has_key k (r ∷ rs) ≡ true
unfolding has_key
has_key-cons k r rs h = ground arith

pub HasRow-cons : (key : String) (r : Row) (rs : List Row) → HasRow key rs → HasRow key (r ∷ rs)
HasRow-cons key r rs (inl h) = inl (has_key-cons (stored_key (codes key)) r rs h)
HasRow-cons key r rs (inr h) = inr (has_key-cons (codes key) r rs h)

pub has_key-first :
    (k : Text) (r : Row) (rs : List Row)
    → text_eq r.paper.ingestion_idempotency_key k ≡ true
    → has_key k (r ∷ rs) ≡ true
unfolding has_key
has_key-first k r rs h = ground arith

-- A row that a session finds is in the table.
pub with_key-has_key :
    (s : Session) (k : Text) (rs : List Row)
    → non_empty (with_key s k rs) ≡ true
    → has_key k rs ≡ true
unfolding with_key where_rows has_key
with_key-has_key s k [] h = ground arith
with_key-has_key s k (r ∷ rs) h =
    elim (Bool-cases (sees_paper s r.paper && text_eq r.paper.ingestion_idempotency_key k)) [
      | inl e ↦ has_key-first k r rs (both e).1
      | inr e ↦ has_key-cons k r rs (
          with_key-has_key s k rs
            (sym (ap (λ b. non_empty (if b then r ∷ with_key s k rs else with_key s k rs)) e) ∙ h))
    ]

-- A session finds a new row that it sees.
pub with_key-first :
    (s : Session) (k : Text) (r : Row) (rs : List Row)
    → sees_paper s r.paper ≡ true
    → text_eq r.paper.ingestion_idempotency_key k ≡ true
    → non_empty (with_key s k (r ∷ rs)) ≡ true
unfolding with_key where_rows
with_key-first s k r rs h e =
    if-elim {A = List Row} (λ xs. non_empty xs ≡ true)
      (sees_paper s r.paper && text_eq r.paper.ingestion_idempotency_key k) _ _ (λ _. refl)
      (λ f. absurd (clash h e f))
  where
    clash : {a b : Bool} → a ≡ true → b ≡ true → (a && b) ≡ false → ⊥
    clash h e f = ground arith

-- What an insertion gives: the row on top, as the columns hold it, which the session sees.
abbrev pub IsCreated : Session → PaperCreate → Database → Option (Row × Database) → Type 0
IsCreated s paper db none = Unit
IsCreated s paper db (some (row, db')) =
    (db'.papers ≡ row ∷ db.papers)
    × (row.paper ≡ column_values paper)
    × (sees_paper s row.paper ≡ true)

with_paper-IsCreated :
    (s : Session) (w : Clock) (paper : PaperCreate) (db : Database) (o : Option (List Version))
    → sees_paper s (new_row w paper).paper ≡ true
    → IsCreated s paper db (with_paper s w (new_row w paper) db o)
unfolding with_paper new_row
with_paper-IsCreated s w paper db none h = tt
with_paper-IsCreated s w paper db (some vs) h = (refl, refl, h)

pub create-IsCreated :
    (s : Session) (w : Clock) (paper : PaperCreate) (db : Database)
    → IsCreated s paper db (create s w paper db)
unfolding create
create-IsCreated s w paper db =
    if-elim {A = Option (Row × Database)} (IsCreated s paper db)
      (sees_paper s (new_row w paper).paper && not (clashes (new_row w paper) db.papers))
      (with_paper s w (new_row w paper) db
        (initial_version s w.now (new_row w paper ∷ db.papers) (new_row w paper) db.versions))
      none (λ e. with_paper-IsCreated s w paper db _ (both e).0) (λ _. tt)

processed_key-inj : (a b : String) → processed_key a ≡ processed_key b → a ≡ b
processed_key-inj a b e = append_cancel_left "m4:processed:" a b e

pub mark_processed-IsConsistent :
    (w : World) (key : String) (s : State)
    → IsConsistent s
    → HasRow key s.db.papers
    → IsConsistent (mark_processed w key s).1
unfolding mark_processed
mark_processed-IsConsistent w key s i h = elim (Bool-cases w.redis_answers_mark) [
  | inl e ↦ rw e (λ t key' m. elim (Bool-cases (str_eq (processed_key key) (processed_key key'))) [
    | inl f ↦
        rw
          (sym (processed_key-inj key key' ((eq_iff (processed_key key) (processed_key key')).0 f)))
          h
    | inr f ↦ i t key' (
        sym (
          exists-setex t w.clock.now ttl_seconds (processed_key key) (processed_key key') s.redis
          ∙ rw f refl)
        ∙ m)
  ])
  | inr e ↦ rw e i
]

pub mark_processed-papers :
    (w : World) (key : String) (s : State) → (mark_processed w key s).1.db ≡ s.db
unfolding mark_processed
mark_processed-papers w key s = ground arith
