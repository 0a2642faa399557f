-- ===== src/Storage/Build/Laws.antt =====
-- What module 4 stores of a payload.
use mathlib.Core.Path.{subst}
use mathlib.Core.List.{append-nil}
use prompt_flow_ai.Prelude.{
  ℕ, suc, zero, ◌≡◌, ◌+◌, ◌-◌, ◌≤◌, ◌>>=◌, ◌↔◌, ◌≢◌, ◌⊎◌, ◌++◌, All, str_eq, eq_iff, contradiction,
  if-elim, refl, sym, ap, ◌∙◌, String, Bool, true, false, Option, none, some, List, [], ◌∷◌, arith,
  inl, inr, Bool-cases, ltb, length, take, length-append, if◌then◌else◌,
}
use prompt_flow_ai.Prelude.Text.{Text, codes}
use prompt_flow_ai.Extract.Truth.{or_text}
use prompt_flow_ai.Storage.Schemas.{
  Field, absent, null, present, get, get_or_none, KafkaPayload, Status, published, draft, rejected,
  pending_review, PaperCreate, valid_paper,
}
use prompt_flow_ai.Storage.Build.{
  Tools, paper_of, authors_of, build_attachments, map_topic_to_status, zeros, stored_key, action_of,
  is_published, build_paper_create,
}

length-zeros : (n : ℕ) → length (zeros n) ≡ n
unfolding zeros
length-zeros zero = refl
length-zeros (suc n) = ap suc (length-zeros n)

take-length : (n : ℕ) (k : Text) → length k ≤ n → take n k ≡ k
take-length zero [] h = refl
take-length zero (c ∷ k) h = ground arith
take-length (suc n) [] h = refl
take-length (suc n) (c ∷ k) h = ap (λ t. c ∷ t) (take-length n k (omega arith))

length-take-le : (n : ℕ) (k : Text) → n ≤ length k → length (take n k) ≡ n
length-take-le zero k h = refl
length-take-le (suc n) [] h = ground arith
length-take-le (suc n) (c ∷ k) h = ap suc (length-take-le n k (omega arith))

length-stored_key : (k : Text) → length (stored_key k) ≡ 64
unfolding stored_key
length-stored_key k = elim (Bool-cases (ltb (length k) 64)) [
  | inl e ↦ rw e (
      length-append (take 64 k) (zeros (64 - length k))
      ∙ ap (λ n. length (take 64 k) + n) (length-zeros (64 - length k))
      ∙ ap (λ t. length t + (64 - length k)) (take-length 64 k (ground arith))
      ∙ ground arith)
  | inr e ↦ rw e (length-take-le 64 k (ground arith))
]

stored_key-keeps : (k : Text) → length k ≡ 64 → stored_key k ≡ k
unfolding stored_key
stored_key-keeps k e = elim (Bool-cases (ltb (length k) 64)) [
  | inl f ↦ ground arith
  | inr f ↦ rw f (take-length 64 k (omega arith))
]

-- The key of a row always has 64 characters, and a payload's key is stored as it is exactly when it
-- has 64.
pub stored_key-fixed :
    (k : Text) → (length (stored_key k) ≡ 64) × ((stored_key k ≡ k) ↔ (length k ≡ 64))
stored_key-fixed k =
    (length-stored_key k, (λ e. ap length (sym e) ∙ length-stored_key k, stored_key-keeps k))

-- What holds of every result.
abbrev AllOf {ℓ κ} : {A : Type ℓ} → (A → Type κ) → Option A → Type κ
AllOf P none = Unit
AllOf P (some a) = P a

AllOf-bind {ℓ κ μ} :
    {A : Type ℓ} {B : Type κ} (P : B → Type μ) (o : Option A) (f : A → Option B)
    → ((a : A) → AllOf P (f a))
    → AllOf P (o >>= f)
AllOf-bind P none f h = tt
AllOf-bind P (some a) f h = h a

AllOf-guard {ℓ κ} :
    {A : Type ℓ} (P : A → Type κ) (b : Bool) (x : A)
    → (b ≡ true → P x)
    → AllOf P (if b then some x else none)
AllOf-guard P true x h = h refl
AllOf-guard P false x h = tt

AllOf-some {ℓ κ} :
    {A : Type ℓ} (P : A → Type κ) (o : Option A) (a : A) → o ≡ some a → AllOf P o → P a
AllOf-some P o a e h = subst (AllOf P) e h

-- The first 64 characters of a longer key, and a shorter one with zeros behind it, 64 in all.
abbrev pub IsPadded : (key stored : Text) → Type 0
IsPadded key stored =
    (length stored ≡ 64)
    × (64 ≤ length key → (rest : Text) × (key ≡ stored ++ rest))
    × (length key ≤ 64 → (pad : Text) × (stored ≡ key ++ pad) × All (λ c. c ≡ 48) pad)

-- The routing action AUTO_SAVE publishes, REVIEW_REQUIRED and an absent action wait for review, BLOCK
-- rejects, and any other leaves a draft.
abbrev pub HasStatus : Field String → Status → Type 0
HasStatus action published = action ≡ present "AUTO_SAVE"
HasStatus action pending_review = (action ≡ present "REVIEW_REQUIRED") ⊎ (action ≡ absent)
HasStatus action rejected = action ≡ present "BLOCK"
HasStatus action draft =
    (action ≡ null)
    ⊎ ((a : String) × (action ≡ present a)
        × (a ≢ "AUTO_SAVE")
        × (a ≢ "REVIEW_REQUIRED")
        × (a ≢ "BLOCK"))

split_at : (n : ℕ) (k : Text) → (rest : Text) × (k ≡ take n k ++ rest)
split_at zero k = (k, refl)
split_at (suc n) [] = ([], refl)
split_at (suc n) (c ∷ k) = let (rest, e) = split_at n k in (rest, ap (λ t. c ∷ t) e)

zeros_are_48 : (n : ℕ) → All (λ c. c ≡ 48) (zeros n)
unfolding zeros
zeros_are_48 zero = tt
zeros_are_48 (suc n) = (refl, zeros_are_48 n)

longer : (k : Text) → 64 ≤ length k → (rest : Text) × (k ≡ stored_key k ++ rest)
unfolding stored_key
longer k h = elim (Bool-cases (ltb (length k) 64)) [
  | inl e ↦ absurd (ground arith)
  | inr e ↦ rw e (split_at 64 k)
]

shorter :
    (k : Text) → length k ≤ 64 → (pad : Text) × (stored_key k ≡ k ++ pad) × All (λ c. c ≡ 48) pad
unfolding stored_key
shorter k h = elim (Bool-cases (ltb (length k) 64)) [
  | inl e ↦ (
    zeros (64 - length k),
    rw e (ap (λ t. t ++ zeros (64 - length k)) (take-length 64 k h)),
    zeros_are_48 (64 - length k),
  )
  | inr e ↦ ([], rw e (take-length 64 k h ∙ sym (append-nil k)), tt)
]

stored_key-IsPadded : (k : Text) → IsPadded k (stored_key k)
stored_key-IsPadded k = (length-stored_key k, longer k, shorter k)

text_action : (topic a : String) → HasStatus (present a) (map_topic_to_status topic a)
unfolding map_topic_to_status
text_action topic a =
    if-elim (HasStatus (present a)) (str_eq a "AUTO_SAVE") _ _
      (λ e. ap present ((eq_iff a "AUTO_SAVE").0 e))
      (λ e.
        if-elim (HasStatus (present a)) (str_eq a "REVIEW_REQUIRED") _ _
          (λ f. inl (ap present ((eq_iff a "REVIEW_REQUIRED").0 f)))
          (λ f.
            if-elim (HasStatus (present a)) (str_eq a "BLOCK") _ _
              (λ g. ap present ((eq_iff a "BLOCK").0 g))
              (λ g. inr (a, refl, differs a _ e, differs a _ f, differs a _ g))))
  where
    differs : (a b : String) → str_eq a b ≡ false → a ≢ b
    differs a b e h = contradiction ((eq_iff a b).1 h) e

action-HasStatus :
    (topic : String) (action : Field String)
    → HasStatus action (
        map_topic_to_status topic
          (elim (get "REVIEW_REQUIRED" action) as (λ _. String) [ none ↦ "" | some a ↦ a ]))
unfolding map_topic_to_status
action-HasStatus topic absent = inr refl
action-HasStatus topic null = inl refl
action-HasStatus topic (present a) = text_action topic a

-- What a stored paper is.
pub record IsBuilt (t : Tools) (p : KafkaPayload) (topic : String) (paper : PaperCreate)
    : Type 0 where
  pub key : paper.ingestion_idempotency_key ≡ stored_key (codes p.idempotency_key)
  pub padded : IsPadded (codes p.idempotency_key) paper.ingestion_idempotency_key
  pub status : HasStatus p.final_action paper.status
  pub valid : valid_paper t.current_year paper ≡ true
  pub embedded : (v : List ℕ) → paper.embedding ≡ some v → paper.status ≡ published

only_published :
    (status : Status) (o : Option (List ℕ)) (v : List ℕ)
    → (if is_published status then o else none) ≡ some v
    → status ≡ published
unfolding is_published
only_published published o v h = refl
only_published draft o v h = ground arith
only_published rejected o v h = ground arith
only_published pending_review o v h = ground arith

built :
    (t : Tools) (p : KafkaPayload) (topic : String)
    → AllOf (IsBuilt t p topic) (build_paper_create t p topic)
unfolding build_paper_create paper_of
built t p topic = AllOf-bind (IsBuilt t p topic) (authors_of p.authors) _ (λ authors.
    AllOf-bind (IsBuilt t p topic) (build_attachments p.attachments) _ (λ attachments.
      AllOf-bind (IsBuilt t p topic) (t.parse_uuid p.extraction_id) _ (λ extraction_id.
        AllOf-bind (IsBuilt t p topic) (get (codes "Untitled Paper") p.title) _ (λ title.
          AllOf-bind (IsBuilt t p topic) (get 2024 p.year) _ (λ year.
            AllOf-bind (IsBuilt t p topic) (get (codes "unknown") p.paper_type) _ (λ paper_type.
              AllOf-bind (IsBuilt t p topic) (get t.uuid4 p.faculty_id) _ (λ faculty.
                AllOf-bind (IsBuilt t p topic) (t.parse_uuid faculty) _ (λ faculty_id.
                  AllOf-bind (IsBuilt t p topic)
                    (get (codes "unknown@srmap.edu.in") p.faculty_email) _
                    (λ faculty_email.
                      AllOf-bind (IsBuilt t p topic) (get (codes "UNKNOWN") p.department_code) _
                        (λ department_code.
                          AllOf-bind (IsBuilt t p topic) (get 0 p.overall_confidence) _
                            (λ overall_confidence.
                              AllOf-bind (IsBuilt t p topic) (get (zeros 64) p.raw_text_hash) _
                                (λ raw_text_hash.
                                  AllOf-guard (IsBuilt t p topic) _
                                    (paper_of t p topic authors attachments extraction_id title year
                                      paper_type faculty_id faculty_email department_code
                                      overall_confidence raw_text_hash)
                                    (λ ok. record {
                                      key = refl;
                                      padded = stored_key-IsPadded (codes p.idempotency_key);
                                      status = action-HasStatus topic p.final_action;
                                      valid = ok;
                                      embedded = λ v e.
                                          only_published (map_topic_to_status topic (action_of p))
                                            (t.generate_embedding title (
                                              or_text (get_or_none p.venue)
                                                (get_or_none p.journal)))
                                            v e;
                                    })))))))))))))

-- A paper that the builder returns has as its key the first 64 characters of the payload's key, or
-- that key with zeros behind it up to 64; its status is published for the action AUTO_SAVE, pending
-- review for REVIEW_REQUIRED and for an absent action, rejected for BLOCK, and draft for a null
-- action and any other; its fields satisfy every constraint; only a published one has an embedding.
pub build_paper_create-IsBuilt :
    (t : Tools) (p : KafkaPayload) (topic : String) (paper : PaperCreate)
    → build_paper_create t p topic ≡ some paper
    → IsBuilt t p topic paper
build_paper_create-IsBuilt t p topic paper h =
    AllOf-some (IsBuilt t p topic) _ paper h (built t p topic)
