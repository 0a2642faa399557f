-- ===== src/Storage/Build/Nulls.antt =====
-- Payloads with null fields: module 3 writes null where its cascade or its directory found nothing.
use prompt_flow_ai.Prelude.{
  ◌≡◌, ◌⊎◌, ◌>>=◌, refl, sym, ap, ◌∙◌, String, Option, none, some, arith, inl, inr,
}
use prompt_flow_ai.Prelude.Text.{codes}
use prompt_flow_ai.Storage.Schemas.{Field, null, get, KafkaPayload}
use prompt_flow_ai.Storage.Build.{Tools, build_paper_create, authors_of, build_attachments}

bind-none {ℓ κ} :
    {A : Type ℓ} {B : Type κ} (o : Option A) (f : A → Option B)
    → ((a : A) → o ≡ some a → f a ≡ none)
    → (o >>= f) ≡ none
bind-none none f h = refl
bind-none (some a) f h = h a refl

null_absurd {ℓ} : {A : Type ℓ} (d : A) (v : Field A) (a : A) → v ≡ null → get d v ≡ some a → ⊥
null_absurd d v a e h = none_ne (sym (ap (get d) e) ∙ h)
  where
    none_ne : none ≡ some a → ⊥
    none_ne k = ground arith

-- No paper is built of a payload whose title, year or faculty email is null: the defaults stand in only for keys that are absent.
pub null_fields_rejected :
    (t : Tools) (p : KafkaPayload) (topic : String)
    → (p.title ≡ null) ⊎ (p.year ≡ null) ⊎ (p.faculty_email ≡ null)
    → build_paper_create t p topic ≡ none
unfolding build_paper_create
null_fields_rejected t p topic h = bind-none (authors_of p.authors) _ (λ _ _.
    bind-none (build_attachments p.attachments) _ (λ _ _.
      bind-none (t.parse_uuid p.extraction_id) _ (λ _ _.
        bind-none (get (codes "Untitled Paper") p.title) _ (λ title t1.
          bind-none (get 2024 p.year) _ (λ year y1.
            bind-none (get (codes "unknown") p.paper_type) _ (λ _ _.
              bind-none (get t.uuid4 p.faculty_id) _ (λ faculty _.
                bind-none (t.parse_uuid faculty) _ (λ _ _.
                  bind-none (get (codes "unknown@srmap.edu.in") p.faculty_email) _ (λ email e1.
                    absurd (elim h [
                      | inl e ↦ null_absurd (codes "Untitled Paper") p.title title e t1
                      | inr (inl e) ↦ null_absurd 2024 p.year year e y1
                      | inr (inr e) ↦
                          null_absurd (codes "unknown@srmap.edu.in") p.faculty_email email e e1
                    ]))))))))))
