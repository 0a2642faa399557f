-- ===== src/Storage/Api/Chain.antt =====
-- The chain of versions that the triggers of module 4 keep for each paper.
use mathlib.Core.Path.{subst}
use mathlib.Core.Bool.{Bool, true, false, ◌&&◌}
use prompt_flow_ai.Prelude.{
  ℕ, suc, ◌≡◌, ◌∙◌, refl, sym, ap, Option, none, some, List, [], ◌∷◌, length, leb, ◌==◌,
  if◌then◌else◌, All, arith, inl, inr, Bool-cases, ==_iff,
}
use prompt_flow_ai.Storage.Api.Tables.{
  Row, Version, Database, Session, sees_child, where_rows, larger, max_version, versions_of,
}
use prompt_flow_ai.Storage.Api.Steps.{has_id}

abbrev IsEmpty : List Version → Type 0
IsEmpty [] = Unit
IsEmpty (v ∷ vs) = ⊥

-- The versions of a row, the latest first: the latest holds the row, each number counts the
-- versions up to it, and each earlier state is what the version before it left.
abbrev pub IsHistory : List Version → Row → Type 0
IsHistory [] r = ⊥
IsHistory (v ∷ vs) r =
    (v.after_state ≡ r)
    × (v.version_number ≡ suc (length vs))
    × elim v.before_state [ none ↦ IsEmpty vs | some q ↦ IsHistory vs q ]

abbrev pub Distinct : List Row → Type 0
Distinct [] = Unit
Distinct (r ∷ rs) = (has_id r.paper_id rs ≡ false) × Distinct rs

-- Every paper has its history.
abbrev pub HaveHistory : List Version → List Row → Type 0
HaveHistory vs rs = All (λ r. IsHistory (versions_of r.paper_id vs) r) rs

abbrev pub IsVersioned : Database → Type 0
IsVersioned db = HaveHistory db.versions db.papers × Distinct db.papers

pub versions_of-own :
    (id : ℕ) (v : Version) (vs : List Version)
    → v.paper_id ≡ id
    → versions_of id (v ∷ vs) ≡ v ∷ versions_of id vs
unfolding versions_of where_rows
versions_of-own id v vs e =
    ap (λ b. if b then v ∷ versions_of id vs else versions_of id vs) ((==_iff v.paper_id id).1 e)

pub versions_of-other :
    (id : ℕ) (v : Version) (vs : List Version)
    → (v.paper_id == id) ≡ false
    → versions_of id (v ∷ vs) ≡ versions_of id vs
unfolding versions_of where_rows
versions_of-other id v vs e = ap (λ b. if b then v ∷ versions_of id vs else versions_of id vs) e

-- A new version of one paper leaves the histories of the others.
pub HaveHistory-other :
    (id : ℕ) (v : Version) (vs : List Version) (rs : List Row)
    → v.paper_id ≡ id
    → has_id id rs ≡ false
    → HaveHistory vs rs
    → HaveHistory (v ∷ vs) rs
unfolding has_id
HaveHistory-other id v vs [] e f h = tt
HaveHistory-other id v vs (r ∷ rs) e f (h, hs) = (
  subst (λ us. IsHistory us r) (sym (versions_of-other r.paper_id v vs (ground arith))) h,
  HaveHistory-other id v vs rs e (ground arith) hs,
)

where_rows-same {ℓ} :
    {A : Type ℓ} (p q : A → Bool)
    → ((x : A) → p x ≡ q x)
    → (xs : List A) → where_rows p xs ≡ where_rows q xs
unfolding where_rows
where_rows-same p q h [] = refl
where_rows-same p q h (x ∷ xs) =
    ap (λ b. if b then x ∷ where_rows p xs else where_rows p xs) (h x)
    ∙ ap (λ ys. if q x then x ∷ ys else ys) (where_rows-same p q h xs)

and_true : (b : Bool) → (b && true) ≡ b
and_true true = refl
and_true false = refl

visible_too :
    (s : Session) (papers : List Row) (id n : ℕ)
    → sees_child s papers id ≡ true
    → ((n == id) && sees_child s papers n) ≡ (n == id)
visible_too s papers id n h = elim (Bool-cases (n == id)) [
  | inl e ↦
      ap (λ b. (n == id) && b) (ap (sees_child s papers) ((==_iff n id).0 e) ∙ h)
      ∙ and_true (n == id)
  | inr e ↦ ap (λ b. b && sees_child s papers n) e ∙ sym e
]

-- Under the policy, a session that sees the paper sees all its versions.
pub where_rows-visible :
    (s : Session) (papers : List Row) (id : ℕ) (vs : List Version)
    → sees_child s papers id ≡ true
    → where_rows (λ v. v.paper_id == id && sees_child s papers v.paper_id) vs ≡ versions_of id vs
unfolding versions_of
where_rows-visible s papers id vs h =
    where_rows-same _ _ (λ v. visible_too s papers id v.paper_id h) vs

only_first :
    (v : Version) (vs : List Version)
    → IsEmpty vs
    → v.version_number ≡ suc (length vs)
    → max_version (v ∷ vs) ≡ some (suc (length vs))
unfolding max_version larger
only_first v [] h n = ap some n
only_first v (w ∷ vs) h n = absurd h

grows : (n : ℕ) → larger (suc n) (some n) ≡ some (suc n)
unfolding larger
grows n = ap (λ b. if b then some (suc n) else some n) (at_most n)
  where
    at_most : (n : ℕ) → leb n (suc n) ≡ true
    at_most n = ground arith

larger_by_one :
    (n : ℕ) (v : Version) (vs : List Version)
    → max_version vs ≡ some n
    → v.version_number ≡ suc n
    → max_version (v ∷ vs) ≡ some (suc n)
unfolding max_version larger
larger_by_one n v vs h e =
    ap (larger v.version_number) h ∙ (ap (λ m. larger m (some n)) e ∙ grows n)

after_earlier :
    (v : Version) (vs : List Version) (o : Option Row)
    → v.version_number ≡ suc (length vs)
    → elim o as (λ o. Type 0) [ none ↦ IsEmpty vs | some q ↦ IsHistory vs q ]
    → ((q : Row) → IsHistory vs q → max_version vs ≡ some (length vs))
    → max_version (v ∷ vs) ≡ some (suc (length vs))
after_earlier v vs none n b h = only_first v vs b n
after_earlier v vs (some q) n b h = larger_by_one (length vs) v vs (h q b) n

-- The largest number counts the versions.
pub max_version-length :
    (vs : List Version) (r : Row) → IsHistory vs r → max_version vs ≡ some (length vs)
max_version-length [] r h = absurd h
max_version-length (v ∷ vs) r (a, n, b) =
    after_earlier v vs v.before_state n b (max_version-length vs)
