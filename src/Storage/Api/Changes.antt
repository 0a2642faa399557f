-- ===== src/Storage/Api/Changes.antt =====
-- What the `UPDATE` of module 4 does to the table: at most one row changes, and its place in the
-- chain of versions.
use mathlib.Core.Path.{subst}
use prompt_flow_ai.Prelude.{
  ℕ, ◌≡◌, ◌∙◌, refl, sym, ap, Bool, true, false, ◌&&◌, ◌||◌, ◌⊎◌, Option, none, some, List, [], ◌∷◌,
  ◌==◌, if◌then◌else◌, if-elim, arith, both, neither, contradiction, inl, inr, Bool-cases, ==_iff,
}
use prompt_flow_ai.Storage.Api.Tables.{Row, Version, Session, sees_paper, versions_of}
use prompt_flow_ai.Storage.Api.Context.{World}
use prompt_flow_ai.Storage.Api.Updates.{PaperUpdate, amended, kept_row, changed_row, update_rows}
use prompt_flow_ai.Storage.Api.Steps.{has_id}
use prompt_flow_ai.Storage.Api.Chain.{
  IsHistory, HaveHistory, HaveHistory-other, Distinct, versions_of-other,
}

-- The second list is the first with the one row in place of the other, which has its identifier.
abbrev pub Changed : (old new : Row) → List Row → List Row → Type 0
Changed old new [] rs' = ⊥
Changed old new (r ∷ rs) [] = ⊥
Changed old new (r ∷ rs) (r' ∷ rs') =
    ((r ≡ old) × (r' ≡ new) × (rs' ≡ rs) × (new.paper_id ≡ old.paper_id))
    ⊎ ((r' ≡ r) × Changed old new rs rs')

abbrev pub IsOutcome : List Row → Option (List Row × List (Row × Row)) → Type 0
IsOutcome rs none = Unit
IsOutcome rs (some (rs', [])) = rs' ≡ rs
IsOutcome rs (some (rs', c ∷ [])) = Changed c.0 c.1 rs rs'
IsOutcome rs (some (rs', c ∷ (d ∷ cs))) = ⊥

update_rows-absent :
    (s : Session) (w : World) (id : ℕ) (u : PaperUpdate) (all rs : List Row)
    → has_id id rs ≡ false
    → update_rows s w id u all rs ≡ some (rs, [])
unfolding update_rows has_id
update_rows-absent s w id u all [] h = refl
update_rows-absent s w id u all (r ∷ rs) h =
    ap
      (λ b.
        if b && sees_paper s r.paper
        then changed_row r (amended s w u all r) (update_rows s w id u all rs)
        else kept_row r (update_rows s w id u all rs))
      (neither h).0
    ∙ ap (kept_row r) (update_rows-absent s w id u all rs (neither h).1)

KeepsId : Row → Option Row → Type 0
KeepsId r none = Unit
KeepsId r (some new) = new.paper_id ≡ r.paper_id

KeepsId-if :
    (b : Bool) (r new : Row) → new.paper_id ≡ r.paper_id → KeepsId r (if b then some new else none)
unfolding KeepsId
KeepsId-if true r new e = e
KeepsId-if false r new e = tt

amended-KeepsId :
    (s : Session) (w : World) (u : PaperUpdate) (all : List Row) (r : Row)
    → KeepsId r (amended s w u all r)
unfolding amended
amended-KeepsId s w u all r = KeepsId-if _ r _ refl

changed_row-IsOutcome :
    (r : Row) (rs : List Row) (o : Option Row)
    → KeepsId r o
    → IsOutcome (r ∷ rs) (changed_row r o (some (rs, [])))
unfolding KeepsId
changed_row-IsOutcome r rs none k = tt
changed_row-IsOutcome r rs (some new) k = inl (refl, refl, refl, k)

kept_row-IsOutcome :
    (r : Row) (rs : List Row) (o : Option (List Row × List (Row × Row)))
    → IsOutcome rs o
    → IsOutcome (r ∷ rs) (kept_row r o)
kept_row-IsOutcome r rs none h = tt
kept_row-IsOutcome r rs (some (rs', [])) h = ap (λ xs. r ∷ xs) h
kept_row-IsOutcome r rs (some (rs', c ∷ [])) h = inr (refl, h)
kept_row-IsOutcome r rs (some (rs', c ∷ (d ∷ cs))) h = h

pub update_rows-IsOutcome :
    (s : Session) (w : World) (id : ℕ) (u : PaperUpdate) (all rs : List Row)
    → Distinct rs
    → IsOutcome rs (update_rows s w id u all rs)
unfolding update_rows
update_rows-IsOutcome s w id u all [] h = refl
update_rows-IsOutcome s w id u all (r ∷ rs) (h, d) =
    if-elim (IsOutcome (r ∷ rs)) (r.paper_id == id && sees_paper s r.paper) _ _
      (λ e.
        subst (λ o. IsOutcome (r ∷ rs) (changed_row r (amended s w u all r) o))
          (sym (
            update_rows-absent s w id u all rs
              (subst (λ n. has_id n rs ≡ false) ((==_iff r.paper_id id).0 (both e).0) h)))
          (changed_row-IsOutcome r rs (amended s w u all r) (amended-KeepsId s w u all r)))
      (λ _.
        kept_row-IsOutcome r rs (update_rows s w id u all rs)
          (update_rows-IsOutcome s w id u all rs d))

pub Changed-has_id :
    (id : ℕ) (old new : Row) (rs rs' : List Row)
    → Changed old new rs rs'
    → has_id id rs' ≡ has_id id rs
unfolding has_id
Changed-has_id id old new [] rs' h = absurd h
Changed-has_id id old new (r ∷ rs) [] h = absurd h
Changed-has_id id old new (r ∷ rs) (r' ∷ rs') (inl (a, b, c, e)) =
    ap (λ n. (n == id) || has_id id rs') (ap Row.paper_id b ∙ e ∙ sym (ap Row.paper_id a))
    ∙ ap (λ xs. (r.paper_id == id) || has_id id xs) c
Changed-has_id id old new (r ∷ rs) (r' ∷ rs') (inr (a, h)) =
    ap (λ n. (n == id) || has_id id rs') (ap Row.paper_id a)
    ∙ ap (λ b. (r.paper_id == id) || b) (Changed-has_id id old new rs rs' h)

pub Changed-Distinct :
    (old new : Row) (rs rs' : List Row) → Changed old new rs rs' → Distinct rs → Distinct rs'
Changed-Distinct old new [] rs' h d = absurd h
Changed-Distinct old new (r ∷ rs) [] h d = absurd h
Changed-Distinct old new (r ∷ rs) (r' ∷ rs') (inl (a, b, c, e)) (f, d) = (
  subst (λ n. has_id n rs' ≡ false) (ap Row.paper_id a ∙ sym e ∙ sym (ap Row.paper_id b))
      (ap (has_id r.paper_id) c ∙ f),
  subst Distinct (sym c) d,
)
Changed-Distinct old new (r ∷ rs) (r' ∷ rs') (inr (a, h)) (f, d) = (
  subst (λ x. has_id x.paper_id rs' ≡ false) (sym a)
      (Changed-has_id r.paper_id old new rs rs' h ∙ f),
  Changed-Distinct old new rs rs' h d,
)

-- The row that changed was there, with its history.
pub Changed-IsHistory :
    (old new : Row) (vs : List Version) (rs rs' : List Row)
    → Changed old new rs rs'
    → HaveHistory vs rs
    → (new.paper_id ≡ old.paper_id)
      × IsHistory (versions_of old.paper_id vs) old
      × (has_id old.paper_id rs ≡ true)
unfolding has_id
Changed-IsHistory old new vs [] rs' h k = absurd h
Changed-IsHistory old new vs (r ∷ rs) [] h k = absurd h
Changed-IsHistory old new vs (r ∷ rs) (r' ∷ rs') (inl (a, b, c, e)) (k, ks) = (
  e,
  subst (λ x. IsHistory (versions_of x.paper_id vs) x) a k,
  ap (λ b. b || has_id old.paper_id rs) ((==_iff r.paper_id old.paper_id).1 (ap Row.paper_id a)),
)
Changed-IsHistory old new vs (r ∷ rs) (r' ∷ rs') (inr (a, h)) (k, ks) =
    let (e, i, m) = Changed-IsHistory old new vs rs rs' h ks in (e, i, ground arith)

-- The changed row is not one whose identifier the table lacks.
is_other :
    (n : ℕ) (r old new : Row) (rs rs' : List Row) (vs : List Version)
    → Changed old new rs rs'
    → HaveHistory vs rs
    → has_id r.paper_id rs ≡ false
    → n ≡ new.paper_id
    → (n == r.paper_id) ≡ false
is_other n r old new rs rs' vs h k g e = elim (Bool-cases (n == r.paper_id)) [
  | inl t ↦
      let (f, _, m) = Changed-IsHistory old new vs rs rs' h k in
      absurd (
        contradiction m
          (subst (λ x. has_id x rs ≡ false) (sym ((==_iff n r.paper_id).0 t) ∙ e ∙ f) g))
  | inr f ↦ f
]

-- A version of the changed row that continues its history.
pub HaveHistory-Changed :
    (old new : Row) (v : Version) (vs : List Version) (rs rs' : List Row)
    → Changed old new rs rs'
    → v.paper_id ≡ new.paper_id
    → IsHistory (versions_of new.paper_id (v ∷ vs)) new
    → Distinct rs
    → HaveHistory vs rs
    → HaveHistory (v ∷ vs) rs'
HaveHistory-Changed old new v vs [] rs' h e i d k = absurd h
HaveHistory-Changed old new v vs (r ∷ rs) [] h e i d k = absurd h
HaveHistory-Changed old new v vs (r ∷ rs) (r' ∷ rs') (inl (a, b, c, f)) e i (g, d) (k, ks) = (
  subst (λ x. IsHistory (versions_of x.paper_id (v ∷ vs)) x) (sym b) i,
  subst (HaveHistory (v ∷ vs)) (sym c) (
      HaveHistory-other old.paper_id v vs rs (e ∙ f) (subst (λ x. has_id x.paper_id rs ≡ false) a g)
        ks),
)
HaveHistory-Changed old new v vs (r ∷ rs) (r' ∷ rs') (inr (a, h)) e i (g, d) (k, ks) = (
  subst (λ x. IsHistory (versions_of x.paper_id (v ∷ vs)) x) (sym a)
      (subst (λ us. IsHistory us r)
        (sym (versions_of-other r.paper_id v vs (is_other v.paper_id r old new rs rs' vs h ks g e)))
        k),
  HaveHistory-Changed old new v vs rs rs' h e i d ks,
)
