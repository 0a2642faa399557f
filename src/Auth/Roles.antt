-- ===== src/Auth/Roles.antt =====
-- module1-auth/app/models/jwt.py: roles, their permissions, and the claims of a token.
use prompt_flow_ai.Prelude.{
  ℕ, arith, ◌≡◌, inl, inr, refl, sym, ap, ◌∙◌, String, Bool, true, false, Option, none, some, List,
  [], ◌∷◌, any, str_eq, eq_iff, Bool-cases, if◌then◌else◌,
}
use prompt_flow_ai.Prelude.Text.{Text}

pub data Role : Type 0 where
  faculty coordinator hod admin system_worker : Role

pub data AuthType : Type 0 where
  user m2m : AuthType

abbrev pub role_value : Role → String
role_value faculty = "faculty"
role_value coordinator = "coordinator"
role_value hod = "hod"
role_value admin = "admin"
role_value system_worker = "system_worker"

abbrev pub auth_type_value : AuthType → String
auth_type_value user = "user"
auth_type_value m2m = "m2m"

-- `ROLE_PERMISSIONS` and `get_permissions`
abbrev pub get_permissions : Role → List String
get_permissions faculty =
    "paper.view.self" ∷ "paper.submit" ∷ "paper.reprocess.self" ∷ "search.dept" ∷ []
get_permissions coordinator =
    "paper.view.self" ∷ "paper.submit" ∷ "paper.reprocess.self" ∷ "paper.review" ∷ "paper.approve"
    ∷ "export.create" ∷ "search.dept" ∷ []
get_permissions hod =
    "paper.view.self" ∷ "paper.submit" ∷ "paper.review" ∷ "paper.approve" ∷ "export.create"
    ∷ "user.manage" ∷ "audit.view" ∷ "metrics.view" ∷ "search.dept" ∷ []
get_permissions admin =
    "paper.view.all" ∷ "paper.submit" ∷ "paper.review" ∷ "paper.approve" ∷ "export.create"
    ∷ "export.global" ∷ "user.manage" ∷ "user.delete" ∷ "audit.view" ∷ "metrics.view"
    ∷ "system.config" ∷ "search.global" ∷ []
get_permissions system_worker = "queue.consume" ∷ "db.write.internal" ∷ []

-- The members of the enumeration, in their order.
abbrev pub roles : List Role
roles = faculty ∷ coordinator ∷ hod ∷ admin ∷ system_worker ∷ []

role_among : String → List Role → Option Role
role_among s [] = none
role_among s (r ∷ rs) =
    let rest = role_among s rs in if str_eq s (role_value r) then some r else rest

-- `Role(s)`: `none` is a `ValueError`.
unfoldable pub role_of : String → Option Role
unfolding role_among
role_of s = role_among s roles

-- `s in [r.value for r in roles]`
abbrev pub is_among : String → List Role → Bool
is_among s rs = any (λ r. str_eq s (role_value r)) rs

-- The claims that a token carries.
pub record Claims : Type 0 where
  pub sub : String
  pub name : Text
  pub email : Text
  pub role : String
  pub department_code : Option String
  pub permissions : List String
  pub iss : String
  pub aud : String
  pub faculty_id : Option String
  pub exp : ℕ
  pub iat : ℕ
  pub auth_type : String
  pub trace_id : String

-- A role is read back from its value.
pub role_of-role_value : (r : Role) → role_of (role_value r) ≡ some r
unfolding role_of role_among
role_of-role_value faculty = refl
role_of-role_value coordinator = refl
role_of-role_value hod = refl
role_of-role_value admin = refl
role_of-role_value system_worker = refl

value_or : Option Role → Role
value_or none = faculty
value_or (some r) = r

same_some : {r q : Role} → some r ≡ some q → r ≡ q
unfolding value_or
same_some e = ap value_or e

is_none : Option Role → Bool
is_none none = true
is_none (some r) = false

clash_bool : true ≡ false → ⊥
clash_bool b = ground arith

among_value : (s : String) (rs : List Role) (r : Role) → role_among s rs ≡ some r → s ≡ role_value r
unfolding role_among is_none
among_value s [] r e = absurd (clash_bool (ap is_none e))
among_value s (q ∷ rs) r e = elim (Bool-cases (str_eq s (role_value q))) [
  | inl t ↦ (eq_iff s (role_value q)).0 t ∙ ap role_value (same_some (sym (taken t) ∙ e))
  | inr f ↦ among_value s rs r (sym (skipped f) ∙ e)
]
  where
    taken : str_eq s (role_value q) ≡ true → role_among s (q ∷ rs) ≡ some q
    taken t = rw t refl

    skipped : str_eq s (role_value q) ≡ false → role_among s (q ∷ rs) ≡ role_among s rs
    skipped f = rw f refl

-- Only its own value reads as a role.
pub role_of_sound : (s : String) (r : Role) → role_of s ≡ some r → s ≡ role_value r
unfolding role_of
role_of_sound s r e = among_value s roles r e
