-- ===== src/Auth/Users.antt =====
-- module1-auth/app/routes/users.py: the users table, under the row-level policies
-- of schema.sql.
pub mod Laws
use Prim.Native.String
use mathlib.Core.List.{reverse}
use prompt_flow_ai.Prelude.{
  ℕ, String, Bool, true, false, not, ◌&&◌, ◌||◌, Option, none, some, List, [], ◌∷◌, ◌++◌, map, any,
  head_of, non_empty, str_eq, if◌then◌else◌,
}
use prompt_flow_ai.Prelude.Text.{Text, codes, text_eq, before}
use prompt_flow_ai.Auth.Roles.{Role, admin, hod, system_worker, roles, is_among, Claims}
use prompt_flow_ai.Auth.Pool.{Pool, Connection, Context, with_session}
use prompt_flow_ai.Http.{Answer, ok, http_error, unhandled}
use prompt_flow_ai.Auth.Tokens.{
  Request, User, State, World, Audit, get_current_user, require_role, log_audit, audit_of,
}

-- `users_dept_isolation` and `users_self_access`: a missing department equals none.
unfoldable pub is_visible : Context → User → Bool
is_visible k u =
    elim u.department_code [ none ↦ false | some d ↦ str_eq d k.department ]
    || str_eq k.role "admin"
    || str_eq u.user_id k.user_id

keep : (User → Bool) → List User → List User
keep p [] = []
keep p (u ∷ us) = let rest = keep p us in if p u then u ∷ rest else rest

-- UPDATE of the visible rows with an identifier
unfoldable pub update_where : Context → (user_id : String) → (User → User) → List User → List User
unfolding is_visible
update_where k user_id change [] = []
update_where k user_id change (u ∷ us) =
    let rest = update_where k user_id change us in
    if str_eq u.user_id user_id && is_visible k u then change u ∷ rest else u ∷ rest

abbrev pub with_role : String → User → User
with_role role u = record u { role = role }

abbrev pub deactivated : User → User
deactivated u = record u { is_active = false }

pub record NewUser : Type 0 where
  pub email : Option Text
  pub role : Option String
  pub department_code : Option String
  pub name : Option Text

abbrev pub Reply : Type 0 → Type 0
Reply A = Answer A × (Pool × State)

-- The audit row is written in a session of its own, once the handler's own query has been made.
unfoldable pub audited :
    {A : Type 0} → World → Audit → State → Answer A × (Pool × List User) → Reply A
unfolding log_audit
audited w entry s (ok a, (p, us)) = (ok a, (p, log_audit w entry (record s { users = us })))
audited w entry s (http_error status detail, (p, us)) =
    (http_error status detail, (p, record s { users = us }))
audited w entry s (unhandled, (p, us)) = (unhandled, (p, record s { users = us }))

unfoldable pub plain : {A : Type 0} → State → Answer A × (Pool × List User) → Reply A
plain s (a, (p, us)) = (a, (p, record s { users = us }))

-- The handler runs once its caller is known; else the check's own answer is given, and no connection
-- is taken.
unfoldable pub guarded : {A : Type 0} → Answer Claims → (Claims → Reply A) → Pool × State → Reply A
guarded (ok c) handler ps = handler c
guarded (http_error status detail) handler ps = (http_error status detail, ps)
guarded unhandled handler ps = (unhandled, ps)

unfoldable pub caller : World → Request → List Role → State → Answer Claims
unfolding require_role get_current_user
caller w q allowed s = require_role allowed (get_current_user w q s)

abbrev pub text_of : Option Text → Text
text_of none = []
text_of (some t) = t

abbrev pub role_str : NewUser → String
role_str b = elim b.role [ none ↦ "faculty" | some r ↦ r ]

abbrev pub new_row : World → NewUser → User
new_row w b = record {
  user_id = String.◌++◌ "user_" w.uuid;
  faculty_id = w.faculty_uuid;
  email = text_of b.email;
  name = b.name;
  role = role_str b;
  department_code = b.department_code;
  is_active = true;
}

-- What the unique columns of the table rule out.
unfoldable pub is_taken : User → List User → Bool
is_taken u us =
    any
      (λ x.
        str_eq x.user_id u.user_id || str_eq x.faculty_id u.faculty_id || text_eq x.email u.email)
      us

-- The checks of `provision_user`, and its INSERT: any exception of the database is a 409.
unfoldable pub insert_user : World → NewUser → Context → List User → Answer User × List User
unfolding is_taken
insert_user w b k us =
    if not (non_empty (text_of b.email))
    then (http_error 400 "email is required", us)
    else if not (is_among (role_str b) roles)
    then (http_error 400 "Invalid role", us)
    else if not w.database_works || is_taken (new_row w b) us
    then (http_error 409 "A user with this email already exists", us)
    else (ok (new_row w b), us ++ new_row w b ∷ [])

-- The handlers proper, for a caller whose claims have been checked, and with their check.
unfoldable pub provision_user_as :
    World → Connection → Request → NewUser → Pool × State → Claims → Reply User
unfolding audited with_session insert_user
provision_user_as w conn q b (p, s) claims =
    audited w
      (audit_of q "USER_PROVISIONED" "user" (some claims.sub) "user" (some (new_row w b).user_id)
        (("email", text_of b.email) ∷ ("role", codes (role_str b)) ∷ []))
      s (with_session conn claims (insert_user w b) (p, s.users))

unfoldable pub provision_user : World → Connection → Request → NewUser → Pool × State → Reply User
unfolding caller guarded provision_user_as
provision_user w conn q b (p, s) =
    guarded (caller w q (admin ∷ []) s) (provision_user_as w conn q b (p, s)) (p, s)

-- A query that raises leaves the handler.
unfoldable pub query : {A : Type 0} → World → A → List User → List User → Answer A × List User
query w a us' us = if w.database_works then (ok a, us') else (unhandled, us)

abbrev pub Row : Type 0
Row = String × (Text × (String × (Option String × Bool)))

abbrev row_of : User → Row
row_of u = (u.user_id, (u.email, (u.role, (u.department_code, u.is_active))))

in_department : Option String → User → Bool
in_department none u = false
in_department (some d) u = elim u.department_code [ none ↦ false | some e ↦ str_eq e d ]

-- The rows of `list_users`, the latest first; the table holds them in the order of creation.
unfoldable pub listed : Claims → Context → List User → List Row
unfolding keep is_visible in_department
listed claims k us =
    if str_eq claims.role "admin"
    then map row_of (reverse (keep (is_visible k) us))
    else map row_of
        (reverse (keep (λ u. is_visible k u && in_department claims.department_code u) us))

unfoldable pub list_users_as :
    World → Connection → Request → Pool × State → Claims → Reply (List Row)
unfolding plain with_session query listed
list_users_as w conn q (p, s) claims =
    plain s (with_session conn claims (λ k us. query w (listed claims k us) us us) (p, s.users))

unfoldable pub list_users : World → Connection → Request → Pool × State → Reply (List Row)
unfolding caller guarded list_users_as
list_users w conn q (p, s) =
    guarded (caller w q (hod ∷ admin ∷ []) s) (list_users_as w conn q (p, s)) (p, s)

-- The check of `update_user_role`, and its UPDATE.
unfoldable pub set_role :
    World
    → (user_id : String) → (role : Option String) → Context
    → List User
    → Answer String × List User
unfolding query update_where
set_role w user_id none k us = (http_error 400 "Invalid role", us)
set_role w user_id (some role) k us =
    if not (is_among role roles)
    then (http_error 400 "Invalid role", us)
    else query w role (update_where k user_id (with_role role) us) us

unfoldable pub update_user_role_as :
    World
    → Connection
    → Request
    → (user_id : String) → Option String
    → Pool × State
    → Claims
    → Reply String
unfolding audited with_session set_role
update_user_role_as w conn q user_id role (p, s) claims =
    audited w
      (audit_of q "ROLE_CHANGED" "user" (some claims.sub) "user" (some user_id)
        (("new_role", codes (elim role [ none ↦ "" | some r ↦ r ])) ∷ []))
      s (with_session conn claims (set_role w user_id role) (p, s.users))

unfoldable pub update_user_role :
    World → Connection → Request → (user_id : String) → Option String → Pool × State → Reply String
unfolding caller guarded update_user_role_as
update_user_role w conn q user_id role (p, s) =
    guarded (caller w q (hod ∷ admin ∷ []) s) (update_user_role_as w conn q user_id role (p, s))
      (p, s)

unfoldable pub delete_user_as :
    World → Connection → Request → (user_id : String) → Pool × State → Claims → Reply Unit
unfolding audited with_session query update_where
delete_user_as w conn q user_id (p, s) claims =
    audited w (audit_of q "USER_DEACTIVATED" "user" (some claims.sub) "user" (some user_id) []) s (
      with_session conn claims (λ k us. query w tt (update_where k user_id deactivated us) us)
        (p, s.users))

unfoldable pub delete_user :
    World → Connection → Request → (user_id : String) → Pool × State → Reply Unit
unfolding caller guarded delete_user_as
delete_user w conn q user_id (p, s) =
    guarded (caller w q (admin ∷ []) s) (delete_user_as w conn q user_id (p, s)) (p, s)
