-- ===== src/Auth/Users/Laws.antt =====
-- What the handlers of the users table may do to it.
use prompt_flow_ai.Prelude.{
  ◌≡◌, ◌∙◌, refl, String, true, not, ◌&&◌, ◌||◌, Option, none, some, List, [], ◌∷◌, ◌++◌, if-elim,
  str_eq, non_empty,
}
use mathlib.Core.Path.{subst}
use prompt_flow_ai.Auth.Roles.{Role, is_among, roles, Claims}
use prompt_flow_ai.Auth.Pool.{
  Pool, Connection, Context, context_of, enter_works, finish, available, acquired, with_session,
}
use prompt_flow_ai.Http.{Answer, ok, http_error, unhandled}
use prompt_flow_ai.Auth.Tokens.{Request, User, State, World, Audit, get_current_user, require_role}
use prompt_flow_ai.Auth.Tokens.Laws.{ok_same}
use prompt_flow_ai.Http.{not_ok}
use prompt_flow_ai.Auth.Login.Laws.{log_audit_users}
use prompt_flow_ai.Auth.Users.{
  NewUser, is_visible, update_where, with_role, deactivated, new_row, role_str, text_of, is_taken,
  insert_user, query, set_role, audited, plain, caller,
}

-- Rows stay, in their order, with their identifiers and email; new rows follow them.
abbrev pub Extends : List User → List User → Type 0
Extends [] vs = Unit
Extends (u ∷ us) [] = ⊥
Extends (u ∷ us) (v ∷ vs) =
    ((v.user_id ≡ u.user_id) × ((v.faculty_id ≡ u.faculty_id) × (v.email ≡ u.email)))
    × Extends us vs

-- Nothing but roles differs.
abbrev pub OnlyRoles : List User → List User → Type 0
OnlyRoles [] [] = Unit
OnlyRoles [] (v ∷ vs) = ⊥
OnlyRoles (u ∷ us) [] = ⊥
OnlyRoles (u ∷ us) (v ∷ vs) = (v ≡ record u { role = v.role }) × OnlyRoles us vs

pub keeps_itself : (us : List User) → Extends us us
keeps_itself [] = tt
keeps_itself (u ∷ us) = ((refl, (refl, refl)), keeps_itself us)

pub keeps_chain : (us vs ws : List User) → Extends us vs → Extends vs ws → Extends us ws
keeps_chain [] vs ws h k = tt
keeps_chain (u ∷ us) [] ws h k = absurd h
keeps_chain (u ∷ us) (v ∷ vs) [] h k = absurd k
keeps_chain (u ∷ us) (v ∷ vs) (x ∷ ws) ((a, (b, c)), h) ((d, (e, f)), k) =
    ((d ∙ a, (e ∙ b, f ∙ c)), keeps_chain us vs ws h k)

pub roles_same : (us : List User) → OnlyRoles us us
roles_same [] = tt
roles_same (u ∷ us) = (refl, roles_same us)

Extends-append : (us vs : List User) → Extends us (us ++ vs)
Extends-append [] vs = tt
Extends-append (u ∷ us) vs = ((refl, (refl, refl)), Extends-append us vs)

update_where-Extends :
    (k : Context) (user_id : String) (change : User → User)
    → ((u : User)
        → ((change u).user_id ≡ u.user_id)
          × (((change u).faculty_id ≡ u.faculty_id) × ((change u).email ≡ u.email)))
    → (us : List User) → Extends us (update_where k user_id change us)
unfolding update_where
update_where-Extends k user_id change kept [] = tt
update_where-Extends k user_id change kept (u ∷ us) =
    if-elim (Extends (u ∷ us)) (str_eq u.user_id user_id && is_visible k u) _ _
      (λ _. (kept u, update_where-Extends k user_id change kept us))
      (λ _. ((refl, (refl, refl)), update_where-Extends k user_id change kept us))

update_where-OnlyRoles :
    (k : Context) (user_id role : String) (us : List User)
    → OnlyRoles us (update_where k user_id (with_role role) us)
unfolding update_where
update_where-OnlyRoles k user_id role [] = tt
update_where-OnlyRoles k user_id role (u ∷ us) =
    if-elim (OnlyRoles (u ∷ us)) (str_eq u.user_id user_id && is_visible k u) _ _
      (λ _. (refl, update_where-OnlyRoles k user_id role us))
      (λ _. (refl, update_where-OnlyRoles k user_id role us))

abbrev Table : {A : Type 0} → (List User → Type 0) → Answer A × List User → Type 0
Table P r = P r.1

pub query-elim :
    {A : Type 0} (P : List User → Type 0) (w : World) (a : A) (us' us : List User)
    → P us'
    → P us
    → P (query w a us' us).1
unfolding query
query-elim P w a us' us h k = if-elim (Table P) w.database_works _ _ (λ _. h) (λ _. k)

pub insert_user-Extends :
    (w : World) (b : NewUser) (k : Context) (us : List User) → Extends us (insert_user w b k us).1
unfolding insert_user
insert_user-Extends w b k us =
    if-elim (Table (Extends us)) (not (non_empty (text_of b.email))) _ _ (λ _. keeps_itself us)
      (λ _.
        if-elim (Table (Extends us)) (not (is_among (role_str b) roles)) _ _ (λ _. keeps_itself us)
          (λ _.
            if-elim (Table (Extends us)) (not w.database_works || is_taken (new_row w b) us) _ _
              (λ _. keeps_itself us) (λ _. Extends-append us (new_row w b ∷ []))))

-- What `set_role` does to the table, whatever is asked.
pub set_role-elim :
    (P : List User → Type 0) (w : World) (user_id : String) (role : Option String) (k : Context)
    (us : List User)
    → P us
    → ((r : String) → P (update_where k user_id (with_role r) us))
    → P (set_role w user_id role k us).1
unfolding set_role
set_role-elim P w user_id none k us h f = h
set_role-elim P w user_id (some role) k us h f =
    if-elim (Table P) (not (is_among role roles)) _ _ (λ _. h)
      (λ _. query-elim P w role (update_where k user_id (with_role role) us) us (f role) h)

pub set_role-Extends :
    (w : World) (user_id : String) (role : Option String) (k : Context) (us : List User)
    → Extends us (set_role w user_id role k us).1
set_role-Extends w user_id role k us =
    set_role-elim (Extends us) w user_id role k us (keeps_itself us)
      (λ r. update_where-Extends k user_id (with_role r) (λ u. (refl, (refl, refl))) us)

pub set_role-OnlyRoles :
    (w : World) (user_id : String) (role : Option String) (k : Context) (us : List User)
    → OnlyRoles us (set_role w user_id role k us).1
set_role-OnlyRoles w user_id role k us =
    set_role-elim (OnlyRoles us) w user_id role k us (roles_same us)
      (λ r. update_where-OnlyRoles k user_id r us)

pub deactivate-Extends :
    (w : World) (user_id : String) (k : Context) (us : List User)
    → Extends us (query w tt (update_where k user_id deactivated us) us).1
deactivate-Extends w user_id k us =
    query-elim (Extends us) w tt (update_where k user_id deactivated us) us
      (update_where-Extends k user_id deactivated (λ u. (refl, (refl, refl))) us) (keeps_itself us)

-- A session leaves the table as it was, or as its body leaves it.
module _ {A : Type 0} (P : List User → Type 0) (k : Connection) where
  finish-elim :
      (r : Answer A × List User) (p : Pool) (us : List User)
      → P us
      → P r.1
      → P (finish k r (p, us)).1.1
  unfolding finish
  finish-elim (ok a, us') p us h g = if-elim P k.commit_works _ _ (λ _. g) (λ _. h)
  finish-elim (http_error status detail, us') p us h g =
      if-elim {A = Answer A × (Pool × List User)} (λ r. P r.1.1) k.rollback_works _ _ (λ _. h)
        (λ _. h)
  finish-elim (unhandled, us') p us h g = h

  acquired-elim :
      (c : Claims) (body : Context → List User → Answer A × List User) (p : Pool) (us : List User)
      → P us
      → ((x : Context) → P (body x us).1)
      → P (acquired k c body (p, us)).1.1
  unfolding acquired
  acquired-elim c body p us h g =
      if-elim {A = Answer A × (Pool × List User)} (λ r. P r.1.1) (enter_works k) _ _
        (λ _. finish-elim (body (context_of c) us) _ us h (g (context_of c))) (λ _. h)

  pub with_session-elim :
      (c : Claims) (body : Context → List User → Answer A × List User) (p : Pool) (us : List User)
      → P us
      → ((x : Context) → P (body x us).1)
      → P (with_session k c body (p, us)).1.1
  unfolding with_session
  with_session-elim c body p us h g = acquired-elim c body (available p) us h g

pub audited_users :
    {A : Type 0} (w : World) (e : Audit) (s : State) (r : Answer A × (Pool × List User))
    → (audited w e s r).1.1.users ≡ r.1.1
unfolding audited
audited_users w e s (ok a, (p, us)) = log_audit_users w e (record s { users = us })
audited_users w e s (http_error status detail, (p, us)) = refl
audited_users w e s (unhandled, (p, us)) = refl

pub plain_users :
    {A : Type 0} (s : State) (r : Answer A × (Pool × List User)) → (plain s r).1.1.users ≡ r.1.1
unfolding plain
plain_users s (a, (p, us)) = refl

-- A caller that passes the check was accepted and has one of the roles.
require_role-ok :
    (allowed : List Role) (a : Answer Claims) (c : Claims)
    → require_role allowed a ≡ ok c
    → (a ≡ ok c) × (is_among c.role allowed ≡ true)
unfolding require_role
require_role-ok allowed (ok d) c e =
    if-elim (λ r. r ≡ ok c → (ok d ≡ ok c) × (is_among c.role allowed ≡ true))
      (is_among d.role allowed) _ _
      (λ t same. (same, subst (λ x. is_among x.role allowed ≡ true) (ok_same d c same) t))
      (λ _ same. absurd (not_ok _ c (λ x. x) same)) e
require_role-ok allowed (http_error status detail) c e = absurd (not_ok _ c (λ x. x) e)
require_role-ok allowed unhandled c e = absurd (not_ok _ c (λ x. x) e)

pub caller-ok :
    (w : World) (q : Request) (allowed : List Role) (s : State) (c : Claims)
    → caller w q allowed s ≡ ok c
    → (get_current_user w q s ≡ ok c) × (is_among c.role allowed ≡ true)
unfolding caller
caller-ok w q allowed s c e = require_role-ok allowed (get_current_user w q s) c e
