-- ===== src/Auth/Steps/Table.antt =====
-- Who changes the users table, and how.
use mathlib.Core.Path.{subst}
use prompt_flow_ai.Prelude.{
  ◌≡◌, ◌∙◌, ◌⊎◌, inl, inr, refl, sym, String, Bool, true, false, ◌||◌, Option, none, some, [], ◌∷◌,
  arith, Bool-cases, str_eq, eq_iff,
}
use prompt_flow_ai.Auth.Roles.{admin, hod, is_among, Claims}
use prompt_flow_ai.Auth.Pool.{Pool, Connection, with_session}
use prompt_flow_ai.Http.{ok}
use prompt_flow_ai.Auth.Tokens.{Jwt, Request, State, World, get_current_user}
use prompt_flow_ai.Auth.Login.{login}
use prompt_flow_ai.Auth.Users.{
  NewUser, caller, query, insert_user, listed, set_role, update_where, deactivated,
  provision_user_as, list_users_as, update_user_role_as, delete_user_as, provision_user, list_users,
  update_user_role, delete_user,
}
use prompt_flow_ai.Auth.Users.Laws.{
  Extends, OnlyRoles, keeps_itself, keeps_chain, roles_same, query-elim, insert_user-Extends,
  set_role-Extends, set_role-OnlyRoles, deactivate-Extends, with_session-elim, audited_users,
  plain_users, caller-ok,
}
use prompt_flow_ai.Auth.Steps.{
  Step, sign_in, called_back, refreshed, signed_out, service_token, provisioned, users_listed,
  role_updated, user_deleted, Reach, here, next,
}
use prompt_flow_ai.Auth.Steps.Quiet.{
  guarded-elim, refresh_token-IsQuiet, m2m_token-IsQuiet, auth_callback-cases, logout-cases,
}

-- The request of a step that a caller makes of the users table, with the world that it meets.
abbrev pub asked_by :
    {j : Jwt} {audience : String} {s s' : State} → Step j audience s s' → Option (World × Request)
asked_by (sign_in w same s) = none
asked_by (called_back w same cog q code param s) = none
asked_by (refreshed w same cog q s) = none
asked_by (signed_out w same cog q s) = none
asked_by (service_token w same checks q username password s) = none
asked_by (provisioned w same k q b p s) = some (w, q)
asked_by (users_listed w same k q p s) = some (w, q)
asked_by (role_updated w same k q user_id role p s) = some (w, q)
asked_by (user_deleted w same k q user_id p s) = some (w, q)

-- The request's own caller is accepted and may make the change: an admin, or a head of department
-- who changes roles only.
abbrev pub IsAuthorized : Option (World × Request) → (s s' : State) → Type 0
IsAuthorized none s s' = ⊥
IsAuthorized (some (w, q)) s s' =
    (c : Claims) × (get_current_user w q s ≡ ok c)
    × ((c.role ≡ "admin") ⊎ ((c.role ≡ "hod") × OnlyRoles s.users s'.users))

pub record IsOrderly (asked : Option (World × Request)) (s s' : State) : Type 0 where
  pub extends : Extends s.users s'.users
  pub authority : (s'.users ≡ s.users) ⊎ IsAuthorized asked s s'

unchanged :
    (asked : Option (World × Request)) (s s' : State) → s'.users ≡ s.users → IsOrderly asked s s'
unchanged asked s s' e = record {
  extends = subst (Extends s.users) (sym e) (keeps_itself s.users);
  authority = inl e;
}

role_among_admin : (r : String) → is_among r (admin ∷ []) ≡ true → r ≡ "admin"
role_among_admin r h = (eq_iff r "admin").0 (one (str_eq r "admin") h)
  where
    one : (b : Bool) → (b || false) ≡ true → b ≡ true
    one b h = ground arith

role_among_heads : (r : String) → is_among r (hod ∷ admin ∷ []) ≡ true → (r ≡ "hod") ⊎ (r ≡ "admin")
role_among_heads r h = elim (Bool-cases (str_eq r "hod")) [
  | inl t ↦ inl ((eq_iff r "hod").0 t)
  | inr f ↦ inr ((eq_iff r "admin").0 (other (str_eq r "hod") (str_eq r "admin") f h))
]
  where
    other : (a b : Bool) → a ≡ false → (a || (b || false)) ≡ true → b ≡ true
    other a b f h = ground arith

module _ (w : World) (k : Connection) (q : Request) (p : Pool) (s : State) where
  by_admin :
      (c : Claims) (s' : State)
      → caller w q (admin ∷ []) s ≡ ok c
      → Extends s.users s'.users
      → IsOrderly (some (w, q)) s s'
  by_admin c s' e x =
      let (a, m) = caller-ok w q (admin ∷ []) s c e in
      record { extends = x; authority = inr (c, a, inl (role_among_admin c.role m)) }

  by_head :
      (c : Claims) (s' : State)
      → caller w q (hod ∷ admin ∷ []) s ≡ ok c
      → Extends s.users s'.users
      → OnlyRoles s.users s'.users
      → IsOrderly (some (w, q)) s s'
  by_head c s' e x o =
      let (a, m) = caller-ok w q (hod ∷ admin ∷ []) s c e in
      record {
        extends = x;
        authority =
            inr (c, a, elim (role_among_heads c.role m) [ inl h ↦ inr (h, o) | inr h ↦ inl h ]);
      }

  provision_user-IsOrderly :
      (b : NewUser) → IsOrderly (some (w, q)) s (provision_user w k q b (p, s)).1.1
  unfolding provision_user provision_user_as
  provision_user-IsOrderly b =
      guarded-elim (IsOrderly (some (w, q)) s) (caller w q (admin ∷ []) s)
        (provision_user_as w k q b (p, s)) p s (unchanged (some (w, q)) s s refl)
        (λ c e. by_admin c _ e (
          subst (Extends s.users)
            (sym (audited_users w _ s (with_session k c (insert_user w b) (p, s.users))))
            (with_session-elim (Extends s.users) k c (insert_user w b) p s.users
              (keeps_itself s.users) (λ x. insert_user-Extends w b x s.users))))

  list_users-IsOrderly : IsOrderly (some (w, q)) s (list_users w k q (p, s)).1.1
  unfolding list_users list_users_as
  list_users-IsOrderly =
      guarded-elim (IsOrderly (some (w, q)) s) (caller w q (hod ∷ admin ∷ []) s)
        (list_users_as w k q (p, s)) p s (unchanged (some (w, q)) s s refl)
        (λ c e. unchanged (some (w, q)) s _ (
          plain_users s (with_session k c (λ x us. query w (listed c x us) us us) (p, s.users))
          ∙ with_session-elim (λ us. us ≡ s.users) k c (λ x us. query w (listed c x us) us us) p
              s.users refl
              (λ x.
                query-elim (λ us. us ≡ s.users) w (listed c x s.users) s.users s.users refl refl)))

  update_user_role-IsOrderly :
      (user_id : String) (role : Option String)
      → IsOrderly (some (w, q)) s (update_user_role w k q user_id role (p, s)).1.1
  unfolding update_user_role update_user_role_as
  update_user_role-IsOrderly user_id role =
      guarded-elim (IsOrderly (some (w, q)) s) (caller w q (hod ∷ admin ∷ []) s)
        (update_user_role_as w k q user_id role (p, s)) p s (unchanged (some (w, q)) s s refl)
        (λ c e.
          let table =
            sym (audited_users w _ s (with_session k c (set_role w user_id role) (p, s.users))) in
          by_head c _ e
            (subst (Extends s.users) table (
              with_session-elim (Extends s.users) k c (set_role w user_id role) p s.users
                (keeps_itself s.users) (λ x. set_role-Extends w user_id role x s.users)))
            (subst (OnlyRoles s.users) table (
              with_session-elim (OnlyRoles s.users) k c (set_role w user_id role) p s.users
                (roles_same s.users) (λ x. set_role-OnlyRoles w user_id role x s.users))))

  delete_user-IsOrderly :
      (user_id : String) → IsOrderly (some (w, q)) s (delete_user w k q user_id (p, s)).1.1
  unfolding delete_user delete_user_as
  delete_user-IsOrderly user_id =
      guarded-elim (IsOrderly (some (w, q)) s) (caller w q (admin ∷ []) s)
        (delete_user_as w k q user_id (p, s)) p s (unchanged (some (w, q)) s s refl)
        (λ c e. by_admin c _ e (
          subst (Extends s.users)
            (sym (
              audited_users w _ s (
                with_session k c (λ x us. query w tt (update_where x user_id deactivated us) us)
                  (p, s.users))))
            (with_session-elim (Extends s.users) k c
              (λ x us. query w tt (update_where x user_id deactivated us) us) p s.users
              (keeps_itself s.users) (λ x. deactivate-Extends w user_id x s.users))))

module _ (j : Jwt) (audience : String) where
  -- Every request leaves the rows of the users table in their order with their identifiers and
  -- emails, and changes the table at most when the request is one on that table and its own token is
  -- accepted in that state: that of an admin, or of a head of department, for whom only roles change.
  pub Step-IsOrderly : {s s' : State} (step : Step j audience s s') → IsOrderly (asked_by step) s s'
  unfolding login
  Step-IsOrderly (sign_in w same s) = unchanged none s _ refl
  Step-IsOrderly (called_back w same cog q code param s) =
      auth_callback-cases w q (IsOrderly none s) cog code param s (unchanged none s s refl)
        (λ s' quiet. unchanged none s s' quiet.same_users)
  Step-IsOrderly (refreshed w same cog q s) =
      unchanged none s _ (refresh_token-IsQuiet w q cog s).same_users
  Step-IsOrderly (signed_out w same cog q s) =
      logout-cases w q (IsOrderly none s) cog s (unchanged none s s refl)
        (λ claims s' e quiet. unchanged none s s' quiet.same_users)
  Step-IsOrderly (service_token w same checks q username password s) =
      unchanged none s _ (m2m_token-IsQuiet w q checks username password s).same_users
  Step-IsOrderly (provisioned w same k q b p s) = provision_user-IsOrderly w k q p s b
  Step-IsOrderly (users_listed w same k q p s) = list_users-IsOrderly w k q p s
  Step-IsOrderly (role_updated w same k q user_id role p s) =
      update_user_role-IsOrderly w k q p s user_id role
  Step-IsOrderly (user_deleted w same k q user_id p s) = delete_user-IsOrderly w k q p s user_id

  -- So the identifiers and emails of rows are for ever, and no row goes away.
  pub Reach-Extends : {s s' : State} → Reach j audience s s' → Extends s.users s'.users
  Reach-Extends {s} here = keeps_itself s.users
  Reach-Extends {s} {s'} (next {t} r step) =
      keeps_chain s.users t.users s'.users (Reach-Extends r) (Step-IsOrderly step).extends
