-- ===== src/Auth/Steps.antt =====
-- The requests of module 1 as steps of its state, in any order and under any conditions.
pub mod Quiet
pub mod Revoked
pub mod Table
use prompt_flow_ai.Prelude.{ℕ, ◌≡◌, String, Bool, true, false, Option, none, some, List, [], ◌∷◌}
use prompt_flow_ai.Prelude.Text.{Text}
use prompt_flow_ai.Auth.Roles.{Claims}
use prompt_flow_ai.Auth.Pool.{Pool, Connection}
use prompt_flow_ai.Auth.Tokens.{Jwt, Request, State, World}
use prompt_flow_ai.Auth.Login.{Cognito, login, auth_callback, refresh_token, logout}
use prompt_flow_ai.Auth.Services.{Checks, m2m_token}
use prompt_flow_ai.Auth.Users.{NewUser, provision_user, list_users, update_user_role, delete_user}

-- Every request meets the same key pair and audience.
pub record IsSameService (j : Jwt) (audience : String) (w : World) : Type 0 where
  pub same_jwt : w.jwt ≡ j
  pub same_audience : w.settings.jwt_audience ≡ audience

module _ (j : Jwt) (audience : String) where
  pub data Step : State → State → Type 0 where
    sign_in : (w : World) → IsSameService j audience w → (s : State) → Step s (login w s).1
    called_back :
        (w : World)
        → IsSameService j audience w
        → (c : Cognito) (q : Request) (code param : String) (s : State)
        → Step s (auth_callback w c q code param s).1
    refreshed :
        (w : World)
        → IsSameService j audience w
        → (c : Cognito) (q : Request) (s : State) → Step s (refresh_token w c q s).1
    signed_out :
        (w : World)
        → IsSameService j audience w
        → (c : Cognito) (q : Request) (s : State) → Step s (logout w c q s).1
    service_token :
        (w : World)
        → IsSameService j audience w
        → (h : Checks) (q : Request) (username : String) (password : Text) (s : State)
        → Step s (m2m_token w h q username password s).1
    provisioned :
        (w : World)
        → IsSameService j audience w
        → (k : Connection) (q : Request) (b : NewUser) (p : Pool) (s : State)
        → Step s (provision_user w k q b (p, s)).1.1
    users_listed :
        (w : World)
        → IsSameService j audience w
        → (k : Connection) (q : Request) (p : Pool) (s : State)
        → Step s (list_users w k q (p, s)).1.1
    role_updated :
        (w : World)
        → IsSameService j audience w
        → (k : Connection) (q : Request) (user_id : String) (role : Option String) (p : Pool)
          (s : State)
        → Step s (update_user_role w k q user_id role (p, s)).1.1
    user_deleted :
        (w : World)
        → IsSameService j audience w
        → (k : Connection) (q : Request) (user_id : String) (p : Pool) (s : State)
        → Step s (delete_user w k q user_id (p, s)).1.1

  pub data Reach (s : State) : State → Type 0 where
    here : Reach s s
    next : {t u : State} → Reach s t → Step t u → Reach s u
