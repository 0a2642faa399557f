-- ===== src/Storage/Api/Context.antt =====
-- Who a request of module 4 is for: `rls_context` of module4-storage/app/main.py, with
-- `set_rls_context` and `set_admin_context` of app/database.py.
use prompt_flow_ai.Prelude.{
  ℕ, Bool, not, Option, none, some, List, [], ◌∷◌, any, non_empty, if◌then◌else◌,
}
use prompt_flow_ai.Prelude.Text.{Text, codes, text_eq}
use prompt_flow_ai.Http.{Answer, ok, http_error}
use prompt_flow_ai.Storage.Api.Tables.{Session}

-- The settings, the clock, what `uuid4` gives the new row and the trace, and whether the commit
-- succeeds.
pub record World : Type 0 where
  pub allow_missing_auth_headers : Bool
  pub now : ℕ
  pub current_year : ℕ
  pub new_id : ℕ
  pub trace_id : ℕ
  pub commits : Bool

pub record Headers : Type 0 where
  pub x_department_code : Option Text
  pub x_role : Option Text
  pub x_user_id : Option Text

unfoldable pub set_rls_context : World → (department_code role user_id actor_type : Text) → Session
set_rls_context w department_code role user_id actor_type = record {
  department_code = department_code;
  role = role;
  user_id = user_id;
  actor_type = actor_type;
  change_reason = codes "system_write";
  trace_id = w.trace_id;
}

unfoldable pub set_admin_context : World → Session
set_admin_context w = record {
  department_code = codes "__admin__";
  role = codes "admin";
  user_id = codes "system";
  actor_type = codes "system";
  change_reason = codes "admin_operation";
  trace_id = w.trace_id;
}

abbrev pub valid_roles : List Text
valid_roles =
    codes "faculty" ∷ codes "coordinator" ∷ codes "hod" ∷ codes "admin" ∷ codes "system_worker" ∷ []

unfoldable pub missing : World → Answer Session
unfolding set_rls_context
missing w =
    if w.allow_missing_auth_headers
    then ok (
        set_rls_context w (codes "__local_dev__") (codes "admin") (codes "local-dev-no-headers")
          (codes "user"))
    else http_error 401 "Missing required auth headers: X-Department-Code, X-Role, X-User-Id"

unfoldable pub identified : World → (department role user_id : Text) → Answer Session
unfolding set_rls_context set_admin_context
identified w department role user_id =
    if not (any (text_eq role) valid_roles)
    then http_error 401 "Invalid X-Role header"
    else if text_eq role (codes "admin")
    then ok (set_admin_context w)
    else ok (set_rls_context w department role user_id (codes "user"))

-- A header that is there and not empty.
unfoldable pub given : Option Text → Option Text
given none = none
given (some t) = if non_empty t then some t else none

unfoldable pub all_given : World → (department role user_id : Option Text) → Answer Session
unfolding missing identified
all_given w none r u = missing w
all_given w (some d) none u = missing w
all_given w (some d) (some r) none = missing w
all_given w (some d) (some r) (some u) = identified w d r u

unfoldable pub rls_context : World → Headers → Answer Session
unfolding given all_given
rls_context w h = all_given w (given h.x_department_code) (given h.x_role) (given h.x_user_id)
