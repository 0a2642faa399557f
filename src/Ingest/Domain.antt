-- ===== src/Ingest/Domain.antt =====
-- `_validate_domain` of module2-email-worker/app/worker.py, and the sender's validator of
-- app/models/events.py.
pub mod Laws
use Prim.Native.String
use prompt_flow_ai.Prelude.{
  ℕ, ◌≡◌, refl, String, Bool, true, false, ◌&&◌, List, [], ◌∷◌, ◌++◌, arith, non_empty, ◌==◌,
  if◌then◌else◌,
}
use prompt_flow_ai.Prelude.Text.{
  Text, codes, lower, lower_code, strip, ends_with, contains, starts_with, text_eq, text_eq_iff,
}
use prompt_flow_ai.Ingest.Mail.{Settings, settings}

unfoldable pub validate_domain : Settings → Text → Bool
unfolding lower strip ends_with
validate_domain c email_address =
    if non_empty email_address
    then ends_with (codes (String.◌++◌ "@" c.allowed_domain)) (strip (lower email_address))
    else false

-- `sender_must_be_srmap`
unfoldable pub sender_must_be_srmap : Text → Bool
unfolding lower contains
sender_must_be_srmap v = contains (codes "@srmap.edu.in") (lower v)
