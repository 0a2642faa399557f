-- ===== src/Search/Access.antt =====
-- module5-search/app/auth.py: the caller of the search endpoints. The claims and the context are
-- those of module 6, which reads the same tokens.
use prompt_flow_ai.Prelude.{String, Bool, not, Option, none, some, drop, if◌then◌else◌}
use prompt_flow_ai.Prelude.Text.{Text, codes, starts_with, strip}
use prompt_flow_ai.Http.{Answer, ok, http_error, unhandled}
use prompt_flow_ai.Reports.Access.{
  Claims, Decoded, valid, expired_signature, invalid_token, answered, context_from, UserContext,
}

pub record Verifier : Type 0 where
  pub skip_jwt_validation : Bool
  pub has_public_key : Bool
  pub decode_unverified : Text → Decoded
  pub decode : Text → Decoded
  pub parse_uuid : String → Option String

-- Without verification, no exception of the library is caught.
unchecked : Decoded → Answer Claims
unchecked (valid c) = ok c
unchecked expired_signature = unhandled
unchecked invalid_token = unhandled

unfoldable pub decode_jwt : Verifier → Text → Answer Claims
unfolding unchecked answered
decode_jwt v token =
    if v.skip_jwt_validation
    then unchecked (v.decode_unverified token)
    else if not v.has_public_key
    then http_error 500 "JWT_PUBLIC_KEY not configured and SKIP_JWT_VALIDATION is false"
    else answered (v.decode token)

unfoldable pub get_current_user : Verifier → (authorization : Option Text) → Answer UserContext
unfolding starts_with strip context_from decode_jwt
get_current_user v none =
    http_error 401 "Missing or malformed Authorization header. Expected: 'Bearer <jwt>'"
get_current_user v (some h) =
    if starts_with (codes "Bearer ") h
    then context_from v.parse_uuid (decode_jwt v (strip (drop 7 h)))
    else http_error 401 "Missing or malformed Authorization header. Expected: 'Bearer <jwt>'"
