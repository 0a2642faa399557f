-- ===== src/Extract/Directory.antt =====
-- module3-ai-worker/app/services/directory/service.py: the faculty lookup with its retries, and
-- the cached machine token.
use prompt_flow_ai.Prelude.{
  ℕ, zero, suc, ◌+◌, ◌-◌, String, Option, none, some, List, [], ◌∷◌, ltb, str_eq, ◌==◌,
  if◌then◌else◌,
}
use Prim.Native.Nat.{max}
use prompt_flow_ai.Extract.Schemas.{
  FacultyStatus, active, inactive, not_found, EnrichedContext, Settings,
}

-- `_UNRESOLVED_FACULTY_ID`
abbrev pub unresolved_faculty_id : String
unresolved_faculty_id = "00000000-0000-0000-0000-000000000000"

-- The JSON of a reply, `none` where a key is missing.
pub record Profile : Type 0 where
  pub faculty_status : Option String
  pub faculty_id : Option String
  pub faculty_name : Option String
  pub faculty_email : Option String
  pub department_code : Option String

-- What one attempt meets: an exception (a timeout, or no token), or a reply.
pub data Reply : Type 0 where
  exception : Reply
  status : ℕ → Profile → Reply

abbrev pub unresolved : EnrichedContext
unresolved = record {
  faculty_id = unresolved_faculty_id;
  faculty_name = none;
  faculty_email = none;
  department_code = none;
  faculty_status = not_found;
}

-- `FacultyStatus(raw_status)`, with its `ValueError` handled and its default
unfoldable pub read_status : Option String → FacultyStatus
read_status none = not_found
read_status (some s) =
    if str_eq s "active" then active else if str_eq s "inactive" then inactive else not_found

abbrev or_unresolved : Option String → String
or_unresolved none = unresolved_faculty_id
or_unresolved (some i) = i

-- `_map_response`
unfoldable pub map_response : Profile → EnrichedContext
unfolding read_status
map_response p = record {
  faculty_id = or_unresolved p.faculty_id;
  faculty_name = p.faculty_name;
  faculty_email = p.faculty_email;
  department_code = p.department_code;
  faculty_status = read_status p.faculty_status;
}

abbrev next_reply : List Reply → Reply
next_reply [] = exception
next_reply (r ∷ rest) = r

abbrev later_replies : List Reply → List Reply
later_replies [] = []
later_replies (r ∷ rest) = rest

-- the loop over the attempts left; a list of replies that has run out stands for exceptions
get_faculty_from : ℕ → List Reply → EnrichedContext
unfolding map_response
get_faculty_from zero replies = unresolved
get_faculty_from (suc n) replies =
    let again = get_faculty_from n (later_replies replies) in
    elim (next_reply replies) [
      | exception ↦ again
      | status code p ↦
          if code == 404 then unresolved else if code == 200 then map_response p else again
    ]

unfoldable pub get_faculty : Settings → List Reply → EnrichedContext
unfolding get_faculty_from
get_faculty s replies = get_faculty_from s.directory_max_retries replies

-- `_M2MTokenClient`: the token and the monotonic time until which it is used, in seconds.
pub record TokenClient : Type 0 where
  pub token : Option String
  pub expires_at : ℕ

-- The token endpoint's reply, or an exception of the call or of `raise_for_status`.
pub data TokenReply : Type 0 where
  failed : TokenReply
  granted : (access_token : String) (expires_in : Option ℕ) → TokenReply

abbrev or_900 : Option ℕ → ℕ
or_900 none = 900
or_900 (some n) = n

fetch_token : ℕ → TokenReply → TokenClient → Option String × TokenClient
fetch_token now failed c = (none, c)
fetch_token now (granted t expires_in) c =
    (some t, record { token = some t; expires_at = now + max (or_900 expires_in - 60) 30 })

cached_token : ℕ → TokenClient → Option String
cached_token now c = elim c.token [
  | none ↦ none
  | some t ↦ if str_eq t "" then none else if ltb now c.expires_at then some t else none
]

-- The first argument is the time of the call; `none` is a raised exception.
unfoldable pub get_token : ℕ → TokenReply → TokenClient → Option String × TokenClient
unfolding cached_token fetch_token
get_token now reply c =
    let fetched = fetch_token now reply c in
    elim (cached_token now c) [ none ↦ fetched | some t ↦ (some t, c) ]
