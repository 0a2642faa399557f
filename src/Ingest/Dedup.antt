-- ===== src/Ingest/Dedup.antt =====
-- module2-email-worker/app/services/redis_dedup.py: the keys of a message, the check and the mark.
pub mod Laws
use Prim.Native.Char.{Char, code}
use Prim.Native.String
use prompt_flow_ai.Prelude.{
  ℕ, String, Bool, true, false, ◌||◌, Option, none, some, List, [], ◌∷◌, ◌++◌, any, map, str_eq,
  ◌==◌, if◌then◌else◌,
}
use prompt_flow_ai.Prelude.Text.{is_space}
use prompt_flow_ai.Redis.{Redis, exists, setex}
use prompt_flow_ai.Ingest.Mail.{Settings}

-- `_dedup_key`
abbrev pub dedup_key : (value prefix : String) → String
dedup_key value prefix = String.◌++◌ prefix (String.◌++◌ ":" value)

abbrev push : String → Char → String
push s c = String.◌++◌ s (String.◌∷◌ c String.[])

words_from : String → String → List String
words_from current String.[] = if str_eq current "" then [] else current ∷ []
words_from current (String.◌∷◌ c s) =
    let fresh = words_from "" s in
    let longer = words_from (push current c) s in
    if is_space (code c) then (if str_eq current "" then fresh else current ∷ fresh) else longer

-- `references.split()`
unfoldable pub split_words : String → List String
unfolding words_from is_space
split_words = words_from ""

abbrev is_angle : Char → Bool
is_angle c = code c == 60 || code c == 62

lstrip_angles : String → String
lstrip_angles String.[] = String.[]
lstrip_angles (String.◌∷◌ c s) = if is_angle c then lstrip_angles s else String.◌∷◌ c s

rstrip_angles : String → String
rstrip_angles String.[] = String.[]
rstrip_angles (String.◌∷◌ c s) =
    let rest = rstrip_angles s in
    if str_eq rest ""
    then (if is_angle c then String.[] else String.◌∷◌ c String.[])
    else String.◌∷◌ c rest

-- `ref.strip("<>")`
unfoldable pub strip_angles : String → String
unfolding lstrip_angles rstrip_angles
strip_angles ref = rstrip_angles (lstrip_angles ref)

key_if : (value prefix : String) → List String
key_if value prefix = if str_eq value "" then [] else dedup_key value prefix ∷ []

key_of_option : Option String → (prefix : String) → List String
unfolding key_if
key_of_option none prefix = []
key_of_option (some value) prefix = key_if value prefix

ref_keys : List String → List String
unfolding key_if
ref_keys [] = []
ref_keys (ref ∷ refs) = key_if (strip_angles ref) "ref" ++ ref_keys refs

unfoldable pub reference_keys : Option String → List String
unfolding ref_keys split_words strip_angles
reference_keys none = []
reference_keys (some references) = ref_keys (split_words references)

unfoldable pub keys_to_check :
    (message_id idempotency_key : String) (in_reply_to references : Option String) → List String
unfolding key_if key_of_option reference_keys
keys_to_check message_id idempotency_key in_reply_to references =
    key_if message_id "msgid"
    ++ key_if idempotency_key "idem"
    ++ key_of_option in_reply_to "reply"
    ++ reference_keys references

-- The first argument is the time. A Redis failure raises, which the caller models.
unfoldable pub is_duplicate :
    ℕ
    → (message_id idempotency_key : String) (in_reply_to references : Option String) → Redis
    → Bool
unfolding keys_to_check
is_duplicate now message_id idempotency_key in_reply_to references r =
    any (λ k. exists now k r) (keys_to_check message_id idempotency_key in_reply_to references)

set_reply : ℕ → ℕ → Option String → Redis → Redis
set_reply now ttl none r = r
set_reply now ttl (some parent) r =
    if str_eq parent "" then r else setex now (dedup_key parent "reply") ttl r

unfoldable pub mark_processed :
    Settings
    → ℕ
    → (message_id idempotency_key : String) (in_reply_to : Option String) → Redis
    → Redis
unfolding set_reply
mark_processed c now message_id idempotency_key in_reply_to r =
    let ttl = c.redis_dedup_ttl_seconds in
    set_reply now ttl in_reply_to (
      setex now (dedup_key idempotency_key "idem") ttl
        (setex now (dedup_key message_id "msgid") ttl r))
