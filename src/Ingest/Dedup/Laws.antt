-- ===== src/Ingest/Dedup/Laws.antt =====
-- Which keys a mark sets, and which later messages it makes duplicates.
use Prim.Native.Char.{Char, code}
use Prim.Native.String
use text.Mathlib.TextLemmas.{cons-append}
use prompt_flow_ai.Prelude.{
  ℕ, ◌+◌, ◌<◌, ◌≡◌, ◌≢◌, ◌⊎◌, refl, ap, sym, ◌∙◌, String, Bool, true, false, ◌||◌, Option, none,
  some, List, [], ◌∷◌, ◌++◌, any, arith, inl, inr, Bool-cases, str_eq, eq_iff, eq_refl,
}
use prompt_flow_ai.Redis.{Redis, Service, exists, setex, exists-setex, empty, exists-empty}
use prompt_flow_ai.Ingest.Mail.{Settings}
use prompt_flow_ai.Ingest.Dedup.{
  dedup_key, key_if, key_of_option, reference_keys, ref_keys, strip_angles, split_words,
  keys_to_check, is_duplicate, set_reply, mark_processed,
}

-- The four prefixes differ in their third letter.
abbrev third_code : String → ℕ
third_code (String.◌∷◌ a (String.◌∷◌ b (String.◌∷◌ c s))) = code c
third_code s = 0

third_code-append :
    (a b c : Char) (s t : String)
    → third_code (String.◌++◌ (String.◌∷◌ a (String.◌∷◌ b (String.◌∷◌ c s))) t) ≡ code c
third_code-append a b c s t = ap third_code (
    cons-append a (String.◌∷◌ b (String.◌∷◌ c s)) t
    ∙ ap (String.◌∷◌ a) (cons-append b (String.◌∷◌ c s) t ∙ ap (String.◌∷◌ b) (cons-append c s t)))

msgid_code : (a : String) → third_code (dedup_key a "msgid") ≡ 103
msgid_code a = third_code-append "m" "s" "g" "id" (String.◌++◌ ":" a)

idem_code : (a : String) → third_code (dedup_key a "idem") ≡ 101
idem_code a = third_code-append "i" "d" "e" "m" (String.◌++◌ ":" a)

reply_code : (a : String) → third_code (dedup_key a "reply") ≡ 112
reply_code a = third_code-append "r" "e" "p" "ly" (String.◌++◌ ":" a)

ref_code : (a : String) → third_code (dedup_key a "ref") ≡ 102
ref_code a = third_code-append "r" "e" "f" "" (String.◌++◌ ":" a)

-- Keys whose third letters differ are told apart.
apart : (s t : String) → third_code s ≢ third_code t → str_eq s t ≡ false
apart s t h = elim (Bool-cases (str_eq s t)) [
  | inl e ↦ absurd (h (ap third_code ((eq_iff s t).0 e)))
  | inr e ↦ e
]

msgid_apart : (a b : String) → str_eq (dedup_key a "msgid") (dedup_key b "ref") ≡ false
msgid_apart a b = apart _ _ (omega (arith, msgid_code a, ref_code b))

idem_apart : (a b : String) → str_eq (dedup_key a "idem") (dedup_key b "ref") ≡ false
idem_apart a b = apart _ _ (omega (arith, idem_code a, ref_code b))

reply_apart : (a b : String) → str_eq (dedup_key a "reply") (dedup_key b "ref") ≡ false
reply_apart a b = apart _ _ (omega (arith, reply_code a, ref_code b))

-- A mark never sets a key of the `ref` prefix.
mark_processed-ref :
    (c : Settings) (now t : ℕ) (m i : String) (reply : Option String) (v : String) (r : Redis)
    → exists t (dedup_key v "ref") (mark_processed c now m i reply r)
      ≡ exists t (dedup_key v "ref") r
unfolding mark_processed
mark_processed-ref c now t m i none v r = simp (exists-setex, msgid_apart, idem_apart)
mark_processed-ref c now t m i (some parent) v r = elim (Bool-cases (str_eq parent "")) [
  | inl e ↦ rw e (simp (exists-setex, msgid_apart, idem_apart))
  | inr e ↦ rw e (simp (exists-setex, msgid_apart, idem_apart, reply_apart))
]

-- The store after a sequence of marks, the latest last.
pub data Mark : Type 0 where
  mark : (now : ℕ) (message_id idempotency_key : String) (in_reply_to : Option String) → Mark

unfoldable pub after_marks : Settings → List Mark → Redis → Redis
after_marks c [] r = r
after_marks c (mark now m i reply ∷ marks) r =
    after_marks c marks (mark_processed c now m i reply r)

after_marks-ref :
    (c : Settings) (marks : List Mark) (t : ℕ) (v : String) (r : Redis)
    → exists t (dedup_key v "ref") (after_marks c marks r) ≡ exists t (dedup_key v "ref") r
unfolding after_marks
after_marks-ref c [] t v r = refl
after_marks-ref c (mark now m i reply ∷ marks) t v r =
    after_marks-ref c marks t v (mark_processed c now m i reply r)
    ∙ mark_processed-ref c now t m i reply v r

any-append : (p : String → Bool) (xs ys : List String) → any p (xs ++ ys) ≡ (any p xs || any p ys)
any-append p [] ys = refl
any-append p (x ∷ xs) ys = ground (arith, any-append p xs ys)

ref_keys_free :
    (p : String → Bool) (refs : List String)
    → ((v : String) → p (dedup_key v "ref") ≡ false)
    → any p (ref_keys refs) ≡ false
unfolding ref_keys
ref_keys_free p [] h = refl
ref_keys_free p (ref ∷ refs) h = elim (Bool-cases (str_eq (strip_angles ref) "")) [
  | inl e ↦ rw e (ref_keys_free p refs h)
  | inr e ↦ rw e (rw (h (strip_angles ref)) (ref_keys_free p refs h))
]

reference_keys_free :
    (p : String → Bool) (refs : Option String)
    → ((v : String) → p (dedup_key v "ref") ≡ false)
    → any p (reference_keys refs) ≡ false
unfolding reference_keys
reference_keys_free p none h = refl
reference_keys_free p (some s) h = ref_keys_free p (split_words s) h

keys_any :
    (p : String → Bool) (m i : String) (reply refs : Option String)
    → any p (keys_to_check m i reply refs) ≡ (
        ((any p (key_if m "msgid") || any p (key_if i "idem"))
          || any p (key_of_option reply "reply"))
        || any p (reference_keys refs))
unfolding keys_to_check
keys_any p m i reply refs = simp any-append

-- The References header never makes a message a duplicate: in the store that any sequence of marks leaves, the check
-- answers the same with the header and without it.
pub references_never_match :
    (c : Settings) (service : Service) (marks : List Mark) (now : ℕ) (m i : String)
    (reply refs : Option String)
    → let r = after_marks c marks (empty service) in
      is_duplicate now m i reply refs r ≡ is_duplicate now m i reply none r
unfolding is_duplicate
references_never_match c service marks now m i reply refs =
    let r = after_marks c marks (empty service) in
    let p : String → Bool = λ k. exists now k r in
    let free : (v : String) → p (dedup_key v "ref") ≡ false = λ v.
      after_marks-ref c marks now v (empty service)
      ∙ exists-empty service now (dedup_key v "ref") in
    keys_any p m i reply refs
    ∙ ap
        (λ b.
          ((any p (key_if m "msgid") || any p (key_if i "idem"))
            || any p (key_of_option reply "reply"))
          || b)
        (reference_keys_free p refs free)
    ∙ sym (keys_any p m i reply none)

found_among :
    (p : String → Bool) (m i : String) (reply refs : Option String)
    → (any p (key_if m "msgid") ≡ true)
      ⊎ (any p (key_if i "idem") ≡ true)
      ⊎ (any p (key_of_option reply "reply") ≡ true)
    → any p (keys_to_check m i reply refs) ≡ true
found_among p m i reply refs h = rw keys_any (ground arith)

key_if-any :
    (p : String → Bool) (v prefix : String)
    → v ≢ ""
    → p (dedup_key v prefix) ≡ true
    → any p (key_if v prefix) ≡ true
unfolding key_if
key_if-any p v prefix ne h = elim (Bool-cases (str_eq v "")) [
  | inl e ↦ absurd (ne ((eq_iff v "").0 e))
  | inr e ↦ rw e (rw h)
]

alive_after :
    (t now ttl : ℕ) (k j : String) (r : Redis)
    → t < now + ttl
    → exists t j r ≡ true
    → exists t j (setex now k ttl r) ≡ true
alive_after t now ttl k j r lt h = rw exists-setex (ground arith)

set_self :
    (t now ttl : ℕ) (k : String) (r : Redis) → t < now + ttl → exists t k (setex now k ttl r) ≡ true
set_self t now ttl k r lt = rw exists-setex (rw eq_refl (ground arith))

set_reply_keeps :
    (t now ttl : ℕ) (reply : Option String) (j : String) (r : Redis)
    → t < now + ttl
    → exists t j r ≡ true
    → exists t j (set_reply now ttl reply r) ≡ true
unfolding set_reply
set_reply_keeps t now ttl none j r lt h = h
set_reply_keeps t now ttl (some parent) j r lt h = elim (Bool-cases (str_eq parent "")) [
  | inl e ↦ rw e h
  | inr e ↦ rw e (alive_after t now ttl (dedup_key parent "reply") j r lt h)
]

module _ (c : Settings) (now t : ℕ) (m i : String) (reply : Option String) (r : Redis)
    (lt : t < now + c.redis_dedup_ttl_seconds) where
  msgid_marked : exists t (dedup_key m "msgid") (mark_processed c now m i reply r) ≡ true
  unfolding mark_processed
  msgid_marked =
      let ttl = c.redis_dedup_ttl_seconds in
      set_reply_keeps t now ttl reply (dedup_key m "msgid") _ lt (
        alive_after t now ttl (dedup_key i "idem") (dedup_key m "msgid") _ lt
          (set_self t now ttl (dedup_key m "msgid") r lt))

  idem_marked : exists t (dedup_key i "idem") (mark_processed c now m i reply r) ≡ true
  unfolding mark_processed
  idem_marked =
      let ttl = c.redis_dedup_ttl_seconds in
      set_reply_keeps t now ttl reply (dedup_key i "idem") _ lt
        (set_self t now ttl (dedup_key i "idem") (setex now (dedup_key m "msgid") ttl r) lt)

reply_marked :
    (c : Settings) (now t : ℕ) (m i parent : String) (r : Redis)
    → t < now + c.redis_dedup_ttl_seconds
    → parent ≢ ""
    → exists t (dedup_key parent "reply") (mark_processed c now m i (some parent) r) ≡ true
unfolding mark_processed set_reply
reply_marked c now t m i parent r lt ne = elim (Bool-cases (str_eq parent "")) [
  | inl e ↦ absurd (ne ((eq_iff parent "").0 e))
  | inr e ↦ rw e (set_self t now c.redis_dedup_ttl_seconds (dedup_key parent "reply") _ lt)
]

-- A later message repeats an earlier one: by its Message-ID, its idempotency key, or the message that it replies to.
abbrev pub Repeats :
    (m i : String) (reply : Option String) (m' i' : String) (reply' : Option String) → Type 0
Repeats m i reply m' i' reply' =
    ((m' ≡ m) × (m ≢ ""))
    ⊎ ((i' ≡ i) × (i ≢ ""))
    ⊎ ((parent : String) × (reply ≡ some parent) × (reply' ≡ some parent) × (parent ≢ ""))

-- While its mark lives, a processed message makes every later message a duplicate that has its Message-ID, its
-- idempotency key, or its In-Reply-To: also another reply to the same message.
pub is_duplicate-mark_processed :
    (c : Settings) (now t : ℕ) (m i : String) (reply : Option String) (m' i' : String)
    (reply' refs : Option String) (r : Redis)
    → t < now + c.redis_dedup_ttl_seconds
    → Repeats m i reply m' i' reply'
    → is_duplicate t m' i' reply' refs (mark_processed c now m i reply r) ≡ true
unfolding is_duplicate
is_duplicate-mark_processed c now t m i reply m' i' reply' refs r lt (inl (e, ne)) =
    let p : String → Bool = λ k. exists t k (mark_processed c now m i reply r) in
    found_among p m' i' reply' refs
      (inl (rw e (key_if-any p m "msgid" ne (msgid_marked c now t m i reply r lt))))
is_duplicate-mark_processed c now t m i reply m' i' reply' refs r lt (inr (inl (e, ne))) =
    let p : String → Bool = λ k. exists t k (mark_processed c now m i reply r) in
    found_among p m' i' reply' refs
      (inr (inl (rw e (key_if-any p i "idem" ne (idem_marked c now t m i reply r lt)))))
is_duplicate-mark_processed c now t m i reply m' i' reply' refs r lt
      (inr (inr (parent, e, e', ne))) =
    let p : String → Bool = λ k. exists t k (mark_processed c now m i reply r) in
    let same : p (dedup_key parent "reply") ≡ true =
      rw e (reply_marked c now t m i parent r lt ne) in
    found_among p m' i' reply' refs
      (inr (inr (rw e' (unfold key_of_option in key_if-any p parent "reply" ne same))))
