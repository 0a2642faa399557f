-- ===== src/Ingest/Scan/Framing.antt =====
-- The ZINSTREAM framing of module2-email-worker/app/services/clamav.py, read back by the receiver
-- that the protocol describes.
use mathlib.Core.List.{append_assoc}
use prompt_flow_ai.Prelude.{
  ℕ, zero, suc, ◌+◌, ◌*◌, ◌/◌, ◌%◌, ◌≤◌, ◌≡◌, refl, ap, ◌∙◌, true, false, Option, none, some, [],
  ◌∷◌, ◌++◌, length, take, drop, arith, leb, ◌==◌, if◌then◌else◌,
}
use prompt_flow_ai.Prelude.Text.{Bytes, codes}
use prompt_flow_ai.Ingest.Scan.{chunk_size, pack, stream, request}

-- The receiver: four bytes of length, so many bytes, until the length is zero. `none` is a stream
-- that ends early.
unfoldable pub unpack : ℕ → ℕ → ℕ → ℕ → ℕ
unpack a b c d = a * 16777216 + b * 65536 + c * 256 + d

prepend : Bytes → Option Bytes → Option Bytes
prepend chunk none = none
prepend chunk (some rest) = some (chunk ++ rest)

unfoldable pub receive : (fuel : ℕ) → Bytes → Option Bytes
unfolding unpack prepend
receive zero s = none
receive (suc n) (a ∷ b ∷ c ∷ d ∷ s) =
    let l = unpack a b c d in
    let later = receive n (drop l s) in
    if l == 0 then some [] else if leb l (length s) then prepend (take l s) later else none
receive (suc n) _ = none

unpack-pack :
    (n : ℕ) → n ≤ 4096 → unpack (n / 16777216 % 256) (n / 65536 % 256) (n / 256 % 256) (n % 256) ≡ n
unfolding unpack
unpack-pack n h = omega arith

take-append : (xs ys : Bytes) → take (length xs) (xs ++ ys) ≡ xs
take-append [] ys = refl
take-append (x ∷ xs) ys = ap (λ t. x ∷ t) (take-append xs ys)

drop-append : (xs ys : Bytes) → drop (length xs) (xs ++ ys) ≡ ys
drop-append [] ys = refl
drop-append (x ∷ xs) ys = drop-append xs ys

length-append_le : (xs ys : Bytes) → length xs ≤ length (xs ++ ys)
length-append_le [] ys = omega arith
length-append_le (x ∷ xs) ys = ground (arith, length-append_le xs ys)

length-take_le : (k : ℕ) (xs : Bytes) → length (take k xs) ≤ k
length-take_le zero xs = omega arith
length-take_le (suc k) [] = omega arith
length-take_le (suc k) (x ∷ xs) = ground (arith, length-take_le k xs)

take-drop : (k : ℕ) (xs : Bytes) → take k xs ++ drop (length (take k xs)) xs ≡ xs
take-drop zero xs = refl
take-drop (suc k) [] = refl
take-drop (suc k) (x ∷ xs) = ap (λ t. x ∷ t) (take-drop k xs)

length-drop_le : (k : ℕ) (xs : Bytes) → length (drop k xs) ≤ length xs
length-drop_le zero xs = omega arith
length-drop_le (suc k) [] = omega arith
length-drop_le (suc k) (x ∷ xs) = ground (arith, length-drop_le k xs)

not_zero : (n : ℕ) → 1 ≤ n → (n == 0) ≡ false
not_zero n h = ground arith

leb-true : (a b : ℕ) → a ≤ b → leb a b ≡ true
leb-true a b h = ground arith

-- One frame is read back.
receive-frame :
    (n : ℕ) (chunk rest : Bytes)
    → 1 ≤ length chunk
    → length chunk ≤ 4096
    → receive (suc n) (pack (length chunk) ++ (chunk ++ rest)) ≡ prepend chunk (receive n rest)
unfolding receive pack
receive-frame n chunk rest lo hi = rw (
  unpack-pack (length chunk) hi,
  not_zero (length chunk) lo,
  leb-true (length chunk) (length (chunk ++ rest)) (length-append_le chunk rest),
  take-append chunk rest,
  drop-append chunk rest,
)

receive-stream :
    (n : ℕ) (bs : Bytes) → length bs ≤ n → receive (suc n) (stream n bs ++ pack 0) ≡ some bs
unfolding stream prepend receive pack unpack
receive-stream zero [] h = refl
receive-stream zero (b ∷ bs) h = ground arith
receive-stream (suc n) [] h = refl
receive-stream (suc n) (b ∷ bs) h =
    let chunk = take chunk_size (b ∷ bs) in
    let rest = drop (length chunk) (b ∷ bs) in
    let fits = length-drop_le (length (take 4095 bs)) bs in
    ap (λ s. receive (suc (suc n)) (pack (length chunk) ++ s))
      (append_assoc chunk (stream n rest) (pack 0))
    ∙ receive-frame (suc n) chunk (stream n rest ++ pack 0) (omega arith)
        (length-take_le 4096 (b ∷ bs))
    ∙ ap (prepend chunk) (receive-stream n rest (omega arith))
    ∙ ap some (take-drop 4096 (b ∷ bs))

-- What the worker sends for a file is the command, a zero byte, and frames from which the receiver
-- reads exactly the bytes of the file, for files of every size.
pub request-receive :
    (file_bytes : Bytes)
    → (framed : Bytes) × (request file_bytes ≡ codes "zINSTREAM" ++ 0 ∷ framed)
      × (receive (suc (length file_bytes)) framed ≡ some file_bytes)
unfolding request
request-receive file_bytes = (
  stream (length file_bytes) file_bytes ++ pack 0,
  refl,
  receive-stream (length file_bytes) file_bytes (omega arith),
)
