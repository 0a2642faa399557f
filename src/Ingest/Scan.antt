-- ===== src/Ingest/Scan.antt =====
-- module2-email-worker/app/services/clamav.py: the bytes that are sent to the ClamAV daemon and how
-- its answer is read.
pub mod Framing
pub mod Verdict
use Prim.Native.String
use prompt_flow_ai.Prelude.{
  ℕ, zero, suc, ◌+◌, ◌-◌, ◌*◌, ◌/◌, ◌%◌, String, Bool, true, false, not, ◌&&◌, ◌||◌, Option, none,
  some, List, [], ◌∷◌, ◌++◌, ltb, length, take, drop, if◌then◌else◌,
}
use prompt_flow_ai.Prelude.Text.{Text, Bytes, codes, contains, strip, remove, after_last, has_code}

abbrev pub chunk_size : ℕ
chunk_size = 4096

-- struct.pack("!I", n); a larger `n` raises there, but the loop packs at most `chunk_size`
unfoldable pub pack : ℕ → Bytes
pack n = n / 16777216 % 256 ∷ n / 65536 % 256 ∷ n / 256 % 256 ∷ n % 256 ∷ []

-- The loop `while offset < len(file_bytes)`, on the bytes from `offset` on, with fuel.
unfoldable pub stream : (fuel : ℕ) → Bytes → Bytes
unfolding pack
stream zero rest = []
stream (suc n) [] = []
stream (suc n) (b ∷ bs) =
    let chunk = take chunk_size (b ∷ bs) in
    let later = stream n (drop (length chunk) (b ∷ bs)) in pack (length chunk) ++ chunk ++ later

-- What is sent: the command, the chunks, the terminator.
unfoldable pub request : Bytes → Bytes
unfolding stream pack
request file_bytes = codes "zINSTREAM" ++ 0 ∷ [] ++ stream (length file_bytes) file_bytes ++ pack 0

pub data ScanResult : Type 0 where
  clean infected error : ScanResult

pub record ClamAvResult : Type 0 where
  pub result : ScanResult
  pub virus_name : Option Text
  pub error_message : Option Text

-- What the daemon does: it answers, after `decode`, or an exception of the socket ends the call with
-- a message.
pub data Daemon : Type 0 where
  answers : Text → Daemon
  socket_timeout : Daemon
  connection_refused : Daemon
  raises : Text → Daemon

unfoldable pub failed_with : Text → ClamAvResult
failed_with message = record { result = error; virus_name = none; error_message = some message }

unfoldable pub read_response : Text → ClamAvResult
unfolding failed_with contains
read_response response_str =
    let found = contains (codes "FOUND") response_str in
    let name =
      if has_code 58 response_str
      then strip (remove (codes "FOUND") (after_last 58 response_str))
      else codes "Unknown" in
    if contains (codes "OK") response_str && not found
    then record { result = clean; virus_name = none; error_message = none }
    else if found
    then record { result = infected; virus_name = some name; error_message = none }
    else failed_with (codes "Unexpected response: " ++ response_str)

unfoldable pub scan_bytes : Daemon → ClamAvResult
unfolding read_response failed_with
scan_bytes (answers response_str) = read_response response_str
scan_bytes socket_timeout = failed_with (codes "ClamAV connection timeout")
scan_bytes connection_refused = failed_with (codes "ClamAV daemon not reachable")
scan_bytes (raises message) = failed_with message

unfoldable pub requires_quarantine : ClamAvResult → Bool
requires_quarantine r = elim r.result [ clean ↦ false | infected ↦ true | error ↦ true ]
