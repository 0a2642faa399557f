-- ===== src/Ingest/Scan/Verdict.antt =====
-- The answers of module2-email-worker/app/services/clamav.py that let a file pass.
use prompt_flow_ai.Prelude.{
  ◌≡◌, refl, sym, ap, ◌∙◌, not, Bool, true, false, ◌&&◌, ◌↔◌, Bool-cases, inl, inr, arith,
}
use prompt_flow_ai.Prelude.Text.{Text, codes, contains}
use prompt_flow_ai.Ingest.Scan.{
  Daemon, answers, socket_timeout, connection_refused, raises, read_response, scan_bytes,
  requires_quarantine, failed_with,
}

-- A daemon that says a file is clean.
unfoldable pub IsCleanAnswer : Daemon → Type 0
IsCleanAnswer d =
    (s : Text) × (d ≡ answers s)
    × (contains (codes "OK") s ≡ true)
    × (contains (codes "FOUND") s ≡ false)

abbrev answer_of : Text → Daemon → Text
answer_of other (answers s) = s
answer_of other socket_timeout = other
answer_of other connection_refused = other
answer_of other (raises m) = other

read_lem :
    (s : Text)
    → requires_quarantine (read_response s)
      ≡ not (contains (codes "OK") s && not (contains (codes "FOUND") s))
unfolding requires_quarantine read_response failed_with
read_lem s = elim (Bool-cases (contains (codes "OK") s)) [
  | inl e ↦ elim (Bool-cases (contains (codes "FOUND") s)) [
    | inl f ↦ rw (e, f) refl
    | inr f ↦ rw (e, f) refl
  ]
  | inr e ↦ elim (Bool-cases (contains (codes "FOUND") s)) [
    | inl f ↦ rw (e, f) refl
    | inr f ↦ rw (e, f) refl
  ]
]

both : (a b : Bool) → not (a && not b) ≡ false → (a ≡ true) × (b ≡ false)
both true true h = ground arith
both true false h = (refl, refl)
both false b h = ground arith

-- A file passes the scan exactly when the daemon answered, the answer holds `OK`, and it does not
-- hold `FOUND`: a timeout, a refused connection, another exception and an answer that is not
-- understood all send the file to quarantine.
pub scan_bytes_passes_iff :
    (d : Daemon) → (requires_quarantine (scan_bytes d) ≡ false) ↔ IsCleanAnswer d
unfolding IsCleanAnswer scan_bytes requires_quarantine failed_with
scan_bytes_passes_iff (answers s) = (
  λ h.
      let (ok, found) =
        both (contains (codes "OK") s) (contains (codes "FOUND") s) (sym (read_lem s) ∙ h) in
      (s, refl, ok, found),
  λ (t, same, ok, found).
      read_lem s
      ∙ ap
          (λ u. not (
            contains (codes "OK") (answer_of s u)
            && not (contains (codes "FOUND") (answer_of s u))))
          same
      ∙ rw (ok, found) refl,
)
scan_bytes_passes_iff socket_timeout = ground arith
scan_bytes_passes_iff connection_refused = ground arith
scan_bytes_passes_iff (raises m) = ground arith
