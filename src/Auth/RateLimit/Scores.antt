-- ===== src/Auth/RateLimit/Scores.antt =====
-- What the sorted set of a key tells of the attempts so far.
use mathlib.Core.Path.{subst}
use prompt_flow_ai.Prelude.{
  All-weaken, ℕ, suc, ◌+◌, ◌≤◌, ◌<◌, ◌≡◌, ◌∙◌, ap, refl, sym, false, List, [], ◌∷◌, any, length,
  ltb, leb, ◌==◌, if◌then◌else◌, if-elim, arith, All,
}
use prompt_flow_ai.Auth.RateLimit.{
  Settings, SortedSet, live, zadd, zremrangebyscore, record_attempt,
}

unfoldable pub above : ℕ → List ℕ → ℕ
above since [] = 0
above since (t ∷ ts) = let rest = above since ts in if ltb since t then suc rest else rest

pub above_bound : (since : ℕ) (ts : List ℕ) → above since ts ≤ length ts
unfolding above
above_bound since [] = omega arith
above_bound since (t ∷ ts) = ground (arith, above_bound since ts)

above_none : (since : ℕ) (ts : List ℕ) → All (λ t. t ≤ since) ts → above since ts ≡ 0
unfolding above
above_none since [] h = refl
above_none since (t ∷ ts) (b, h) = ground (arith, above_none since ts h)

above-kept :
    (since width now : ℕ) (ts : List ℕ)
    → now ≤ since + width
    → above since (zremrangebyscore width now ts) ≡ above since ts
unfolding above zremrangebyscore
above-kept since width now [] h = refl
above-kept since width now (t ∷ ts) h = ground (arith, above-kept since width now ts h)

kept-All {κ} :
    (P : ℕ → Type κ) (width now : ℕ) (ts : List ℕ)
    → All P ts
    → All P (zremrangebyscore width now ts)
unfolding zremrangebyscore
kept-All P width now [] h = h
kept-All P width now (t ∷ ts) (x, h) =
    if-elim (All P) (leb (t + width) now) _ _ (λ _. kept-All P width now ts h)
      (λ _. (x, kept-All P width now ts h))

not_yet : (now : ℕ) (ts : List ℕ) → All (λ t. t < now) ts → any (λ t. t == now) ts ≡ false
not_yet now [] h = refl
not_yet now (t ∷ ts) (x, h) = ground (arith, not_yet now ts h)

zadd_new : (now : ℕ) (ts : List ℕ) → All (λ t. t < now) ts → zadd now ts ≡ now ∷ ts
unfolding zadd
zadd_new now ts h = rw (not_yet now ts h) refl

-- What the set of a key tells of the attempts before `bound`, `total` of which came after `since`.
pub record Tells (width since total bound : ℕ) (z : SortedSet) : Type 0 where
  pub below : All (λ t. t < bound) z.scores
  pub lasting : All (λ t. t + width ≤ z.expires) z.scores
  pub counted : bound ≤ suc (since + width) → above since z.scores ≡ total

live-All {κ} : (P : ℕ → Type κ) (now : ℕ) (z : SortedSet) → All P z.scores → All P (live now z)
unfolding live
live-All P now z h = if-elim (All P) (ltb now z.expires) _ _ (λ _. h) (λ _. tt)

module _ (c : Settings) (since : ℕ) where
  above-live :
      (total bound now : ℕ) (z : SortedSet)
      → Tells c.rate_limit_window_seconds since total bound z
      → bound ≤ now
      → now ≤ since + c.rate_limit_window_seconds
      → above since (live now z) ≡ total
  unfolding live above
  above-live total bound now z h later within =
      if-elim (λ ts. above since ts ≡ total) (ltb now z.expires) _ _ (λ _. h.counted (omega arith))
        (λ gone.
          sym (
            above_none since z.scores (
              All-weaken (λ t. t + c.rate_limit_window_seconds ≤ z.expires) (λ t. t ≤ since)
                z.scores (λ t old. ground arith) h.lasting))
          ∙ h.counted (omega arith))

  -- What is left of the set when it is pruned at a later time.
  abbrev pruned : ℕ → SortedSet → List ℕ
  pruned now z = zremrangebyscore c.rate_limit_window_seconds now (live now z)

  pruned_before :
      (bound now : ℕ) (z : SortedSet)
      → All (λ t. t < bound) z.scores
      → bound ≤ now
      → All (λ t. t < now) (pruned now z)
  pruned_before bound now z h later =
      kept-All (λ t. t < now) c.rate_limit_window_seconds now (live now z)
        (live-All (λ t. t < now) now z
          (All-weaken (λ t. t < bound) (λ t. t < now) z.scores (λ t l. omega arith) h))

  -- One more attempt, at a later time.
  pub record_attempt-Tells :
      (total bound now : ℕ) (z : SortedSet)
      → Tells c.rate_limit_window_seconds since total bound z
      → bound ≤ now
      → Tells c.rate_limit_window_seconds since
          (if ltb since now then suc total else total)
          (suc now)
          (record_attempt c now z)
  unfolding record_attempt above
  record_attempt-Tells total bound now z h later =
      let fresh = pruned_before bound now z h.below later in
      let scores = sym (zadd_new now (pruned now z) fresh) in
      record {
        below = subst (All (λ t. t < suc now)) scores (
          omega arith,
          All-weaken (λ t. t < now) (λ t. t < suc now) _ (λ t l. omega arith) fresh,
        );
        lasting =
            subst (All (λ t. t + c.rate_limit_window_seconds ≤ now + c.rate_limit_window_seconds))
              scores
              (
                omega arith,
                All-weaken (λ t. t < now)
                    (λ t. t + c.rate_limit_window_seconds ≤ now + c.rate_limit_window_seconds) _
                    (λ t l. omega arith) fresh,
              );
        counted = λ within.
            subst (λ ts. above since ts ≡ (if ltb since now then suc total else total)) scores
              (ap (λ n. if ltb since now then suc n else n)
                (above-kept since c.rate_limit_window_seconds now (live now z) (omega arith)
                  ∙ above-live total bound now z h later (omega arith)));
      }
