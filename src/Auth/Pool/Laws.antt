-- ===== src/Auth/Pool/Laws.antt =====
-- Connections come back to the pool.
use prompt_flow_ai.Prelude.{
  ℕ, suc, ◌-◌, ◌==◌, ◌≤◌, ◌≡◌, ◌↔◌, ◌⊎◌, inl, inr, refl, sym, ap, ◌∙◌, Bool, true, false, arith,
  if-elim, Bool-cases, if◌then◌else◌,
}
use prompt_flow_ai.Auth.Roles.{Claims}
use prompt_flow_ai.Auth.Pool.{
  Pool, Connection, Context, context_of, enter_works, release, taken, available, abandon, finish,
  acquired, with_session,
}
use prompt_flow_ai.Http.{Answer, ok, http_error, unhandled}

module _ {S A : Type 0} (k : Connection) (c : Claims) (body : Context → S → Answer A × S) where
  finish-release : (r : Answer A × S) (p : Pool) (s : S) → (finish k r (p, s)).1.0 ≡ release p
  unfolding finish
  finish-release (ok a, s') p s = refl
  finish-release (http_error status detail, s') p s =
      if-elim {A = Answer A × (Pool × S)} (λ r. r.1.0 ≡ release p) k.rollback_works _ _ (λ _. refl)
        (λ _. refl)
  finish-release (unhandled, s') p s = refl

  -- A pool that has given one connection, and takes it back.
  release-taken : (p : Pool) → 1 ≤ p.free → release (taken p) ≡ p
  release-taken p h =
      ap (λ f. record { free = f; in_use = suc p.in_use - 1 }) (back p.free h)
      ∙ ap (λ u. record p { in_use = u }) (less p.in_use)
    where
      less : (n : ℕ) → suc n - 1 ≡ n
      less n = omega arith

      back : (n : ℕ) → 1 ≤ n → suc (n - 1) ≡ n
      back n h = omega arith

  one_free : (p : Pool) → 1 ≤ (available p).free
  unfolding available
  one_free p =
      if-elim {A = Pool} (λ q. 1 ≤ q.free) (p.free == 0) _ _ (λ _. first p.free)
        (λ f. some_free p.free f)
    where
      first : (n : ℕ) → 1 ≤ suc n
      first n = omega arith

      some_free : (n : ℕ) → (n == 0) ≡ false → 1 ≤ n
      some_free n f = ground arith

  acquired-restores :
      (p : Pool) (s : S)
      → 1 ≤ p.free
      → ((acquired k c body (p, s)).1.0 ≡ p) ↔ ((enter_works k ≡ true) ⊎ (k.rollback_works ≡ true))
  unfolding acquired abandon
  acquired-restores p s h = elim (Bool-cases (enter_works k)) [
    | inl t ↦
        (λ _. inl t, λ _. ap (λ b. (branch b).1.0) t ∙ (finish-release _ _ s ∙ release-taken p h))
    | inr f ↦ elim (Bool-cases k.rollback_works) [
      | inl t ↦ (
        λ _. inr t,
        λ _.
            ap (λ b. (branch b).1.0) f
            ∙ (ap (λ b. if b then release (taken p) else taken p) t ∙ release-taken p h),
      )
      | inr g ↦ (
        λ same. absurd (
            too_many (
              ap (λ q. q.in_use)
                (sym (
                    ap (λ b. (branch b).1.0) f
                    ∙ ap (λ b. if b then release (taken p) else taken p) g)
                  ∙ same))),
        λ x. absurd (no_way f g x),
      )
    ]
  ]
    where
      branch : Bool → Answer A × (Pool × S)
      branch b =
          if b
          then finish k (body (context_of c) s) (taken p, s)
          else (unhandled, (abandon k (taken p), s))

      too_many : suc p.in_use ≡ p.in_use → ⊥
      too_many h = omega arith

      no_way :
          enter_works k ≡ false
          → k.rollback_works ≡ false
          → (enter_works k ≡ true) ⊎ (k.rollback_works ≡ true)
          → ⊥
      no_way f g x = ground arith

  -- The pool is as it was when the connection was acquired exactly when the session could be
  -- entered, or the rollback after a failed entry worked; whatever the body did, and whether the end
  -- of the transaction raised.
  pub with_session-restores :
      (p : Pool) (s : S)
      → ((with_session k c body (p, s)).1.0 ≡ available p)
        ↔ ((enter_works k ≡ true) ⊎ (k.rollback_works ≡ true))
  unfolding with_session
  with_session-restores p s = acquired-restores (available p) s (one_free p)
