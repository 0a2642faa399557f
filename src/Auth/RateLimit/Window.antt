-- ===== src/Auth/RateLimit/Window.antt =====
-- How many attempts pass in a window.
use mathlib.Core.Path.{subst}
use text.Mathlib.TextPositions.{eq_refl}
use prompt_flow_ai.Prelude.{
  All-weaken, ℕ, suc, ◌+◌, ◌-◌, ◌≤◌, ◌<◌, ◌≡◌, ◌∙◌, ap, refl, sym, String, Bool, true, false, ◌&&◌,
  Option, some, List, [], ◌∷◌, any, length, ltb, leb, leb→le, str_eq, eq_iff, if◌then◌else◌,
  if-elim, arith, inl, inr, Bool-cases,
}
use prompt_flow_ai.Auth.RateLimit.Scores.{above, above_bound, Tells, record_attempt-Tells}
use prompt_flow_ai.Auth.RateLimit.{
  Settings, SortedSet, no_set, record_attempt, put, Store, Verdict, too_many_attempts, passed,
  dispatch, client_host, auth_paths,
}

pub record Attempt : Type 0 where
  pub now : ℕ
  pub client : Option String
  pub path : String

-- The store after a sequence of attempts, the latest first.
unfoldable pub replay : Settings → List Attempt → Store
replay c [] = λ ip path. no_set
replay c (q ∷ h) = (dispatch c q.now q.client q.path (replay c h)).1

abbrev pub is_passed : Verdict → Bool
is_passed (too_many_attempts retry_after) = false
is_passed (passed remaining) = true

abbrev pub is_mine : (ip path : String) → Attempt → Bool
is_mine ip path q = str_eq ip (client_host q.client) && str_eq path q.path

-- The attempts of one address on one path after `since`, up to the window's width, that passed.
unfoldable pub passed_in : Settings → (since : ℕ) → (ip path : String) → List Attempt → ℕ
unfolding replay
passed_in c since ip path [] = 0
passed_in c since ip path (q ∷ h) =
    let rest = passed_in c since ip path h in
    if is_mine ip path q
      && (ltb since q.now && leb q.now (since + c.rate_limit_window_seconds))
      && is_passed (dispatch c q.now q.client q.path (replay c h)).0
    then suc rest
    else rest

-- The times of attempts before another.
abbrev pub IsBefore : ℕ → List Attempt → Type 0
IsBefore t [] = Unit
IsBefore t (q ∷ h) = q.now < t

-- The clock has moved on between two attempts.
abbrev pub IsOrdered : List Attempt → Type 0
IsOrdered [] = Unit
IsOrdered (q ∷ h) = IsBefore q.now h × IsOrdered h

bound_of : List Attempt → ℕ
bound_of [] = 0
bound_of (q ∷ h) = suc q.now

bound_before : (t : ℕ) (h : List Attempt) → IsBefore t h → bound_of h ≤ t
unfolding bound_of
bound_before t [] b = omega arith
bound_before t (q ∷ h) b = omega (arith, b)

-- The attempts of one address on one path after `since`.
attempts_in : (since : ℕ) (ip path : String) → List Attempt → ℕ
attempts_in since ip path [] = 0
attempts_in since ip path (q ∷ h) =
    let rest = attempts_in since ip path h in
    if is_mine ip path q then (if ltb since q.now then suc rest else rest) else rest

put-here : (ip path : String) (z : SortedSet) (s : Store) → put ip path z s ip path ≡ z
unfolding put
put-here ip path z s = simp (eq_refl ip, eq_refl path) refl

put-there :
    (ip path i p : String) (z : SortedSet) (s : Store)
    → (str_eq ip i && str_eq path p) ≡ false
    → put i p z s ip path ≡ s ip path
unfolding put
put-there ip path i p z s other =
    if-elim (λ y. y ≡ s ip path) (str_eq ip i) _ _
      (λ e.
        if-elim (λ y. y ≡ s ip path) (str_eq path p) _ _ (λ f. absurd (clash e f other))
          (λ _. refl))
      (λ _. refl)
  where
    clash : {a b : Bool} → a ≡ true → b ≡ true → (a && b) ≡ false → ⊥
    clash e f o = ground arith

dispatch-limited :
    (c : Settings) (now : ℕ) (client : Option String) (path : String) (s : Store)
    → any (λ p. str_eq path p) auth_paths ≡ true
    → (dispatch c now client path s).1
      ≡ put (client_host client) path (record_attempt c now (s (client_host client) path)) s
unfolding dispatch
dispatch-limited c now client path s a =
    if-elim {A = Verdict × Store}
      (λ r.
        r.1 ≡ put (client_host client) path (record_attempt c now (s (client_host client) path)) s)
      (any (λ p. str_eq path p) auth_paths) _ _ (λ _. refl) (λ f. absurd (clash a f))
  where
    clash : {a : Bool} → a ≡ true → a ≡ false → ⊥
    clash e f = ground arith

module _ (c : Settings) where
  admitted :
      (n : ℕ)
      → is_passed (
          if ltb c.rate_limit_attempts n
          then too_many_attempts c.rate_limit_window_seconds
          else passed (some (c.rate_limit_attempts - n)))
        ≡ true
      → n ≤ c.rate_limit_attempts
  admitted n p = elim (Bool-cases (ltb c.rate_limit_attempts n)) [
    | inl t ↦ absurd (clash (sym (ap verdict t) ∙ p))
    | inr f ↦ ground arith
  ]
    where
      clash : false ≡ true → ⊥
      clash b = ground arith

      verdict : Bool → Bool
      verdict b = is_passed (
          if b
          then too_many_attempts c.rate_limit_window_seconds
          else passed (some (c.rate_limit_attempts - n)))

  dispatch_admits :
      (now : ℕ) (client : Option String) (path : String) (s : Store)
      → any (λ p. str_eq path p) auth_paths ≡ true
      → is_passed (dispatch c now client path s).0 ≡ true
      → length ((dispatch c now client path s).1 (client_host client) path).scores
        ≤ c.rate_limit_attempts
  unfolding dispatch
  dispatch_admits now client path s a =
      if-elim {A = Verdict × Store}
        (λ r.
          is_passed r.0 ≡ true
          → length (r.1 (client_host client) path).scores ≤ c.rate_limit_attempts)
        (any (λ p. str_eq path p) auth_paths) _ _
        (λ _ p.
          subst (λ z. length z.scores ≤ c.rate_limit_attempts)
            (sym (
              put-here (client_host client) path
                (record_attempt c now (s (client_host client) path)) s))
            (admitted (length (record_attempt c now (s (client_host client) path)).scores) p))
        (λ f. absurd (clash a f))
    where
      clash : {b : Bool} → b ≡ true → b ≡ false → ⊥
      clash e f = ground arith

both : {a b : Bool} → (a && b) ≡ true → (a ≡ true) × (b ≡ true)
both h = (ground arith, ground arith)

module _ (c : Settings) (since : ℕ) (ip path : String) where
  dispatch-other :
      (q : Attempt) (s : Store)
      → is_mine ip path q ≡ false
      → (dispatch c q.now q.client q.path s).1 ip path ≡ s ip path
  unfolding dispatch
  dispatch-other q s other =
      if-elim {A = Verdict × Store} (λ r. r.1 ip path ≡ s ip path)
        (any (λ p. str_eq q.path p) auth_paths) _ _
        (λ _. put-there ip path (client_host q.client) q.path _ s other) (λ _. refl)

  dispatch-mine :
      (q : Attempt) (s : Store)
      → is_mine ip path q ≡ true
      → any (λ p. str_eq path p) auth_paths ≡ true
      → (dispatch c q.now q.client q.path s).1 ip path ≡ record_attempt c q.now (s ip path)
  dispatch-mine q s mine a =
      let here = (eq_iff ip (client_host q.client)).0 (both mine).0 in
      let there = (eq_iff path q.path).0 (both mine).1 in
      ap (λ t. t ip path)
        (dispatch-limited c q.now q.client q.path s
          (subst (λ y. any (λ p. str_eq y p) auth_paths ≡ true) there a))
      ∙ subst
          (λ x.
            put x q.path (record_attempt c q.now (s x q.path)) s ip path
            ≡ record_attempt c q.now (s ip path))
          here
          (subst
            (λ y.
              put ip y (record_attempt c q.now (s ip y)) s ip path
              ≡ record_attempt c q.now (s ip path))
            there (put-here ip path (record_attempt c q.now (s ip path)) s))

  abbrev Knows : List Attempt → Type 0
  Knows h =
      Tells c.rate_limit_window_seconds since (attempts_in since ip path h) (bound_of h)
        (replay c h ip path)

  replay-Knows :
      (h : List Attempt) → any (λ p. str_eq path p) auth_paths ≡ true → IsOrdered h → Knows h
  unfolding replay attempts_in bound_of above
  replay-Knows [] a o = record { below = tt; lasting = tt; counted = λ _. refl }
  replay-Knows (q ∷ h) a (b, o) =
      let known = replay-Knows h a o in
      let earlier = bound_before q.now h b in
      if-elim
        (λ n. Tells c.rate_limit_window_seconds since n (suc q.now) (replay c (q ∷ h) ip path))
        (is_mine ip path q) _ _
        (λ mine.
          subst (Tells c.rate_limit_window_seconds since _ (suc q.now))
            (sym (dispatch-mine q (replay c h) mine a))
            (record_attempt-Tells c since _ _ q.now _ known earlier))
        (λ other.
          subst (Tells c.rate_limit_window_seconds since _ (suc q.now))
            (sym (dispatch-other q (replay c h) other))
            record {
              below =
                  All-weaken (λ t. t < bound_of h) (λ t. t < suc q.now) _ (λ t l. omega arith)
                    known.below;
              lasting = known.lasting;
              counted = λ within. known.counted (omega arith);
            })

  passed-bound : (h : List Attempt) → passed_in c since ip path h ≤ attempts_in since ip path h
  unfolding passed_in attempts_in
  passed-bound [] = omega arith
  passed-bound (q ∷ h) = ground (arith, passed-bound h)

  dispatch_passes :
      (q : Attempt) (s : Store)
      → is_mine ip path q ≡ true
      → any (λ p. str_eq path p) auth_paths ≡ true
      → is_passed (dispatch c q.now q.client q.path s).0 ≡ true
      → length ((dispatch c q.now q.client q.path s).1 ip path).scores ≤ c.rate_limit_attempts
  dispatch_passes q s mine a p =
      let here = (eq_iff ip (client_host q.client)).0 (both mine).0 in
      let there = (eq_iff path q.path).0 (both mine).1 in
      subst
        (λ x. length ((dispatch c q.now q.client q.path s).1 x path).scores ≤ c.rate_limit_attempts)
        (sym here)
        (subst
          (λ y.
            length ((dispatch c q.now q.client q.path s).1 (client_host q.client) y).scores
            ≤ c.rate_limit_attempts)
          (sym there)
          (dispatch_admits c q.now q.client q.path s
            (subst (λ y. any (λ p. str_eq y p) auth_paths ≡ true) there a) p))

  -- An attempt that passes leaves a set that holds every attempt of the window.
  attempts_bound :
      (q : Attempt) (h : List Attempt)
      → any (λ p. str_eq path p) auth_paths ≡ true
      → IsOrdered (q ∷ h)
      → is_mine ip path q ≡ true
      → q.now ≤ since + c.rate_limit_window_seconds
      → is_passed (dispatch c q.now q.client q.path (replay c h)).0 ≡ true
      → attempts_in since ip path (q ∷ h) ≤ c.rate_limit_attempts
  unfolding replay bound_of
  attempts_bound q h a o mine within p = omega (
    arith,
    (replay-Knows (q ∷ h) a o).counted (omega arith),
    above_bound since (replay c (q ∷ h) ip path).scores,
    dispatch_passes q (replay c h) mine a p,
  )

  attempts_in-mine :
      (q : Attempt) (h : List Attempt)
      → is_mine ip path q ≡ true
      → ltb since q.now ≡ true
      → attempts_in since ip path (q ∷ h) ≡ suc (attempts_in since ip path h)
  unfolding attempts_in
  attempts_in-mine q h m l =
      if-elim (λ n. n ≡ suc (attempts_in since ip path h)) (is_mine ip path q) _ _
        (λ _.
          if-elim (λ n. n ≡ suc (attempts_in since ip path h)) (ltb since q.now) _ _ (λ _. refl)
            (λ f. absurd (clash l f)))
        (λ f. absurd (clash m f))
    where
      clash : {b : Bool} → b ≡ true → b ≡ false → ⊥
      clash e f = ground arith

  -- On a sign-in path, whatever the attempts of all addresses were, as long as the clock moves on
  -- between two of them: of the attempts of one address in a window, at most `rate_limit_attempts`
  -- reach the endpoint, rejected ones between them included in the count of the limiter.
  pub passed_in-bound :
      (h : List Attempt)
      → any (λ p. str_eq path p) auth_paths ≡ true
      → IsOrdered h
      → passed_in c since ip path h ≤ c.rate_limit_attempts
  unfolding passed_in
  passed_in-bound [] a o = omega arith
  passed_in-bound (q ∷ h) a (b, o) =
      if-elim (λ n. n ≤ c.rate_limit_attempts)
        (is_mine ip path q
          && (ltb since q.now && leb q.now (since + c.rate_limit_window_seconds))
          && is_passed (dispatch c q.now q.client q.path (replay c h)).0)
        _ _
        (λ e.
          let (mw, p) = both e in
          let (m, w) = both mw in
          omega (
            arith,
            passed-bound h,
            attempts_in-mine q h m (both w).0,
            attempts_bound q h a (b, o) m (leb→le _ _ (both w).1) p,
          ))
        (λ _. passed_in-bound h a o)
