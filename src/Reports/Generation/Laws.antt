-- ===== src/Reports/Generation/Laws.antt =====
-- How a report generation ends.
use mathlib.Core.Path.{subst}
use prompt_flow_ai.Prelude.{
  ℕ, suc, leb, ◌+◌, ◌≡◌, ◌⊎◌, ◌≤◌, ◌∙◌, refl, sym, String, Bool, true, false, not, ◌&&◌, ◌||◌,
  Option, none, some, List, [], ◌∷◌, ◌++◌, All, arith, inl, inr, Bool-cases, contradiction, neither,
  unnegated, is_some, length, ltb, if-elim, eq_iff, All-weaken,
}
use prompt_flow_ai.Prelude.Text.{Bytes}
use prompt_flow_ai.Reports.Generation.{
  PaperStatus, published, draft, rejected, pending_review, Paper, ReportStatus, pending, generating,
  completed, failed, ErrorMessage, other_error, Report, State, Request, World, filter, allowed,
  visible, in_scope, is_open, sum_errors, error_count, pending_count, map_report, failed_report,
  completed_report, set_rls_context, render, Ending, ended, fail, persist, after_render,
  gate_and_render, generate, mark_generating, run_generation,
}

-- A paper that is decided: no reviewer waits for it.
abbrev pub IsDecided : PaperStatus → Type 0
IsDecided published = Unit
IsDecided rejected = Unit
IsDecided draft = ⊥
IsDecided pending_review = ⊥

-- Each paper of the department and the years that the policy shows to the request has no unresolved
-- error and is decided.
abbrev pub IsClear : World → Request → (year_start year_end : ℕ) → List Paper → Type 0
IsClear w q a b papers =
    All
      (λ p.
        w.policy
            (record { department = q.department_code; role = q.role; user_id = q.generated_by }) p
          ≡ true
        → p.department_code ≡ q.department_code
        → a ≤ p.year
        → p.year ≤ b
        → (p.unresolved_errors ≡ 0) × IsDecided p.status)
      papers

-- The file that a run puts into the bucket, and that the gate let pass.
abbrev pub IsUpload : World → Request → State → State → Bytes → (total : ℕ) → Type 0
IsUpload w q s s' bytes total =
    (a : ℕ) × (b : ℕ) × (w.split_academic_year q.academic_year ≡ some (a, b))
    × IsClear w q a b s.papers
    × (render w q a b (set_rls_context q s) ≡ some (bytes, total))
    × (s'.bucket ≡ (w.s3_key q, bytes) ∷ s.bucket)

-- What stands behind a completed report: the row, the checksum table and the bucket agree.
abbrev pub IsCompleted : World → Request → State → State → Report → Type 0
IsCompleted w q s s' r =
    (bytes : Bytes) × (total : ℕ) × IsUpload w q s s' bytes total
    × (r.s3_uri ≡ some (w.s3_uri (w.s3_key q)))
    × (r.checksum_sha256 ≡ some (w.sha256 bytes))
    × (r.total_papers ≡ some total)
    × (s'.report_checksums ≡ s.report_checksums ++ w.sha256 bytes ∷ [])

-- The row of the report after a run: none where there was none; else completed or failed when the
-- failure could be recorded, and completed only with what stands behind it.
abbrev pub HasEnded : World → Request → (s s' : State) → (before after : Option Report) → Type 0
HasEnded w q s s' none none = Unit
HasEnded w q s s' none (some r') = ⊥
HasEnded w q s s' (some r) none = ⊥
HasEnded w q s s' (some r) (some r') =
    (w.failure_session_works ≡ true → (r'.status ≡ completed) ⊎ (r'.status ≡ failed))
    × (r'.status ≡ completed → (r.status ≡ completed) ⊎ IsCompleted w q s s' r')

pub record IsSound (w : World) (q : Request) (s : State) (r : Ending × State) : Type 0 where
  pub returns : w.failure_session_works ≡ true → r.0 ≡ ended
  pub report : HasEnded w q s r.1 s.report r.1.report
  pub uploads :
      (r.1.bucket ≡ s.bucket) ⊎ ((bytes : Bytes) × (total : ℕ) × IsUpload w q s r.1 bytes total)

abbrev pub IsCompletedStatus : ReportStatus → Type 0
IsCompletedStatus pending = ⊥
IsCompletedStatus generating = ⊥
IsCompletedStatus completed = Unit
IsCompletedStatus failed = ⊥

pub not_completed : (r : ReportStatus) → (IsCompletedStatus r → ⊥) → r ≡ completed → ⊥
not_completed r h e = h (subst IsCompletedStatus (sym e) tt)

-- The row during a run: it is there when it was, and not completed by the run yet.
IsOpened : (before now : Option Report) → Type 0
IsOpened none none = Unit
IsOpened none (some r) = ⊥
IsOpened (some r) none = ⊥
IsOpened (some r) (some r') = r'.status ≡ completed → r.status ≡ completed

decided : (s : PaperStatus) → is_open s ≡ false → IsDecided s
unfolding is_open
decided published e = tt
decided rejected e = tt
decided draft e = absurd (contradiction refl e)
decided pending_review e = absurd (contradiction refl e)

-- Nothing counted by the gate, nothing open.
nothing_open :
    (g f : Paper → Bool) (papers : List Paper)
    → sum_errors (filter f (filter g papers)) ≡ 0
    → length (filter (λ p. f p && is_open p.status) (filter g papers)) ≡ 0
    → All (λ p. g p ≡ true → f p ≡ true → (p.unresolved_errors ≡ 0) × IsDecided p.status) papers
unfolding filter sum_errors
nothing_open g f [] e l = tt
nothing_open g f (p ∷ ps) e l = elim (Bool-cases (g p)) [
  | inr x ↦ (λ t. absurd (contradiction t x), nothing_open g f ps (rw x at e) (rw x at l))
  | inl x ↦ elim (Bool-cases (f p)) [
    | inr y ↦
        (λ _ t. absurd (contradiction t y), nothing_open g f ps (rw (x, y) at e) (rw (x, y) at l))
    | inl y ↦ elim (Bool-cases (is_open p.status)) [
      | inl z ↦ absurd (positive _ (rw (x, y, z) at l))
      | inr z ↦
          let (e0, e1) = both_zero p.unresolved_errors _ (rw (x, y) at e) in
          (λ _ _. (e0, decided p.status z), nothing_open g f ps e1 (rw (x, y, z) at l))
    ]
  ]
]
  where
    positive : (n : ℕ) → suc n ≡ 0 → ⊥
    positive n h = omega arith

    both_zero : (m n : ℕ) → m + n ≡ 0 → (m ≡ 0) × (n ≡ 0)
    both_zero m n h = (omega arith, omega arith)

in_scope-holds :
    (d : String) (a b : ℕ) (p : Paper)
    → p.department_code ≡ d
    → a ≤ p.year
    → p.year ≤ b
    → in_scope d a b p ≡ true
unfolding in_scope
in_scope-holds d a b p e h k = three ((eq_iff p.department_code d).1 e) h k
  where
    three : {t : Bool} {a b n : ℕ} → t ≡ true → a ≤ n → n ≤ b → (t && leb a n && leb n b) ≡ true
    three e h k = ground arith

module _ (w : World) (q : Request) (s : State) where
  -- The state in which the body runs.
  body_state : State
  body_state = set_rls_context q (mark_generating s)

  gate-IsClear :
      (a b : ℕ)
      → error_count w q.department_code a b body_state ≡ 0
      → pending_count w q.department_code a b body_state ≡ 0
      → IsClear w q a b s.papers
  unfolding error_count pending_count visible allowed body_state
  gate-IsClear a b e l =
      All-weaken _ _ s.papers (λ p h t d x y. h t (in_scope-holds q.department_code a b p d x y))
        (nothing_open (allowed w body_state.context) (in_scope q.department_code a b) s.papers e l)

  recorded :
      (s' : State) (m : ErrorMessage) (before now : Option Report)
      → IsOpened before now
      → HasEnded w q s s' before (map_report (failed_report m) now)
  unfolding IsOpened
  recorded s' m none none o = tt
  recorded s' m none (some r) o = absurd o
  recorded s' m (some r) none o = absurd o
  recorded s' m (some r) (some r') o =
      (λ _. inr refl, λ e. absurd (not_completed failed (λ x. x) e))

  unrecorded :
      (s' : State) (before now : Option Report)
      → IsOpened before now
      → w.failure_session_works ≡ false
      → HasEnded w q s s' before now
  unfolding IsOpened
  unrecorded s' none none o f = tt
  unrecorded s' none (some r) o f = absurd o
  unrecorded s' (some r) none o f = absurd o
  unrecorded s' (some r) (some r') o f = (λ t. absurd (contradiction t f), λ e. inl (o e))

  Uploads : State → Type 0
  Uploads s1 =
      (s1.bucket ≡ s.bucket) ⊎ ((bytes : Bytes) × (total : ℕ) × IsUpload w q s s1 bytes total)

  -- A failure after nothing, or a file that the gate let pass, has gone into the bucket.
  fail-IsSound :
      (s1 : State) (m : ErrorMessage)
      → IsOpened s.report s1.report
      → Uploads s1
      → IsSound w q s (fail w m s1)
  unfolding fail Uploads
  fail-IsSound s1 m o u =
      if-elim {A = Ending × State} (IsSound w q s) w.failure_session_works _ _
        (λ f. record {
          returns = λ _. refl;
          report =
              recorded
                (record s1 { context = none; report = map_report (failed_report m) s1.report }) m
                s.report s1.report o;
          uploads = u;
        })
        (λ f. record {
          returns = λ t. absurd (contradiction t f);
          report = unrecorded (record s1 { context = none }) s.report s1.report o f;
          uploads = u;
        })

  still_open : (r : Option Report) → IsOpened r r
  unfolding IsOpened
  still_open none = tt
  still_open (some r) = λ e. e

  generating_open :
      (r : Option Report) → IsOpened r (map_report (λ x. record x { status = generating }) r)
  unfolding IsOpened
  generating_open none = tt
  generating_open (some r) = λ e. absurd (not_completed generating (λ x. x) e)

  completed_end :
      (s' : State) (bytes : Bytes) (total : ℕ) (r : Option Report)
      → is_some r ≡ true
      → IsUpload w q s s' bytes total
      → s'.report_checksums ≡ s.report_checksums ++ w.sha256 bytes ∷ []
      → HasEnded w q s s' r (
          map_report
            (completed_report (w.s3_uri (w.s3_key q)) (w.sha256 bytes) total)
            (map_report (λ x. record x { status = generating }) r))
  completed_end s' bytes total none h u l = absurd (contradiction h refl)
  completed_end s' bytes total (some r) h u l =
      (λ _. inl refl, λ _. inr (bytes, total, u, refl, refl, refl, l))

  generating_there :
      (r : Option Report)
      → is_some (map_report (λ x. record x { status = generating }) r) ≡ is_some r
  generating_there none = refl
  generating_there (some r) = refl

  persist-IsSound :
      (a b : ℕ) (bytes : Bytes) (total : ℕ)
      → w.split_academic_year q.academic_year ≡ some (a, b)
      → IsClear w q a b s.papers
      → render w q a b (set_rls_context q s) ≡ some (bytes, total)
      → IsSound w q s (persist w q bytes total body_state)
  unfolding persist body_state Uploads
  persist-IsSound a b bytes total years clear r =
      let finished : State = record s {
        context = none;
        bucket = (w.s3_key q, bytes) ∷ s.bucket;
        report =
            map_report (completed_report (w.s3_uri (w.s3_key q)) (w.sha256 bytes) total)
              body_state.report;
        report_checksums = s.report_checksums ++ w.sha256 bytes ∷ [];
        audit_log = s.audit_log ++ q.generated_by ∷ [];
      } in
      if-elim {A = Ending × State} (IsSound w q s) (not w.upload_works) _ _
        (λ _. fail-IsSound body_state other_error (generating_open s.report) (inl refl))
        (λ _.
          if-elim {A = Ending × State} (IsSound w q s)
            (not (is_some body_state.report) || not w.second_commit_works) _ _
            (λ _.
              fail-IsSound (record body_state { bucket = (w.s3_key q, bytes) ∷ s.bucket })
                other_error (generating_open s.report)
                (inr (bytes, total, (a, b, years, clear, r, refl))))
            (λ h. record {
              returns = λ _. refl;
              report =
                  completed_end finished bytes total s.report
                    (sym (generating_there s.report) ∙ unnegated (neither h).0)
                    (a, b, years, clear, r, refl) refl;
              uploads = inr (bytes, total, (a, b, years, clear, r, refl));
            }))

  zero_of : (m n : ℕ) → (ltb 0 m || ltb 0 n) ≡ false → (m ≡ 0) × (n ≡ 0)
  zero_of m n h = (ground arith, ground arith)

  rendered :
      (a b : ℕ)
      → w.split_academic_year q.academic_year ≡ some (a, b)
      → IsClear w q a b s.papers
      → (o : Option (Bytes × ℕ)) → render w q a b (set_rls_context q s) ≡ o
      → IsSound w q s (after_render w q o body_state)
  unfolding after_render body_state Uploads
  rendered a b years clear none r =
      fail-IsSound body_state other_error (generating_open s.report) (inl refl)
  rendered a b years clear (some (bytes, total)) r = persist-IsSound a b bytes total years clear r

  gate-IsSound :
      (a b : ℕ)
      → w.split_academic_year q.academic_year ≡ some (a, b)
      → IsSound w q s (gate_and_render w q a b body_state)
  unfolding gate_and_render body_state Uploads render
  gate-IsSound a b years =
      if-elim {A = Ending × State} (IsSound w q s)
        (ltb 0 (error_count w q.department_code a b body_state)
          || ltb 0 (pending_count w q.department_code a b body_state))
        _ _ (λ _. fail-IsSound body_state _ (generating_open s.report) (inl refl))
        (λ h.
          let (e, l) = zero_of (error_count w q.department_code a b body_state) _ h in
          rendered a b years (gate-IsClear a b e l) _ refl)

  generate-IsSound :
      (o : Option (ℕ × ℕ))
      → w.split_academic_year q.academic_year ≡ o
      → IsSound w q s (generate w q o (mark_generating s))
  unfolding generate body_state Uploads
  generate-IsSound none e =
      fail-IsSound (mark_generating s) other_error (generating_open s.report) (inl refl)
  generate-IsSound (some (a, b)) e = gate-IsSound a b e

  -- A run puts at most one file into the bucket, and only if each paper of the department and the
  -- years that the policy shows to the request has no unresolved error and is decided; the file is
  -- what is rendered for the request. When the session that records failures works, the run returns.
  -- Without a committed row of the report the run leaves none. A row that is there stays, and ends
  -- completed or failed when failures can be recorded; it becomes completed only with the URI of that
  -- file and its checksum, which also goes to the checksum table.
  pub run_generation-IsSound : IsSound w q s (run_generation w q s)
  unfolding run_generation Uploads
  run_generation-IsSound =
      if-elim {A = Ending × State} (IsSound w q s) (not w.first_commit_works) _ _
        (λ _. fail-IsSound s other_error (still_open s.report) (inl refl))
        (λ _. generate-IsSound _ refl)
