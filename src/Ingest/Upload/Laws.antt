-- ===== src/Ingest/Upload/Laws.antt =====
-- The loop of a multipart upload ends, and what it has then stored.
use mathlib.Core.Path.{subst}
use text.Mathlib.TextPositions.{eq_refl}
use prompt_flow_ai.Prelude.{
  ℕ, zero, suc, ◌+◌, ◌-◌, ◌≤◌, ◌<◌, ◌≡◌, ◌∙◌, ◌⊎◌, inl, inr, refl, sym, ap, String, true, false,
  Option, none, some, List, [], ◌∷◌, ◌++◌, arith, length, take, drop, length-append, ltb,
  contradiction, ltb→lt, if-elim, if◌then◌else◌,
}
use prompt_flow_ai.Prelude.Text.{Bytes}
use prompt_flow_ai.Ingest.Upload.{
  Calls, Bucket, Part, part_size, joined, upload_parts, Outcome, uploaded, raised, close_upload,
  abort, complete, multipart_upload,
}

module _ {A : Type 0} where
  take-drop : (n : ℕ) (xs : List A) → take n xs ++ drop n xs ≡ xs
  take-drop zero xs = refl
  take-drop (suc n) [] = refl
  take-drop (suc n) (x ∷ xs) = ap (λ ys. x ∷ ys) (take-drop n xs)

  drop-nil : (n : ℕ) → drop {A = A} n [] ≡ []
  drop-nil zero = refl
  drop-nil (suc n) = refl

  drop-plus : (a b : ℕ) (xs : List A) → drop (a + b) xs ≡ drop b (drop a xs)
  drop-plus zero b xs = ap (λ n. drop n xs) (omega arith)
  drop-plus (suc a) b [] = drop-nil (suc a + b) ∙ sym (drop-nil b)
  drop-plus (suc a) b (x ∷ xs) = ap (λ n. drop n (x ∷ xs)) (sum a b) ∙ drop-plus a b xs
    where
      sum : (a b : ℕ) → suc a + b ≡ suc (a + b)
      sum a b = omega arith

  length-drop : (n : ℕ) (xs : List A) → length (drop n xs) ≡ length xs - n
  length-drop zero xs = omega arith
  length-drop (suc n) [] = omega arith
  length-drop (suc n) (x ∷ xs) = omega (arith, length-drop n xs)

  take-cases :
      (n : ℕ) (xs : List A)
      → ((n ≤ length xs) × (length (take n xs) ≡ n))
        ⊎ ((length xs < n) × (length (take n xs) ≡ length xs))
  take-cases zero xs = inl (omega arith, refl)
  take-cases (suc n) [] = inr (omega arith, refl)
  take-cases (suc n) (x ∷ xs) = elim (take-cases n xs) [
    | inl (a, b) ↦ inl (omega arith, omega (arith, b))
    | inr (a, b) ↦ inr (omega arith, omega (arith, b))
  ]

-- The parts of a file from a number on: consecutive numbers, none empty, none larger than `size`,
-- and all but the last of exactly `size` bytes.
abbrev pub IsParts : (size number : ℕ) → List Part → Type 0
IsParts size number [] = Unit
IsParts size number ((n, chunk) ∷ ps) =
    (n ≡ number)
    × ((0 < length chunk)
        × ((length chunk ≤ size)
            × (((length chunk ≡ size) ⊎ (ps ≡ [])) × IsParts size (suc number) ps)))

-- What the loop may come to: an exception, or parts that join to the rest of the file.
data Ends (size number : ℕ) (rest : Bytes) (parts : List Part) (r : Option (Option (List Part)))
    : Type 0 where
  failed : r ≡ some none → Ends size number rest parts r
  done :
      (more : List Part)
      → r ≡ some (some (parts ++ more))
      → joined more ≡ rest
      → IsParts size number more
      → Ends size number rest parts r

parts_of_nothing :
    (size n : ℕ) (ps : List Part) → IsParts size n ps → length (joined ps) ≡ 0 → ps ≡ []
unfolding joined
parts_of_nothing size n [] h e = refl
parts_of_nothing size n ((m, chunk) ∷ ps) (a, (b, h)) e =
    absurd (too_long _ _ _ (length-append chunk (joined ps)) b e)
  where
    too_long : (x y z : ℕ) → x ≡ y + z → 0 < y → x ≡ 0 → ⊥
    too_long x y z p b e = omega arith

append_assoc : {A : Type 0} (xs ys zs : List A) → (xs ++ ys) ++ zs ≡ xs ++ (ys ++ zs)
append_assoc [] ys zs = refl
append_assoc (x ∷ xs) ys zs = ap (λ t. x ∷ t) (append_assoc xs ys zs)

append-nil : {A : Type 0} (xs : List A) → xs ++ [] ≡ xs
append-nil [] = refl
append-nil (x ∷ xs) = ap (λ t. x ∷ t) (append-nil xs)

empty_of : {A : Type 0} (xs : List A) → length xs ≡ 0 → xs ≡ []
empty_of [] e = refl
empty_of (x ∷ xs) e = absurd (omega (arith, e))

module _ (c : Calls) (size : ℕ) (file : Bytes) (positive : 0 < size) where
  -- One more part before those of the rest.
  first-IsParts :
      (offset n : ℕ) (more : List Part)
      → offset < length file
      → joined more ≡ drop (offset + size) file
      → IsParts size (suc n) more
      → IsParts size n ((n, take size (drop offset file)) ∷ more)
  first-IsParts offset n more l j h =
      let rest = length-drop offset file in
      elim (take-cases size (drop offset file)) [
        | inl (a, b) ↦ (refl, (omega (arith, b), (omega (arith, b), (inl b, h))))
        | inr (a, b) ↦ (
          refl,
          (
            omega (arith, b, rest),
            (
              omega (arith, b),
              (
                inr (
                    parts_of_nothing size (suc n) more h
                      (ap length j ∙ omega (arith, length-drop (offset + size) file, rest))),
                h,
              ),
            ),
          ),
        )
      ]

  longer :
      (offset n : ℕ) (parts : List Part) (r : Option (Option (List Part)))
      → offset < length file
      → Ends size
          (suc n)
          (drop (offset + size) file)
          (parts ++ (n, take size (drop offset file)) ∷ [])
          r
      → Ends size n (drop offset file) parts r
  unfolding joined
  longer offset n parts r l (failed e) = failed e
  longer offset n parts r l (done more e j h) =
      let chunk = take size (drop offset file) in
      done ((n, chunk) ∷ more)
        (e ∙ ap (λ p. some (some p)) (append_assoc parts ((n, chunk) ∷ []) more))
        (ap (λ t. chunk ++ t) (j ∙ drop-plus offset size file) ∙ take-drop size (drop offset file))
        (first-IsParts offset n more l j h)

  upload_parts-Ends :
      (fuel offset n : ℕ) (parts : List Part)
      → length file - offset < fuel
      → Ends size n (drop offset file) parts (upload_parts c size fuel file offset n parts)
  unfolding upload_parts joined
  upload_parts-Ends zero offset n parts l = absurd (omega (arith, l))
  upload_parts-Ends (suc fuel) offset n parts l =
      let chunk = take size (drop offset file) in
      let later =
        upload_parts c size fuel file (offset + size) (suc n) (parts ++ (n, chunk) ∷ []) in
      if-elim (Ends size n (drop offset file) parts) (ltb offset (length file)) _ _
        (λ t.
          if-elim (Ends size n (drop offset file) parts) (c.part_works n) _ _
            (λ _. longer offset n parts later (ltb→lt _ _ t) (
              upload_parts-Ends fuel (offset + size) (suc n) (parts ++ (n, chunk) ∷ [])
                (omega (arith, ltb→lt _ _ t))))
            (λ _. failed refl))
        (λ f.
          done [] (ap (λ p. some (some p)) (sym (append-nil parts)))
            (sym (empty_of (drop offset file) (length-drop offset file ∙ at_end f))) tt)
    where
      at_end : ltb offset (length file) ≡ false → length file - offset ≡ 0
      at_end f = ground arith

-- What an upload that returns or raises leaves behind.
abbrev pub Leaves : Calls → String → Bytes → Bucket → Outcome → Bucket → Type 0
Leaves c key file b uploaded b' =
    (b'.objects ≡ (key, file) ∷ b.objects) × (b'.open_uploads ≡ b.open_uploads)
Leaves c key file b raised b' =
    (b'.objects ≡ b.objects) × (c.abort_works ≡ true → b'.open_uploads ≡ b.open_uploads)

-- The upload has ended, and not for want of fuel.
pub record IsFinished (c : Calls) (key : String) (file : Bytes) (b : Bucket)
    (r : Option (Outcome × Bucket)) : Type 0 where
  pub outcome : Outcome
  pub bucket : Bucket
  pub ended : r ≡ some (outcome, bucket)
  pub leaves : Leaves c key file b outcome bucket

module _ (c : Calls) (key : String) (file : Bytes) (b : Bucket) where
  opened : Bucket
  opened = record b { open_uploads = key ∷ b.open_uploads }

  closed_again : close_upload key (key ∷ b.open_uploads) ≡ b.open_uploads
  unfolding close_upload
  closed_again =
      ap (λ x. if x then b.open_uploads else key ∷ close_upload key b.open_uploads) (eq_refl key)

  abort-IsFinished : IsFinished c key file b (some (abort c key opened))
  unfolding abort opened
  abort-IsFinished =
      if-elim (λ r. IsFinished c key file b (some r)) c.abort_works _ _
        (λ _. record {
          outcome = raised;
          bucket = _;
          ended = refl;
          leaves = (refl, λ _. closed_again);
        })
        (λ f. record {
          outcome = raised;
          bucket = opened;
          ended = refl;
          leaves = (refl, λ t. absurd (contradiction t f));
        })

  complete-IsFinished :
      (r : Option (Option (List Part)))
      → Ends part_size 1 file [] r
      → IsFinished c key file b (complete c key r opened)
  unfolding complete opened
  complete-IsFinished r (failed e) =
      subst (λ x. IsFinished c key file b (complete c key x opened)) (sym e) abort-IsFinished
  complete-IsFinished r (done more e j h) =
      subst (λ x. IsFinished c key file b (complete c key x opened)) (sym e)
        (if-elim (IsFinished c key file b) c.complete_works _ _
          (λ _. record {
            outcome = uploaded;
            bucket = _;
            ended = refl;
            leaves = (ap (λ t. (key, t) ∷ b.objects) j, closed_again);
          })
          (λ _. abort-IsFinished))

  -- A multipart upload always ends: it returns with the object stored under its key, whose parts
  -- join to the bytes of the file, or it raises with no object stored; either way no upload is left
  -- open, unless the abort raises as well.
  pub multipart_upload-IsFinished : IsFinished c key file b (multipart_upload c key file b)
  unfolding multipart_upload opened
  multipart_upload-IsFinished =
      if-elim (IsFinished c key file b) c.create_works _ _
        (λ _. complete-IsFinished _ (
          upload_parts-Ends c part_size file (omega arith) (suc (length file)) 0 1 []
            (omega arith)))
        (λ _. record { outcome = raised; bucket = b; ended = refl; leaves = (refl, λ _. refl) })
