-- ===== src/Reports/Access/Uri.antt =====
-- `parse_s3_uri` takes apart what `upload_file` puts together.
use mathlib.Core.Path.{subst}
use prompt_flow_ai.Prelude.{
  ℕ, ◌≡◌, ◌∙◌, ◌↔◌, refl, sym, ap, Bool, true, false, not, ◌||◌, Option, none, some, [], ◌∷◌, ◌++◌,
  arith, both, neither, unnegated, not_some, contradiction, drop, length, ◌==◌, ==_iff, if-elim,
  non_empty, if◌then◌else◌,
}
use prompt_flow_ai.Prelude.Text.{Text, codes, starts_with, has_code}
use prompt_flow_ai.Reports.Access.{partition, parse_s3_uri, s3_uri}

-- A bucket's name has no slash, and neither part is empty.
pub record IsAddress (bucket key : Text) : Type 0 where
  pub one_word : has_code 47 bucket ≡ false
  pub has_bucket : non_empty bucket ≡ true
  pub has_key : non_empty key ≡ true

-- The two ways a step of `partition` goes.
partition_cons :
    (P : Text × Text → Type 0) (c : ℕ) (t : Text)
    → ((c ≡ 47) → P ([], t))
    → ((c == 47) ≡ false → P (c ∷ (partition t).0, (partition t).1))
    → P (partition (c ∷ t))
unfolding partition
partition_cons P c t f g = if-elim P (c == 47) _ _ (λ e. f ((==_iff c 47).0 e)) g

partition-append :
    (bucket key : Text)
    → has_code 47 bucket ≡ false
    → partition (bucket ++ 47 ∷ key) ≡ (bucket, key)
unfolding partition has_code
partition-append [] key h = refl
partition-append (c ∷ b) key h =
    partition_cons (λ r. r ≡ (c ∷ b, key)) c (b ++ 47 ∷ key) (λ e. absurd (not_slash e h))
      (λ _. ap (λ r. (c ∷ r.0, r.1)) (partition-append b key (other (c == 47) (has_code 47 b) h)))
  where
    not_slash : c ≡ 47 → (c == 47 || has_code 47 b) ≡ false → ⊥
    not_slash e h = ground arith

    other : (x y : Bool) → (x || y) ≡ false → y ≡ false
    other x y h = ground arith

abbrev Rejoins : Text → Text × Text → Type 0
Rejoins t r = non_empty r.1 ≡ true → (t ≡ r.0 ++ 47 ∷ r.1) × (has_code 47 r.0 ≡ false)

partition-Rejoins : (t : Text) → Rejoins t (partition t)
unfolding partition has_code
partition-Rejoins [] = λ h. absurd (contradiction h refl)
partition-Rejoins (c ∷ t) =
    partition_cons (Rejoins (c ∷ t)) c t (λ e h. (ap (λ x. x ∷ t) e, refl))
      (λ f h.
        let (e, n) = partition-Rejoins t h in
        (ap (λ x. c ∷ x) e, none_of (c == 47) (has_code 47 (partition t).0) f n))
  where
    none_of : (x y : Bool) → x ≡ false → y ≡ false → (x || y) ≡ false
    none_of x y f n = ground arith

starts_with_split : (p s : Text) → starts_with p s ≡ true → s ≡ p ++ drop (length p) s
unfolding starts_with
starts_with_split [] s h = refl
starts_with_split (c ∷ p) [] h = absurd (contradiction h refl)
starts_with_split (c ∷ p) (d ∷ s) h =
    ap (λ x. x ∷ s) (sym ((==_iff c d).0 (both h).0))
    ∙ ap (λ t. c ∷ t) (starts_with_split p s (both h).1)

pair_or : Text × Text → Option (Text × Text) → Text × Text
pair_or d none = d
pair_or d (some r) = r

-- Parsing gives a bucket and a key exactly for the URI that uploading to them returns, for a bucket
-- without a slash and two parts that are not empty; anything else is refused.
pub parse_s3_uri-iff-s3_uri :
    (uri bucket key : Text)
    → (parse_s3_uri uri ≡ some (bucket, key)) ↔ ((uri ≡ s3_uri bucket key) × IsAddress bucket key)
unfolding parse_s3_uri starts_with pair_or
parse_s3_uri-iff-s3_uri uri bucket key = (
  if-elim (λ r. r ≡ some (bucket, key) → (uri ≡ s3_uri bucket key) × IsAddress bucket key)
      (not (starts_with (codes "s3://") uri)) _ _ (λ _ e. absurd (not_some e))
      (λ s.
        let parts = partition (drop 5 uri) in
        if-elim (λ r. r ≡ some (bucket, key) → (uri ≡ s3_uri bucket key) × IsAddress bucket key)
          (not (non_empty parts.0) || not (non_empty parts.1)) _ _ (λ _ e. absurd (not_some e))
          (λ f e.
            let same = ap (pair_or ([], [])) e in
            let (joined, one) = partition-Rejoins (drop 5 uri) (unnegated (neither f).1) in
            let split = starts_with_split (codes "s3://") uri (unnegated s) in
            (
              split ∙ ap (λ t. codes "s3://" ++ t) (joined ∙ ap (λ r. r.0 ++ 47 ∷ r.1) same),
              record {
                one_word = ap (λ r. has_code 47 r.0) (sym same) ∙ one;
                has_bucket = ap (λ r. non_empty r.0) (sym same) ∙ unnegated (neither f).0;
                has_key = ap (λ r. non_empty r.1) (sym same) ∙ unnegated (neither f).1;
              },
            ))),
  λ h.
      ap parse_s3_uri h.0
      ∙ subst
          (λ r.
            (if not (non_empty r.0) || not (non_empty r.1) then none else some r)
            ≡ some (bucket, key))
          (sym (partition-append bucket key h.1.one_word))
          (simp (h.1.has_bucket, h.1.has_key) refl),
)
