-- ===== src/Extract/Tiers/Regex.antt =====
-- module3-ai-worker/app/services/extraction/tier1_regex.py. What the two compiled patterns find
-- in a text is a parameter; the rest of the function is here. Confidences count hundredths.
use prompt_flow_ai.Prelude.{
  ℕ, suc, not, ◌&&◌, Option, none, some, List, [], ◌∷◌, map, take, length, ltb, non_empty, ◌==◌,
  if◌then◌else◌,
}
use mathlib.Core.List.{reverse}
use prompt_flow_ai.Prelude.Text.{Text, codes, starts_with, strip}

add_code : ℕ → List Text → List Text
add_code c [] = []
add_code c (l ∷ ls) = if c == 10 then [] ∷ l ∷ ls else (c ∷ l) ∷ ls

-- `text.split("\n")`
unfoldable pub split_lines : Text → List Text
unfolding add_code
split_lines [] = [] ∷ []
split_lines (c ∷ s) = add_code c (split_lines s)

keep_non_empty : List Text → List Text
keep_non_empty [] = []
keep_non_empty (l ∷ ls) = if non_empty l then l ∷ keep_non_empty ls else keep_non_empty ls

-- `[l.strip() for l in text.split("\n") if l.strip()]`
unfoldable pub stripped_lines : Text → List Text
unfolding split_lines keep_non_empty strip
stripped_lines text = keep_non_empty (map strip (split_lines text))

-- `s.rstrip(".")`
drop_dots : Text → Text
drop_dots [] = []
drop_dots (c ∷ s) = if c == 46 then drop_dots s else c ∷ s

unfoldable pub rstrip_dots : Text → Text
unfolding drop_dots
rstrip_dots s = reverse (drop_dots (reverse s))

count : ℕ → List ℕ → ℕ
count y [] = 0
count y (z ∷ zs) = if y == z then suc (count y zs) else count y zs

-- the first of the candidates that no later one exceeds in `all`
most_common_from : List ℕ → ℕ → List ℕ → ℕ
most_common_from all best [] = best
most_common_from all best (y ∷ ys) =
    most_common_from all (if ltb (count best all) (count y all) then y else best) ys

-- `Counter(ys).most_common(1)[0][0]`: ties go to the value that was met first
unfoldable pub most_common : List ℕ → Option ℕ
unfolding most_common_from count
most_common [] = none
most_common (y ∷ ys) = some (most_common_from (y ∷ ys) y ys)

pub record RegexResult : Type 0 where
  pub doi : Option Text
  pub year : Option ℕ
  pub title_candidate : Option Text
  pub doi_confidence : ℕ
  pub year_confidence : ℕ

-- the loop over the lines
title_from : List Text → Option Text
title_from [] = none
title_from (line ∷ lines) =
    if ltb 10 (length line) && not (starts_with (codes "http") line)
    then some (take 300 line)
    else title_from lines

-- the group of the first match of `_DOI_PATTERN`, and the matches of `_YEAR_PATTERN` as numbers
pub record Patterns : Type 0 where
  pub search_doi : Text → Option Text
  pub find_years : Text → List ℕ

unfoldable pub extract_with_regex : Patterns → Text → RegexResult
unfolding rstrip_dots most_common title_from stripped_lines starts_with
extract_with_regex p raw_text = record {
  doi = elim (p.search_doi raw_text) [ none ↦ none | some m ↦ some (rstrip_dots m) ];
  year = most_common (p.find_years raw_text);
  title_candidate = title_from (take 10 (stripped_lines raw_text));
  doi_confidence = elim (p.search_doi raw_text) [ none ↦ 0 | some _ ↦ 95 ];
  year_confidence = if non_empty (p.find_years raw_text) then 60 else 0;
}
