-- ===== src/Extract/Tiers/Nlp.antt =====
-- module3-ai-worker/app/services/extraction/tier3_nlp.py. spaCy's entities of a text, the order
-- in which Python lists a set, the two character classes and the year pattern are parameters.
use prompt_flow_ai.Prelude.{
  ℕ, suc, Bool, not, ◌&&◌, Option, none, some, List, [], ◌∷◌, any, take, length, leb, non_empty,
  str_eq, String, if◌then◌else◌,
}
use prompt_flow_ai.Prelude.Text.{Text, codes, starts_with, contains, strip, lower}
use prompt_flow_ai.Extract.Tiers.Regex.{stripped_lines}

pub record Entity : Type 0 where
  pub text : Text
  pub label : String

pub record Language : Type 0 where
  pub entities : Text → List Entity
  pub set_list : List Text → List Text
  pub is_upper : ℕ → Bool
  pub is_digit : ℕ → Bool
  pub search_year : Text → Option ℕ

pub record NlpResult : Type 0 where
  pub title : Option Text
  pub authors : List Text
  pub venue : Option Text
  pub year : Option ℕ
  pub title_confidence : ℕ
  pub authors_confidence : ℕ
  pub venue_confidence : ℕ

abbrev venue_keywords : List Text
venue_keywords =
    codes "conference"
    ∷ codes "journal"
    ∷ codes "proceedings"
    ∷ codes "workshop"
    ∷ codes "symposium"
    ∷ codes "transactions"
    ∷ codes "letters"
    ∷ codes "review"
    ∷ codes "arxiv"
    ∷ []

count_if : (ℕ → Bool) → Text → ℕ
count_if p [] = 0
count_if p (c ∷ s) = if p c then suc (count_if p s) else count_if p s

starts_with_digit : Language → Text → Bool
starts_with_digit l [] = Bool.false
starts_with_digit l (c ∷ s) = l.is_digit c

is_title_line : Language → Text → Bool
unfolding count_if starts_with starts_with_digit
is_title_line l line =
    leb 20 (length line)
    && leb (length line) 200
    && not (starts_with (codes "http") line)
    && not (starts_with_digit l line)
    && leb 2 (count_if l.is_upper line)

find_title : Language → List Text → Option Text
find_title l [] = none
find_title l (line ∷ lines) = if is_title_line l line then some line else find_title l lines

texts_labelled : String → List Entity → List Text
texts_labelled label [] = []
texts_labelled label (e ∷ es) =
    if str_eq e.label label then strip e.text ∷ texts_labelled label es else texts_labelled label es

keep_authors : List Text → List Text
keep_authors [] = []
keep_authors (p ∷ ps) =
    if leb 3 (length p) && leb (length p) 60 && contains (codes " ") p
    then p ∷ keep_authors ps
    else keep_authors ps

find_venue : List Text → Option Text
find_venue [] = none
find_venue (org ∷ orgs) =
    if any (λ kw. contains kw (lower org)) venue_keywords
    then some (take 200 org)
    else find_venue orgs

find_year : Language → List Entity → Option ℕ
find_year l [] = none
find_year l (e ∷ es) =
    let rest = find_year l es in
    if str_eq e.label "DATE"
    then elim (l.search_year e.text) [ none ↦ rest | some y ↦ some y ]
    else rest

abbrev confidence_if : Bool → ℕ
confidence_if b = if b then 75 else 0

abbrev found {ℓ} : {A : Type ℓ} → Option A → Bool
found none = Bool.false
found (some a) = Bool.true

unfoldable pub extract_with_nlp : Language → Text → NlpResult
unfolding stripped_lines find_title is_title_line texts_labelled keep_authors find_venue find_year
extract_with_nlp l raw_text =
    let header_text = take 3000 raw_text in
    let ents = l.entities header_text in
    let title = find_title l (take 15 (stripped_lines header_text)) in
    let authors = take 8 (keep_authors (l.set_list (texts_labelled "PERSON" ents))) in
    let venue = find_venue (texts_labelled "ORG" ents) in
    record {
      title = title;
      authors = authors;
      venue = venue;
      year = find_year l ents;
      title_confidence = confidence_if (found title);
      authors_confidence = confidence_if (non_empty authors);
      venue_confidence = confidence_if (found venue);
    }
