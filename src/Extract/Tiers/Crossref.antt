-- ===== src/Extract/Tiers/Crossref.antt =====
-- module3-ai-worker/app/services/extraction/tier2_crossref.py. The HTTP call is a parameter: a
-- reply with its status and the fields of its JSON, or an exception.
use prompt_flow_ai.Prelude.{
  ℕ, Bool, true, false, Option, none, some, List, [], ◌∷◌, ◌++◌, head_of, non_empty, ◌==◌, ◌||◌,
  if◌then◌else◌,
}
use prompt_flow_ai.Prelude.Text.{Text, codes, remove, strip}

-- `given` and `family`, "" where the key is missing
pub record CrossRefAuthor : Type 0 where
  pub given : Text
  pub family : Text

-- `data = response.json().get("message", {})`. A list field holds [] where its key is missing,
-- and a `date-parts` field [[]].
pub record Message : Type 0 where
  pub title : List Text
  pub author : List CrossRefAuthor
  pub published_print : List (List ℕ)
  pub published_online : List (List ℕ)
  pub created : List (List ℕ)
  pub container_title : List Text
  pub publisher : Option Text
  pub abstract : Text

pub data Reply : Type 0 where
  failed : Reply
  status : ℕ → Message → Reply

pub record CrossRefResult : Type 0 where
  pub found : Bool
  pub title : Option Text
  pub authors : List Text
  pub year : Option ℕ
  pub venue : Option Text
  pub abstract : Option Text

abbrev pub not_found : CrossRefResult
not_found = record {
  found = false;
  title = none;
  authors = [];
  year = none;
  venue = none;
  abstract = none;
}

unfoldable pub parse_author : CrossRefAuthor → Text
unfolding strip
parse_author a =
    if non_empty a.given || non_empty a.family then strip (a.given ++ 32 ∷ a.family) else []

author_names : List CrossRefAuthor → List Text
author_names [] = []
author_names (a ∷ rest) =
    if non_empty (parse_author a) then parse_author a ∷ author_names rest else author_names rest

-- `date_parts[0][0]` if `date_parts and date_parts[0]`
first_part : List (List ℕ) → Option ℕ
first_part [] = none
first_part ([] ∷ _) = none
first_part ((y ∷ _) ∷ _) = some y

abbrev first_some : Option ℕ → Option ℕ → Option ℕ
first_some none b = b
first_some (some y) b = some y

unfoldable pub publication_year : Message → Option ℕ
unfolding first_part
publication_year m =
    first_some (first_part m.published_print)
      (first_some (first_part m.published_online) (first_part m.created))

none_if_empty : Text → Option Text
none_if_empty [] = none
none_if_empty (c ∷ s) = some (c ∷ s)

-- the fields that the function reads off a reply of status 200
unfoldable pub read_message : Message → CrossRefResult
unfolding author_names parse_author publication_year remove strip none_if_empty
read_message m = record {
  found = true;
  title = head_of m.title;
  authors = author_names m.author;
  year = publication_year m;
  venue = elim (head_of m.container_title) [ none ↦ m.publisher | some v ↦ some v ];
  abstract =
      none_if_empty (strip (remove (codes "</jats:p>") (remove (codes "<jats:p>") m.abstract)));
}

unfoldable pub lookup_crossref : (Text → Reply) → Text → CrossRefResult
unfolding read_message
lookup_crossref get doi = elim (get doi) [
  | failed ↦ not_found
  | status code m ↦ if code == 200 then read_message m else not_found
]
