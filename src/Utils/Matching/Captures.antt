-- ===== src/Utils/Matching/Captures.antt =====
-- utils.go: which value a field of the result map has.
use dhound_agent.Base.{
  List, [], ◌∷◌, ◌≡◌, refl, Option, none, some, ◌&&◌, if◌then◌else◌, Bytes, str_eq, Dict, get_key,
  get_key-put, put, arith, ltb, length,
}
use dhound_agent.Regexp.{Regexp}
use dhound_agent.Utils.Matching.{fill, fill_all, regex_find_all_submatches}

-- The last group of one match with this name and some text.
abbrev pub last_in_match : Bytes → List Bytes → List Bytes → Option Bytes
last_in_match field [] values = none
last_in_match field (name ∷ names) [] = none
last_in_match field (name ∷ names) (value ∷ values) = elim (last_in_match field names values) [
  | some later ↦ some later
  | none ↦
      if (ltb 0 (length name) && ltb 0 (length value)) && str_eq name field
      then some value
      else none
]

abbrev pub last_capture : Bytes → List Bytes → List (List Bytes) → Option Bytes
last_capture field names [] = none
last_capture field names (match ∷ matches) = elim (last_capture field names matches) [
  | some later ↦ some later
  | none ↦ last_in_match field names match
]

abbrev pub or_old : Option Bytes → Option Bytes → Option Bytes
or_old none old = old
or_old (some value) old = some value

module _ (regexp : Regexp) where
  get_key-fill :
      (field : Bytes) (names values : List Bytes) (m : Dict Bytes)
      → get_key field (fill regexp names values m)
        ≡ or_old (last_in_match field names values) (get_key field m)
  unfolding fill
  get_key-fill field [] values m = refl
  get_key-fill field (name ∷ names) [] m = refl
  get_key-fill field (name ∷ names) (value ∷ values) m = ground (
    arith,
    get_key-fill field names values m,
    get_key-fill field names values (put name value m),
    get_key-put name field value m,
  )

  get_key-fill_all :
      (field : Bytes) (names : List Bytes) (matches : List (List Bytes)) (m : Dict Bytes)
      → get_key field (fill_all regexp names matches m)
        ≡ or_old (last_capture field names matches) (get_key field m)
  unfolding fill_all
  get_key-fill_all field names [] m = refl
  get_key-fill_all field names (match ∷ matches) m = ground (
    arith,
    get_key-fill_all field names matches (fill regexp names match m),
    get_key-fill field names match m,
  )

  -- After the matches of an expression are put into a result map, each field has the text of the
  -- last group of that name that captured some text, over all matches, and its old value if there
  -- is none.
  pub get_key-regex_find_all_submatches :
      (field text : Bytes) (regex : regexp.Regex) (m : Dict Bytes)
      → get_key field (regex_find_all_submatches regexp text regex m)
        ≡ or_old
            (last_capture field
              (regexp.subexp_names regex)
              (regexp.find_all_string_submatch regex text))
            (get_key field m)
  unfolding regex_find_all_submatches
  get_key-regex_find_all_submatches field text regex m =
      get_key-fill_all field (regexp.subexp_names regex)
        (regexp.find_all_string_submatch regex text) m
