-- ===== src/Utils/Matching.antt =====
-- utils.go: the functions over regular expressions and result maps. A range over a map visits the
-- entries in the order of the association list; Go leaves that order open.
pub mod Captures
pub mod Split
pub mod Exclude
pub mod Message
use dhound_agent.Base.{
  ℕ, ◌-◌, List, [], ◌∷◌, ◌++◌, Bool, true, false, ◌&&◌, if◌then◌else◌, length, Option, none, some,
  Bytes, codes, Dict, put, value_of, ltb, take, drop,
}
use dhound_agent.Regexp.{Regexp}
use dhound_agent.Strings.{replace}

-- `text[i:j]`, for indices in range.
abbrev pub slice : ℕ → ℕ → Bytes → Bytes
slice i j text = take (j - i) (drop i text)

module _ (regexp : Regexp) where
  open regexp use {
    Regex, match_string, find_all_string_submatch, find_all_string_index, subexp_names,
  }

  -- The loop over the names of one match. Both lists have one length, so that `match[i]` is there.
  pub fill : List Bytes → List Bytes → Dict Bytes → Dict Bytes
  fill [] values m = m
  fill (name ∷ names) [] m = m
  fill (name ∷ names) (value ∷ values) m =
      fill names values
        (if ltb 0 (length name) && ltb 0 (length value) then put name value m else m)

  pub fill_all : List Bytes → List (List Bytes) → Dict Bytes → Dict Bytes
  unfolding fill
  fill_all names [] m = m
  fill_all names (match ∷ matches) m = fill_all names matches (fill names match m)

  unfoldable pub regex_find_all_submatches : Bytes → Regex → Dict Bytes → Dict Bytes
  unfolding fill_all put
  regex_find_all_submatches text regex m =
      fill_all (subexp_names regex) (find_all_string_submatch regex text) m

  split_loop : Bytes → ℕ → List (ℕ × ℕ) → List Bytes
  split_loop text last_start [] = drop last_start text ∷ []
  split_loop text last_start ((i, j) ∷ rest) = slice last_start i text ∷ split_loop text j rest

  unfoldable pub regex_split : Bytes → Regex → List Bytes
  unfolding split_loop
  regex_split text delimeter = split_loop text 0 (find_all_string_index delimeter text)

  -- Whether one entry of the filter fires; a nil expression does not.
  pub excludes : Dict Bytes → Bytes × Option Regex → Bool
  excludes result_map (name, none) = false
  excludes result_map (name, some regex) =
      ltb 0 (length (value_of [] name result_map))
      && match_string regex (value_of [] name result_map)

  exclude_loop : List (Bytes × Option Regex) → Dict Bytes → Bool → Bool
  exclude_loop [] result_map skip_event = skip_event
  exclude_loop (entry ∷ rest) result_map skip_event =
      exclude_loop rest result_map (if excludes result_map entry then true else skip_event)

  unfoldable pub apply_exclude_filter_to_security_events : Dict (Option Regex) → Dict Bytes → Bool
  unfolding exclude_loop excludes
  apply_exclude_filter_to_security_events filter result_map =
      if ltb 0 (length filter) then exclude_loop filter result_map false else false

message_loop : Dict Bytes → Bytes → Bytes
message_loop [] message = message
message_loop ((key, value) ∷ rest) message =
    message_loop rest (replace (codes "#" ++ key) value (length message) message)

unfoldable pub apply_filter_to_security_message : Bytes → Dict Bytes → Bytes
unfolding message_loop replace
apply_filter_to_security_message message result_map =
    if ltb 0 (length message) then message_loop result_map message else message
