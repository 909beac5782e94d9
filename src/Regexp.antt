-- ===== src/Regexp.antt =====
-- Go's package regexp, as far as the agent uses it: an interface. What it documents of the results
-- stands in the laws.
use dhound_agent.Base.{ℕ, ◌≤◌, List, [], ◌∷◌, ◌≡◌, Bool, Option, Bytes, length, All}

-- The pairs of `FindAllStringIndex` from `start` on: successive, and inside the text.
abbrev pub IsOrdered : ℕ → Bytes → List (ℕ × ℕ) → Type 0
IsOrdered start text [] = start ≤ length text
IsOrdered start text ((i, j) ∷ rest) = (start ≤ i) × (i ≤ j) × IsOrdered j text rest

pub record Regexp : Type 1 where
  pub Regex : Type 0
  -- `none` is an error.
  pub compile : Bytes → Option Regex
  pub match_string : Regex → Bytes → Bool
  pub find_string_submatch : Regex → Bytes → Option (List Bytes)
  pub find_all_string_submatch : Regex → Bytes → List (List Bytes)
  pub find_all_string_index : Regex → Bytes → List (ℕ × ℕ)
  pub subexp_names : Regex → List Bytes
  -- A match has one text for each subexpression, the whole match included.
  pub submatch_width :
      (r : Regex) (text : Bytes)
      → All (λ m. length m ≡ length (subexp_names r)) (find_all_string_submatch r text)
  pub index_ordered : (r : Regex) (text : Bytes) → IsOrdered 0 text (find_all_string_index r text)
