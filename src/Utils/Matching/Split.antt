-- ===== src/Utils/Matching/Split.antt =====
-- `RegexSplit` of utils.go: the parts and what separates them are the whole text.
use dhound_agent.Base.{ℕ, List, [], ◌∷◌, ◌++◌, ◌≡◌, Bytes, drop, drop_between, append-nil}
use dhound_agent.Regexp.{Regexp, IsOrdered}
use dhound_agent.Utils.Matching.{slice, split_loop, regex_split}

-- The first list, with an element of the second behind each of its own but the last.
abbrev pub weave : List Bytes → List Bytes → Bytes
weave [] seps = []
weave (p ∷ ps) [] = p ++ weave ps []
weave (p ∷ ps) (s ∷ seps) = p ++ (s ++ weave ps seps)

-- The texts at the pairs of indices.
abbrev pub slices : Bytes → List (ℕ × ℕ) → List Bytes
slices text [] = []
slices text ((i, j) ∷ rest) = slice i j text ∷ slices text rest

module _ (regexp : Regexp) where
  weave-split_loop :
      (text : Bytes) (start : ℕ) (indexes : List (ℕ × ℕ))
      → IsOrdered start text indexes
      → weave (split_loop regexp text start indexes) (slices text indexes) ≡ drop start text
  unfolding split_loop
  weave-split_loop text start [] h = append-nil (drop start text)
  weave-split_loop text start ((i, j) ∷ rest) h =
      rw (weave-split_loop text j rest h.2, drop_between i j text h.1)
        (drop_between start i text h.0)

  -- The parts of a split, with the matches of the delimiter put back between them, are the text.
  weave-regex_split :
      (text : Bytes) (delimeter : regexp.Regex)
      → weave
          (regex_split regexp text delimeter)
          (slices text (regexp.find_all_string_index delimeter text))
        ≡ text
  unfolding regex_split
  weave-regex_split text delimeter = weave-split_loop text 0 _ (regexp.index_ordered delimeter text)
