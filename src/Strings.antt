-- ===== src/Strings.antt =====
-- What the agent uses of Go's package strings, on bytes. `Replace` is only ever called with an
-- old text that is not empty.
pub mod Replace
use dhound_agent.Base.{
  ℕ, zero, suc, ◌-◌, [], ◌∷◌, ◌++◌, Bool, true, false, ◌&&◌, ◌||◌, ◌==◌, if◌then◌else◌, length,
  Bytes, ltb, reverse, take,
}

unfoldable pub has_prefix : Bytes → Bytes → Bool
has_prefix [] s = true
has_prefix (p ∷ ps) [] = false
has_prefix (p ∷ ps) (c ∷ s) = (p == c) && has_prefix ps s

unfoldable pub has_suffix : Bytes → Bytes → Bool
unfolding has_prefix
has_suffix suffix s = has_prefix (reverse suffix) (reverse s)

unfoldable pub trim_suffix : Bytes → Bytes → Bytes
unfolding has_suffix
trim_suffix suffix s = if has_suffix suffix s then take (length s - length suffix) s else s

unfoldable pub contains_text : Bytes → Bytes → Bool
unfolding has_prefix
contains_text part [] = has_prefix part []
contains_text part (c ∷ s) = has_prefix part (c ∷ s) || contains_text part s

-- The scan of `strings.Replace(s, old, new, n)`: `skip` bytes of a match are still to pass over, and
-- `n` replacements are left.
replace_scan : Bytes → Bytes → ℕ → ℕ → Bytes → Bytes
replace_scan old new skip n [] = []
replace_scan old new (suc skip) n (c ∷ s) = replace_scan old new skip n s
replace_scan old new zero n (c ∷ s) =
    let hit = new ++ replace_scan old new (length old - 1) (n - 1) s in
    let miss = c ∷ replace_scan old new 0 n s in
    if ltb 0 n && has_prefix old (c ∷ s) then hit else miss

unfoldable pub replace : Bytes → Bytes → ℕ → Bytes → Bytes
unfolding replace_scan has_prefix
replace old new n s = replace_scan old new 0 n s

-- `strings.Replace(s, old, new, -1)`.
replace_all_scan : Bytes → Bytes → ℕ → Bytes → Bytes
replace_all_scan old new skip [] = []
replace_all_scan old new (suc skip) (c ∷ s) = replace_all_scan old new skip s
replace_all_scan old new zero (c ∷ s) =
    let hit = new ++ replace_all_scan old new (length old - 1) s in
    let miss = c ∷ replace_all_scan old new 0 s in if has_prefix old (c ∷ s) then hit else miss

unfoldable pub replace_all : Bytes → Bytes → Bytes → Bytes
unfolding replace_all_scan has_prefix
replace_all old new s = replace_all_scan old new 0 s
