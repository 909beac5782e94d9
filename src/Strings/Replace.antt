-- ===== src/Strings/Replace.antt =====
-- The count that the agent gives to strings.Replace, the length of the text, never cuts it short.
use dhound_agent.Base.{
  ℕ, zero, suc, ◌-◌, ◌≤◌, [], ◌∷◌, ◌++◌, ◌≡◌, refl, ◌≢◌, true, length, Bytes, arith, ◌==◌, map,
  if◌then◌else◌, All,
}
use dhound_agent.Strings.{has_prefix, replace_scan, replace_all_scan, replace, replace_all}

replace_scan-all :
    (old new : Bytes) (skip n : ℕ) (s : Bytes)
    → length s ≤ n
    → replace_scan old new skip n s ≡ replace_all_scan old new skip s
unfolding replace_scan replace_all_scan
replace_scan-all old new skip n [] h = refl
replace_scan-all old new (suc skip) n (c ∷ s) h = replace_scan-all old new skip n s (omega arith)
replace_scan-all old new zero n (c ∷ s) h =
    ground
      (arith, replace_scan-all old new (length old - 1) (n - 1) s, replace_scan-all old new 0 n s)

-- With a count of at least the length of the text every occurrence is replaced.
pub replace-eq-replace_all :
    (old new : Bytes) (n : ℕ) (s : Bytes)
    → length s ≤ n
    → replace old new n s ≡ replace_all old new s
unfolding replace replace_all
replace-eq-replace_all old new n s h = replace_scan-all old new 0 n s h

-- A text of one byte: its replacement is a map over the bytes.
pub replace_all_byte :
    (b d : ℕ) (s : Bytes) → replace_all (b ∷ []) (d ∷ []) s ≡ map (λ c. if b == c then d else c) s
unfolding replace_all replace_all_scan has_prefix
replace_all_byte b d [] = refl
replace_all_byte b d (c ∷ s) = ground (arith, replace_all_byte b d s)

-- A text without the first byte of `old` stays as it is.
replace_all_scan-Lacks :
    (b : ℕ) (old new s : Bytes) → All (λ c. c ≢ b) s → replace_all_scan (b ∷ old) new 0 s ≡ s
unfolding replace_all_scan has_prefix
replace_all_scan-Lacks b old new [] h = refl
replace_all_scan-Lacks b old new (c ∷ s) h =
    ground (arith, h.0, replace_all_scan-Lacks b old new s h.1)

replace_all_scan-skip :
    (old new p s : Bytes)
    → replace_all_scan old new (length p) (p ++ s) ≡ replace_all_scan old new 0 s
unfolding replace_all_scan
replace_all_scan-skip old new [] s = refl
replace_all_scan-skip old new (c ∷ p) s = replace_all_scan-skip old new p s

has_prefix-append : (p s : Bytes) → has_prefix p (p ++ s) ≡ true
unfolding has_prefix
has_prefix-append [] s = refl
has_prefix-append (c ∷ p) s = ground (arith, has_prefix-append p s)

length_pred : (b : ℕ) (old : Bytes) → length (b ∷ old) - 1 ≡ length old
length_pred b old = omega arith

-- At an occurrence at the front, the new text stands there and the rest is replaced further.
pub replace_all-front :
    (b : ℕ) (old new s : Bytes)
    → replace_all (b ∷ old) new (b ∷ old ++ s) ≡ new ++ replace_all (b ∷ old) new s
unfolding replace_all replace_all_scan
replace_all-front b old new s =
    rw (has_prefix-append (b ∷ old) s, length_pred b old, replace_all_scan-skip (b ∷ old) new old s)

-- A text that lacks the first byte of the old text stays as it is.
pub replace_all-Lacks :
    (b : ℕ) (old new s : Bytes) → All (λ c. c ≢ b) s → replace_all (b ∷ old) new s ≡ s
unfolding replace_all
replace_all-Lacks = replace_all_scan-Lacks
