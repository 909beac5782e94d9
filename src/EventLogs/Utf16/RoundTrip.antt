-- ===== src/EventLogs/Utf16/RoundTrip.antt =====
-- eventlogs_windows.go: a text in UTF-16 is read back.
use dhound_agent.Base.{
  ℕ, pos, negsuc, ◌+◌, ◌-◌, ◌*◌, ◌/◌, ◌%◌, ◌<◌, ◌≤◌, List, [], ◌∷◌, ◌++◌, ◌≡◌, refl, ◌∙◌, ap, ◌⊎◌,
  inl, inr, some, true, false, ◌==◌, ltb, take, if◌then◌else◌, length, length-append, All,
  All-append, arith, Bytes, Bool-cases,
}
use dhound_agent.EventLogs.Utf16.{
  is_high, is_low, decode_single, decode_pair, decode, string_of, units_of, index_from,
  index_null_terminator, offset_of, utf16_bytes_to_string,
}

-- A Unicode scalar value but 0.
abbrev pub IsScalar : ℕ → Type 0
IsScalar r = (0 < r) × ((r < 0xd800) ⊎ (0xe000 ≤ r) × (r < 0x110000))

-- UTF-16, independently: a unit, or a pair of surrogates.
abbrev pub units_of_rune : ℕ → List ℕ
units_of_rune r =
    if ltb r 0x10000
    then r ∷ []
    else (0xd800 + (r - 0x10000) / 0x400) ∷ (0xdc00 + (r - 0x10000) % 0x400) ∷ []

abbrev pub encode : List ℕ → List ℕ
encode [] = []
encode (r ∷ rest) = units_of_rune r ++ encode rest

-- Each unit with its low byte first.
abbrev pub bytes_of : List ℕ → Bytes
bytes_of [] = []
bytes_of (u ∷ rest) = (u % 256) ∷ (u / 256) ∷ bytes_of rest

decode-single :
    (u : ℕ) (units : List ℕ)
    → is_high u ≡ false
    → decode (u ∷ units) ≡ decode_single u ∷ decode units
unfolding decode
decode-single u [] h = refl
decode-single u (v ∷ units) h = rw h refl

decode-pair :
    (u v : ℕ) (units : List ℕ)
    → is_high u ≡ true
    → is_low v ≡ true
    → decode (u ∷ v ∷ units) ≡ decode_pair u v ∷ decode units
unfolding decode
decode-pair u v units h k = rw (h, k) refl

decode-encode : (runes : List ℕ) → All IsScalar runes → decode (encode runes) ≡ runes
decode-encode [] h = unfold decode in refl
decode-encode (r ∷ runes) h = elim (Bool-cases (ltb r 0x10000)) [
  | inl small ↦ rw small (
      decode-single r (encode runes) (ground arith)
      ∙ ground (arith, ap (λ l. r ∷ l) (decode-encode runes h.1)))
  | inr large ↦ rw large (
      decode-pair _ _ (encode runes) (ground arith) (ground arith)
      ∙ ground (arith, ap (λ l. r ∷ l) (decode-encode runes h.1)))
]

units_of-bytes_of : (units : List ℕ) → units_of (bytes_of units) ≡ units
unfolding units_of
units_of-bytes_of [] = refl
units_of-bytes_of (u ∷ units) = ground (arith, units_of-bytes_of units)

length-bytes_of : (units : List ℕ) → length (bytes_of units) ≡ 2 * length units
length-bytes_of [] = omega arith
length-bytes_of (u ∷ units) = omega (arith, length-bytes_of units)

take-bytes_of :
    (units : List ℕ) (rest : Bytes) (n : ℕ)
    → n ≡ length (bytes_of units)
    → take n (bytes_of units ++ rest) ≡ bytes_of units
take-bytes_of [] rest n h = rw h refl
take-bytes_of (u ∷ units) rest n h =
    rw h (
      ap (λ l. (u % 256) ∷ (u / 256) ∷ l) (take-bytes_of units rest (length (bytes_of units)) refl))

abbrev IsPositive : ℕ → Type 0
IsPositive u = 0 < u

index_from-bytes_of :
    (i : ℕ) (units : List ℕ) (rest : Bytes)
    → All IsPositive units
    → index_from i (bytes_of units ++ 0 ∷ 0 ∷ rest) ≡ some (i + length (bytes_of units))
unfolding index_from
index_from-bytes_of i [] rest h = ground arith
index_from-bytes_of i (u ∷ units) rest h =
    ground (arith, index_from-bytes_of (i + 2) units rest h.1)

rune_units_pos : (r : ℕ) → 0 < r → All IsPositive (units_of_rune r)
rune_units_pos r h = ground arith

encode_pos : (runes : List ℕ) → All IsScalar runes → All IsPositive (encode runes)
encode_pos [] h = tt
encode_pos (r ∷ runes) h =
    All-append IsPositive (units_of_rune r) (encode runes) (rune_units_pos r h.0.0)
      (encode_pos runes h.1)

length-terminated :
    (units : List ℕ) (rest : Bytes)
    → length (bytes_of units ++ 0 ∷ 0 ∷ rest) ≡ 2 * length units + 2 + length rest
length-terminated units rest =
    omega (arith, length-append (bytes_of units) (0 ∷ 0 ∷ rest), length-bytes_of units)

index_null_terminator-bytes_of :
    (units : List ℕ) (rest : Bytes)
    → All IsPositive units
    → index_null_terminator (bytes_of units ++ 0 ∷ 0 ∷ rest) ≡ some (length (bytes_of units))
unfolding index_null_terminator
index_null_terminator-bytes_of units rest h =
    ground (arith, length-terminated units rest, index_from-bytes_of 0 units rest h)

terminated_text :
    (units : List ℕ) (rest : Bytes)
    → All IsPositive units
    → length rest % 2 ≡ 0
    → utf16_bytes_to_string (bytes_of units ++ 0 ∷ 0 ∷ rest)
      ≡ some (
        string_of (decode units),
        offset_of (length (bytes_of units)) (bytes_of units ++ 0 ∷ 0 ∷ rest),
      )
unfolding utf16_bytes_to_string
terminated_text units rest h even =
    rw
      (
        even_length,
        index_null_terminator-bytes_of units rest h,
        utf16_bytes_to_string,
        take-bytes_of units (0 ∷ 0 ∷ rest) (length (bytes_of units)) refl,
        units_of-bytes_of units,
      )
      refl
  where
    even_length : (length (bytes_of units ++ 0 ∷ 0 ∷ rest) % 2 == 0) ≡ true
    even_length = ground (arith, length-terminated units rest)

-- A text of Unicode characters but 0, in UTF-16 with the low byte first, then the terminator and
-- after it an even number of bytes: the text is read back, and what follows the terminator is left
-- alone: its offset is given, or -1 if nothing follows.
pub utf16_bytes_to_string-encode :
    (runes : List ℕ) (rest : Bytes)
    → All IsScalar runes
    → length rest % 2 ≡ 0
    → let text = bytes_of (encode runes) in
      utf16_bytes_to_string (text ++ 0 ∷ 0 ∷ rest)
      ≡ some (string_of runes, if ltb 0 (length rest) then pos (length text + 2) else negsuc 0)
utf16_bytes_to_string-encode runes rest h even =
    terminated_text (encode runes) rest (encode_pos runes h) even
    ∙ rw (decode-encode runes h)
        (ground (arith, length-append (bytes_of (encode runes)) (0 ∷ 0 ∷ rest)))
