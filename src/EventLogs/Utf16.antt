-- ===== src/EventLogs/Utf16.antt =====
-- eventlogs_windows.go: `UTF16BytesToString` and `indexNullTerminator`, with what they use of package
-- utf16 and of the conversion of runes to a string. A text is its bytes in UTF-8.
pub mod RoundTrip
mod Examples
use dhound_agent.Base.{
  ℕ, ℤ, pos, negsuc, ◌+◌, ◌-◌, ◌*◌, ◌/◌, ◌%◌, List, [], ◌∷◌, ◌++◌, Option, none, some, Bool, ◌&&◌,
  ◌||◌, ◌==◌, ltb, leb, take, if◌then◌else◌, length, Bytes,
}

abbrev pub is_high : ℕ → Bool
is_high u = leb 0xd800 u && ltb u 0xdc00

abbrev pub is_low : ℕ → Bool
is_low u = leb 0xdc00 u && ltb u 0xe000

-- The rune of a unit that is no part of a pair.
abbrev pub decode_single : ℕ → ℕ
decode_single u = if ltb u 0xd800 || leb 0xe000 u then u else 0xfffd

abbrev pub decode_pair : ℕ → ℕ → ℕ
decode_pair u v = (u - 0xd800) * 0x400 + (v - 0xdc00) + 0x10000

-- `utf16.Decode`
pub decode : List ℕ → List ℕ
decode [] = []
decode (u ∷ []) = decode_single u ∷ []
decode (u ∷ v ∷ rest) =
    let pair = decode_pair u v ∷ decode rest in
    let single = decode_single u ∷ decode (v ∷ rest) in
    if is_high u && is_low v then pair else single

-- One rune in UTF-8; what is no scalar value becomes U+FFFD.
pub encode_rune : ℕ → Bytes
encode_rune r =
    if ltb r 0x80
    then r ∷ []
    else if ltb r 0x800
    then (0xc0 + r / 0x40) ∷ (0x80 + r % 0x40) ∷ []
    else if (leb 0xd800 r && ltb r 0xe000) || ltb 0x10ffff r
    then 0xef ∷ 0xbf ∷ 0xbd ∷ []
    else if ltb r 0x10000
    then (0xe0 + r / 0x1000) ∷ (0x80 + r / 0x40 % 0x40) ∷ (0x80 + r % 0x40) ∷ []
    else (0xf0 + r / 0x40000)
      ∷ (0x80 + r / 0x1000 % 0x40)
      ∷ (0x80 + r / 0x40 % 0x40)
      ∷ (0x80 + r % 0x40)
      ∷ []

pub string_of : List ℕ → Bytes
unfolding encode_rune
string_of [] = []
string_of (r ∷ rest) = encode_rune r ++ string_of rest

-- The loop that joins the bytes to units.
pub units_of : Bytes → List ℕ
units_of (a ∷ b ∷ rest) = (a + b * 256) ∷ units_of rest
units_of _ = []

-- The loop of `indexNullTerminator`, for an even number of bytes.
pub index_from : ℕ → Bytes → Option ℕ
index_from i (a ∷ b ∷ rest) =
    let later = index_from (i + 2) rest in if a == 0 && b == 0 then some i else later
index_from i _ = none

-- `none` is -1.
pub index_null_terminator : Bytes → Option ℕ
unfolding index_from
index_null_terminator b = if ltb (length b) 2 then none else index_from 0 b

-- The offset behind the terminator, or -1 if nothing follows.
abbrev pub offset_of : ℕ → Bytes → ℤ
offset_of null_index b = if ltb (null_index + 2) (length b) then pos (null_index + 2) else negsuc 0

-- `none` is the error for an odd number of bytes.
unfoldable pub utf16_bytes_to_string : Bytes → Option (Bytes × ℤ)
unfolding index_null_terminator string_of decode units_of
utf16_bytes_to_string b =
    if length b % 2 == 0
    then elim (index_null_terminator b) [
      | none ↦ some (string_of (decode (units_of b)), negsuc 0)
      | some null_index ↦
          some (string_of (decode (units_of (take null_index b))), offset_of null_index b)
    ]
    else none
