-- ===== src/Conversions.antt =====
-- util_convert.go. What it calls of package strconv is written out for base 10; the width of `int` and
-- `uint` is an argument, 32 or 64.
pub mod RoundTrip
mod Examples
use dhound_agent.Base.{
  ℕ, ℤ, pos, negsuc, suc, ◌+◌, ◌-◌, ◌*◌, ◌^◌, [], ◌∷◌, Option, none, some, Bool, true, false, ◌&&◌,
  ◌==◌, ltb, leb, if◌then◌else◌, length, Bytes, format_decimal,
}

-- The loop over the digits, from a value on; `none` at another character.
unfoldable pub parse_digits : ℕ → Bytes → Option ℕ
parse_digits n [] = some n
parse_digits n (c ∷ s) =
    let rest = parse_digits (10 * n + (c - b'0')) s in
    if leb b'0' c && leb c b'9' then rest else none

-- `strconv.ParseUint(s, 10, bits)`; `none` is an error, of the syntax or of the range.
unfoldable pub parse_uint : ℕ → Bytes → Option ℕ
unfolding parse_digits
parse_uint bits s =
    if ltb 0 (length s)
    then elim (parse_digits 0 s) [
      | none ↦ none
      | some n ↦ if ltb n (2 ^ bits) then some n else none
    ]
    else none

abbrev pub negate : ℕ → ℤ
negate n = if n == 0 then pos 0 else negsuc (n - 1)

-- A magnitude with its sign, if it is in the range of `bits`.
pub with_sign : ℕ → Bool → Option ℕ → Option ℤ
with_sign bits negative none = none
with_sign bits negative (some n) =
    if negative
    then (if leb n (2 ^ (bits - 1)) then some (negate n) else none)
    else if ltb n (2 ^ (bits - 1))
    then some (pos n)
    else none

-- `strconv.ParseInt(s, 10, bits)`.
unfoldable pub parse_int : ℕ → Bytes → Option ℤ
unfolding parse_uint with_sign
parse_int bits [] = none
parse_int bits (c ∷ s) =
    if c == b'-'
    then with_sign bits true (parse_uint bits s)
    else if c == b'+'
    then with_sign bits false (parse_uint bits s)
    else with_sign bits false (parse_uint bits (c ∷ s))

pub or_zero : Option ℤ → ℤ
or_zero none = pos 0
or_zero (some n) = n

unfoldable pub force_atoi : ℕ → Bytes → ℤ
unfolding parse_int or_zero
force_atoi int_bits s = or_zero (parse_int int_bits s)

unfoldable pub force_atoui : ℕ → Bytes → ℕ
unfolding parse_uint
force_atoui int_bits s = elim (parse_uint int_bits s) [ none ↦ 0 | some n ↦ n ]

unfoldable pub force_atoi64 : Bytes → ℤ
unfolding parse_int or_zero
force_atoi64 s = or_zero (parse_int 64 s)

unfoldable pub format_int : ℤ → Bytes
unfolding format_decimal
format_int (pos n) = format_decimal n
format_int (negsuc n) = b'-' ∷ format_decimal (suc n)

unfoldable pub itoa : ℤ → Bytes
unfolding format_int
itoa i = format_int i

unfoldable pub i64toa : ℤ → Bytes
unfolding format_int
i64toa i = format_int i
