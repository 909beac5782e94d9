-- ===== src/Conversions/RoundTrip.antt =====
-- util_convert.go: a printed number is read back.
use dhound_agent.Base.{
  ℕ, ℤ, pos, negsuc, zero, suc, ◌+◌, ◌*◌, ◌/◌, ◌%◌, ◌^◌, ◌<◌, ◌≤◌, [], ◌∷◌, ◌≡◌, refl, ◌∙◌, ap, sym,
  some, true, false, ltb, length, arith, Bytes, format_decimal, digits, lt→ltb, Bool-cases, inl,
  some_inj, inr,
}
use dhound_agent.Conversions.{
  parse_digits, parse_uint, with_sign, parse_int, or_zero, force_atoi64, format_int, i64toa,
  force_atoui,
}

parse_digit :
    (m n : ℕ) (out : Bytes)
    → 10 * m + n % 10 ≡ n
    → parse_digits m ((b'0' + n % 10) ∷ out) ≡ parse_digits n out
unfolding parse_digits
parse_digit m n out h = ground (arith, ap (λ k. parse_digits k out) h)

parse_digits-digits :
    (fuel n : ℕ) (out : Bytes) → n < fuel → parse_digits 0 (digits fuel n out) ≡ parse_digits n out
unfolding digits
parse_digits-digits zero n out h = absurd (omega arith)
parse_digits-digits (suc fuel) n out h = elim (Bool-cases (ltb 9 n)) [
  | inl e ↦ rw e (
      parse_digits-digits fuel (n / 10) ((b'0' + n % 10) ∷ out) (ground arith)
      ∙ parse_digit (n / 10) n out (omega arith))
  | inr e ↦ rw e (parse_digit 0 n out (ground arith))
]

-- A text that begins with a digit, or at least with no sign.
abbrev pub StartsWithDigit : Bytes → Type 0
StartsWithDigit s = (c : ℕ) × (rest : Bytes) × (s ≡ c ∷ rest) × (b'0' ≤ c)

digits-head : (fuel n c : ℕ) (out : Bytes) → b'0' ≤ c → StartsWithDigit (digits fuel n (c ∷ out))
unfolding digits
digits-head zero n c out h = (c, out, refl, h)
digits-head (suc fuel) n c out h = elim (Bool-cases (ltb 9 n)) [
  | inl e ↦ rw e (digits-head fuel (n / 10) (b'0' + n % 10) (c ∷ out) (omega arith))
  | inr e ↦ rw e (b'0' + n % 10, c ∷ out, refl, omega arith)
]

format_decimal-head : (n : ℕ) → StartsWithDigit (format_decimal n)
unfolding format_decimal digits
format_decimal-head n = elim (Bool-cases (ltb 9 n)) [
  | inl e ↦ rw e (digits-head n (n / 10) (b'0' + n % 10) [] (omega arith))
  | inr e ↦ rw e (b'0' + n % 10, [], refl, omega arith)
]

pub length-format_decimal : (n : ℕ) → ltb 0 (length (format_decimal n)) ≡ true
length-format_decimal n =
    let (c, rest, e, _) = format_decimal-head n in
    ap (λ s. ltb 0 (length s)) e ∙ lt→ltb 0 (suc (length rest)) (omega arith)

pub parse_digits-format_decimal : (n : ℕ) → parse_digits 0 (format_decimal n) ≡ some n
unfolding format_decimal parse_digits
parse_digits-format_decimal n = parse_digits-digits (suc n) n [] (omega arith)

pub format_decimal_inj : (m n : ℕ) → format_decimal m ≡ format_decimal n → m ≡ n
format_decimal_inj m n h =
    some_inj
      (sym (parse_digits-format_decimal m) ∙ ap (parse_digits 0) h ∙ parse_digits-format_decimal n)

parse_uint-format_decimal :
    (bits n : ℕ) → n < 2 ^ bits → parse_uint bits (format_decimal n) ≡ some n
unfolding parse_uint
parse_uint-format_decimal bits n h =
    rw (length-format_decimal n, parse_digits-format_decimal n, lt→ltb n (2 ^ bits) h) refl

-- A number that fits into the width comes back from its decimal print.
pub force_atoui-format_decimal :
    (bits n : ℕ) → n < 2 ^ bits → force_atoui bits (format_decimal n) ≡ n
unfolding force_atoui
force_atoui-format_decimal bits n h = rw (parse_uint-format_decimal bits n h, force_atoui) refl

-- The range of int64.
abbrev pub IsInt64 : ℤ → Type 0
IsInt64 (pos n) = n < 2 ^ 63
IsInt64 (negsuc n) = n < 2 ^ 63

parse_int-digit :
    (bits c : ℕ) (rest : Bytes)
    → b'0' ≤ c
    → parse_int bits (c ∷ rest) ≡ with_sign bits false (parse_uint bits (c ∷ rest))
unfolding parse_int
parse_int-digit bits c rest h = ground arith

parse_int-pos : (n : ℕ) → n < 2 ^ 63 → parse_int 64 (format_decimal n) ≡ some (pos n)
unfolding with_sign
parse_int-pos n h =
    let (c, rest, e, k) = format_decimal-head n in
    ap (parse_int 64) e
    ∙ parse_int-digit 64 c rest k
    ∙ ap (λ s. with_sign 64 false (parse_uint 64 s)) (sym e)
    ∙ ap (with_sign 64 false) (parse_uint-format_decimal 64 n (omega arith))
    ∙ ground arith

parse_int-negsuc :
    (n : ℕ) → n < 2 ^ 63 → parse_int 64 (b'-' ∷ format_decimal (suc n)) ≡ some (negsuc n)
unfolding parse_int with_sign
parse_int-negsuc n h =
    ap (with_sign 64 true) (parse_uint-format_decimal 64 (suc n) (omega arith)) ∙ ground arith

-- An int64 comes back from its decimal print, of either sign.
pub force_atoi64-i64toa : (i : ℤ) → IsInt64 i → force_atoi64 (i64toa i) ≡ i
unfolding force_atoi64 i64toa format_int or_zero
force_atoi64-i64toa (pos n) h = ap or_zero (parse_int-pos n h)
force_atoi64-i64toa (negsuc n) h = ap or_zero (parse_int-negsuc n h)
