-- ===== src/Files/Ids/Distinct.antt =====
-- file_other.go and file_windows.go: the keys tell files apart.
use dhound_agent.Base.{
  ℕ, zero, suc, ◌+◌, ◌/◌, ◌%◌, [], ◌∷◌, ◌++◌, ◌≡◌, refl, ap, ◌≢◌, inl, inr, arith, Bytes, codes,
  All, Bool-cases, ltb, length, length-append, format_decimal, digits,
}
use dhound_agent.Conversions.RoundTrip.{format_decimal_inj}
use dhound_agent.Files.Ids.{found, not_exist, UnixStat, unix_key, get_file_os_unique_key}
use dhound_agent.Files.Ids.Windows.{WindowsStat, windows_key}

abbrev LacksBar : Bytes → Type 0
LacksBar = All (λ c. c ≢ b'_')

digits-LacksBar : (fuel n : ℕ) (out : Bytes) → LacksBar out → LacksBar (digits fuel n out)
unfolding digits
digits-LacksBar zero n out h = h
digits-LacksBar (suc fuel) n out h = elim (Bool-cases (ltb 9 n)) [
  | inl e ↦ rw e (digits-LacksBar fuel (n / 10) ((b'0' + n % 10) ∷ out) (ground arith, h))
  | inr e ↦ rw e (ground arith, h)
]

format_decimal-LacksBar : (n : ℕ) → LacksBar (format_decimal n)
unfolding format_decimal
format_decimal-LacksBar n = digits-LacksBar (suc n) n [] tt

-- A text is cut at its first bar in one way.
cut_at_bar :
    (s s' t t' : Bytes)
    → LacksBar s
    → LacksBar s'
    → s ++ b'_' ∷ t ≡ s' ++ b'_' ∷ t'
    → (s ≡ s') × (t ≡ t')
cut_at_bar [] [] t t' h k e = (refl, cc)
cut_at_bar [] (c ∷ s') t t' h k e = absurd (k.0 (cc))
cut_at_bar (c ∷ s) [] t t' h k e = absurd (h.0 (cc))
cut_at_bar (c ∷ s) (d ∷ s') t t' h k e =
    let (same, rest) = cut_at_bar s s' t t' h.1 k.1 (cc) in (cc (same, e), rest)

unix_key_inj : (a b : UnixStat) → unix_key a ≡ unix_key b → a ≡ b
unfolding unix_key
unix_key_inj a b h =
    let (inos, devs) =
      cut_at_bar (format_decimal a.ino) (format_decimal b.ino) (format_decimal a.dev)
        (format_decimal b.dev) (format_decimal-LacksBar a.ino) (format_decimal-LacksBar b.ino) h in
    ground (arith, format_decimal_inj a.ino b.ino inos, format_decimal_inj a.dev b.dev devs)

no_empty_key : (a : UnixStat) → unix_key a ≢ []
unfolding unix_key
no_empty_key a h = absurd (
    omega (
      arith,
      ap length h,
      length-append (format_decimal a.ino) (codes "_" ++ format_decimal a.dev),
    ))

-- On Windows two files that are there have one key only if they agree in all three numbers.
pub windows_key_inj : (a b : WindowsStat) → windows_key a ≡ windows_key b → a ≡ b
unfolding windows_key
windows_key_inj a b h =
    let (highs, rest) =
      cut_at_bar (format_decimal a.idxhi) (format_decimal b.idxhi) _ _
        (format_decimal-LacksBar a.idxhi) (format_decimal-LacksBar b.idxhi) h in
    let (lows, vols) =
      cut_at_bar (format_decimal a.idxlo) (format_decimal b.idxlo) (format_decimal a.vol)
        (format_decimal b.vol) (format_decimal-LacksBar a.idxlo) (format_decimal-LacksBar b.idxlo)
        rest in
    ground (
      arith,
      format_decimal_inj a.idxhi b.idxhi highs,
      format_decimal_inj a.idxlo b.idxlo lows,
      format_decimal_inj a.vol b.vol vols,
    )

-- Two files that are there have one key only if they agree in inode and device, and that key is not
-- the empty one of a missing file.
pub get_file_os_unique_key_inj :
    (a b : UnixStat)
    → get_file_os_unique_key (found a) ≡ get_file_os_unique_key (found b)
    → (a ≡ b) × (get_file_os_unique_key (found a) ≢ get_file_os_unique_key not_exist)
unfolding get_file_os_unique_key
get_file_os_unique_key_inj a b h = (unix_key_inj a b (cc), λ e. no_empty_key a (cc))
