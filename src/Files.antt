-- ===== src/Files.antt =====
-- file.go: `NormalizeFileName`. The separator of the system is an argument, `/` or `\`.
pub mod Ids
pub mod Opening
mod Examples
use dhound_agent.Base.{
  ℕ, zero, suc, ◌-◌, List, [], ◌∷◌, ◌≡◌, ◌∙◌, ap, sym, subst, ◌≢◌, if◌then◌else◌, ◌==◌, ltb, length,
  Bytes, codes, reverse, map, All, All-reverse, arith, Bool-cases, inl, inr, ◌⊎◌,
}
use dhound_agent.Strings.{has_prefix, replace}
use dhound_agent.Strings.Replace.{replace-eq-replace_all, replace_all_byte}

-- The encodings of the white space of Unicode, which `strings.TrimSpace` cuts off.
abbrev spaces : List Bytes
spaces =
    (9 ∷ [])
    ∷ (10 ∷ [])
    ∷ (11 ∷ [])
    ∷ (12 ∷ [])
    ∷ (13 ∷ [])
    ∷ (32 ∷ [])
    ∷ (0xc2 ∷ 0x85 ∷ [])
    ∷ (0xc2 ∷ 0xa0 ∷ [])
    ∷ (0xe1 ∷ 0x9a ∷ 0x80 ∷ [])
    ∷ (0xe2 ∷ 0x80 ∷ 0x80 ∷ [])
    ∷ (0xe2 ∷ 0x80 ∷ 0x81 ∷ [])
    ∷ (0xe2 ∷ 0x80 ∷ 0x82 ∷ [])
    ∷ (0xe2 ∷ 0x80 ∷ 0x83 ∷ [])
    ∷ (0xe2 ∷ 0x80 ∷ 0x84 ∷ [])
    ∷ (0xe2 ∷ 0x80 ∷ 0x85 ∷ [])
    ∷ (0xe2 ∷ 0x80 ∷ 0x86 ∷ [])
    ∷ (0xe2 ∷ 0x80 ∷ 0x87 ∷ [])
    ∷ (0xe2 ∷ 0x80 ∷ 0x88 ∷ [])
    ∷ (0xe2 ∷ 0x80 ∷ 0x89 ∷ [])
    ∷ (0xe2 ∷ 0x80 ∷ 0x8a ∷ [])
    ∷ (0xe2 ∷ 0x80 ∷ 0xa8 ∷ [])
    ∷ (0xe2 ∷ 0x80 ∷ 0xa9 ∷ [])
    ∷ (0xe2 ∷ 0x80 ∷ 0xaf ∷ [])
    ∷ (0xe2 ∷ 0x81 ∷ 0x9f ∷ [])
    ∷ (0xe3 ∷ 0x80 ∷ 0x80 ∷ [])
    ∷ []

-- The length of the first of the texts that stands at the front, or 0.
width_of : List Bytes → Bytes → ℕ
width_of [] s = 0
width_of (p ∷ ps) s = if has_prefix p s then length p else width_of ps s

-- Cuts the texts off the front; `skip` bytes of one are still to go.
trim_front : List Bytes → ℕ → Bytes → Bytes
trim_front cut skip [] = []
trim_front cut (suc skip) (c ∷ s) = trim_front cut skip s
trim_front cut zero (c ∷ s) =
    let w = width_of cut (c ∷ s) in
    let rest = trim_front cut (w - 1) s in if ltb 0 w then rest else c ∷ s

pub trim_space : Bytes → Bytes
unfolding trim_front width_of has_prefix
trim_space s = reverse (trim_front (map reverse spaces) 0 (reverse (trim_front spaces 0 s)))

unfoldable pub normalize_file_name : ℕ → Bytes → Bytes
unfolding trim_space replace
normalize_file_name separator name =
    let forward = replace (codes "/") (separator ∷ []) (length name) name in
    trim_space (replace (codes "\\") (separator ∷ []) (length forward) forward)

trim_front-All {κ} :
    (P : ℕ → Type κ) (cut : List Bytes) (skip : ℕ) (s : Bytes)
    → All P s
    → All P (trim_front cut skip s)
unfolding trim_front
trim_front-All P cut skip [] h = h
trim_front-All P cut (suc skip) (c ∷ s) h = trim_front-All P cut skip s h.1
trim_front-All P cut zero (c ∷ s) h = elim (Bool-cases (ltb 0 (width_of cut (c ∷ s)))) [
  | inl e ↦ rw e (trim_front-All P cut (width_of cut (c ∷ s) - 1) s h.1)
  | inr e ↦ rw e h
]

trim_space-All {κ} : (P : ℕ → Type κ) (s : Bytes) → All P s → All P (trim_space s)
unfolding trim_space
trim_space-All P s h =
    All-reverse P _
      (trim_front-All P (map reverse spaces) 0 _ (All-reverse P _ (trim_front-All P spaces 0 s h)))

-- The separator, or no slash of either kind.
abbrev pub IsPlain : ℕ → ℕ → Type 0
IsPlain separator c = (c ≡ separator) ⊎ ((c ≢ b'/') × (c ≢ b'\\'))

IsPlain-byte :
    (separator c : ℕ)
    → let forward = if b'/' == c then separator else c in
      IsPlain separator (if b'\\' == forward then separator else forward)
IsPlain-byte separator c = ground arith

replaced-IsPlain :
    (separator : ℕ) (name : Bytes)
    → All (IsPlain separator) (
        map
          (λ c. if b'\\' == c then separator else c)
          (map (λ c. if b'/' == c then separator else c) name))
replaced-IsPlain separator [] = tt
replaced-IsPlain separator (c ∷ name) = (IsPlain-byte separator c, replaced-IsPlain separator name)

replace_byte :
    (b d : ℕ) (s : Bytes)
    → replace (b ∷ []) (d ∷ []) (length s) s ≡ map (λ c. if b == c then d else c) s
replace_byte b d s =
    replace-eq-replace_all (b ∷ []) (d ∷ []) (length s) s (omega arith) ∙ replace_all_byte b d s

both :
    (separator : ℕ) (name : Bytes)
    → let forward = replace (codes "/") (separator ∷ []) (length name) name in
      replace (codes "\\") (separator ∷ []) (length forward) forward
      ≡ map
          (λ c. if b'\\' == c then separator else c)
          (map (λ c. if b'/' == c then separator else c) name)
both separator name =
    replace_byte b'\\' separator (replace (codes "/") (separator ∷ []) (length name) name)
    ∙ ap (map (λ c. if b'\\' == c then separator else c)) (replace_byte b'/' separator name)

-- Whatever the name, every slash or backslash of the normal form is the separator of the system.
pub normalize_file_name-IsPlain :
    (separator : ℕ) (name : Bytes) → All (IsPlain separator) (normalize_file_name separator name)
unfolding normalize_file_name
normalize_file_name-IsPlain separator name =
    let forward = replace (codes "/") (separator ∷ []) (length name) name in
    trim_space-All (IsPlain separator)
      (replace (codes "\\") (separator ∷ []) (length forward) forward)
      (subst (All (IsPlain separator)) (sym (both separator name))
        (replaced-IsPlain separator name))
