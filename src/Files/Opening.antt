-- ===== src/Files/Opening.antt =====
-- file_windows.go and file_other.go: `ReadOpen`, by the system calls that it makes. The calls and the
-- conversion of a path to UTF-16, which refuses a byte 0, are parameters.
use dhound_agent.Base.{
  ℕ, ◌^◌, ◌+◌, List, [], ◌∷◌, ◌==◌, Option, none, some, if◌then◌else◌, length, Bytes, ◌≡◌, ◌<◌, ◌↔◌,
  arith, Option-cases, inl, inr, ◌∙◌,
}

-- The arguments of `syscall.CreateFile` that are not 0.
pub record CreateFile : Type 0 where
  pub path : List ℕ
  pub access : ℕ
  pub share_mode : ℕ
  pub create_mode : ℕ
  pub attributes : ℕ

abbrev pub generic_read : ℕ
generic_read = 2 ^ 31

abbrev pub file_share_read : ℕ
file_share_read = 1

abbrev pub file_share_write : ℕ
file_share_write = 2

abbrev pub file_share_delete : ℕ
file_share_delete = 4

abbrev pub open_existing : ℕ
open_existing = 3

abbrev pub file_attribute_normal : ℕ
file_attribute_normal = 0x80

pub data Opening : Type 0 where
  not_found : Opening
  not_utf16 : Opening
  not_created : Opening
  opened : ℕ → Opening

-- The bits of the share mode are set one by one.
pub create_file_of : List ℕ → CreateFile
create_file_of path = record {
  path = path;
  access = generic_read;
  share_mode = file_share_read + file_share_write + file_share_delete;
  create_mode = open_existing;
  attributes = file_attribute_normal;
}

module _ (utf16_ptr_from_string : Bytes → Option (List ℕ))
    (create_file : CreateFile → Option ℕ) where
  pub read_open : Bytes → Opening
  unfolding create_file_of
  read_open path = if length path == 0 then not_found else elim (utf16_ptr_from_string path) [
    | none ↦ not_utf16
    | some pathp ↦ elim (create_file (create_file_of pathp)) [
      | none ↦ not_created
      | some handle ↦ opened handle
    ]
  ]

  -- A file is opened exactly if its path is not empty and has a form in UTF-16 for which the system
  -- gives this handle: for reading only, without making a file, and so that others may read, write,
  -- rename and delete it meanwhile.
  read_open-opened :
      (path : Bytes) (handle : ℕ)
      → (read_open path ≡ opened handle)
        ↔ (0 < length path)
          × (pathp : List ℕ) × (utf16_ptr_from_string path ≡ some pathp)
          × (create_file (record {
            path = pathp;
            access = 2 ^ 31;
            share_mode = 1 + 2 + 4;
            create_mode = 3;
            attributes = 128;
          })
              ≡ some handle)
  unfolding read_open create_file_of
  read_open-opened [] handle = (λ h. cc, λ k. absurd (omega (arith, k.0)))
  read_open-opened (c ∷ path) handle = elim (Option-cases (utf16_ptr_from_string (c ∷ path))) [
    | inl e ↦ (λ h. absurd (ground (arith, e)), λ (_, p, u, v). cc (e, u))
    | inr (p, e) ↦ elim (Option-cases (create_file (create_file_of p))) [
      | inl f ↦ (λ h. absurd (ground (arith, e, f)), λ (_, q, u, v). ground (arith, e, f, u, v))
      | inr (given, f) ↦ (
        λ h. (omega arith, p, e, f ∙ ground (arith, e, f)),
        λ (_, q, u, v). ground (arith, e, f, u, v),
      )
    ]
  ]
