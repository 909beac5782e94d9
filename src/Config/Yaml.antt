-- ===== src/Config/Yaml.antt =====
-- config.go: `LoadYamlFile`, and the two calls of it. The file, the variables and the YAML library
-- are parameters.
mod Examples
use dhound_agent.Base.{
  ℕ, zero, suc, ◌+◌, [], ◌∷◌, ◌++◌, ◌≡◌, refl, ◌∙◌, ap, arith, Option, none, some, Bool, true,
  false, Bytes, codes, length,
}

-- The file: it cannot be opened, or its size, which may fail, and what `Read` puts into a buffer.
pub data Opened : Type 0 where
  refused : Bytes → Opened
  opened : Option ℕ → (ℕ → Bytes) → Opened

-- `Unmarshal` also says what it leaves in the struct when it fails.
pub record Yaml (A : Type 0) : Type 0 where
  pub open_file : Bytes → Opened
  pub expand_env : Bytes → Bytes
  pub unmarshal : Bytes → A → A × Option Bytes

-- The struct afterwards and the error, or the panic of a nil file info.
pub data Loaded (A : Type 0) : Type 0 where
  returned : A → Option Bytes → Loaded A
  panicked : Loaded A

-- A buffer of this size with these bytes in front.
pub fill_buffer : ℕ → Bytes → Bytes
fill_buffer zero bytes = []
fill_buffer (suc n) [] = 0 ∷ fill_buffer n []
fill_buffer (suc n) (b ∷ bytes) = b ∷ fill_buffer n bytes

module _ {A : Type 0} (yaml : Yaml A) where
  open yaml use {open_file, expand_env, unmarshal}

  pub parse_buffer : Bytes → A → Loaded A
  parse_buffer buffer out =
      let (after, err) = unmarshal (expand_env buffer) out in
      elim err [
        | none ↦ returned after none
        | some e ↦ returned after (some (codes "Incorrect yaml format: " ++ e))
      ]

  -- The error of `Read` is overwritten.
  pub load_yaml_file : Bytes → A → Loaded A
  unfolding parse_buffer fill_buffer
  load_yaml_file path out = elim (open_file path) [
    | refused e ↦ returned out (some e)
    | opened none read ↦ panicked
    | opened (some size) read ↦ parse_buffer (fill_buffer size (read size)) out
  ]

-- What stands in `System` of the loading, where nothing panics: the main file as it is left, and
-- whether it was loaded; a rule file only if it was.
pub main_file_of : {A : Type 0} → A → Loaded A → A × Bool
main_file_of out (returned after none) = (after, true)
main_file_of out (returned after (some e)) = (after, false)
main_file_of out panicked = (out, false)

pub rule_file_of : {A : Type 0} → Loaded A → Option A
rule_file_of (returned after none) = some after
rule_file_of (returned after (some e)) = none
rule_file_of panicked = none

abbrev pub zeros : ℕ → Bytes
zeros zero = []
zeros (suc n) = 0 ∷ zeros n

fill_none : (n : ℕ) → fill_buffer n [] ≡ zeros n
unfolding fill_buffer
fill_none zero = refl
fill_none (suc n) = ap (◌∷◌ 0) (fill_none n)

add_left : (n : ℕ) → 0 + n ≡ n
add_left n = omega arith

add_suc : (m n : ℕ) → suc m + n ≡ suc (m + n)
add_suc m n = omega arith

fill_buffer-append :
    (bytes : Bytes) (n : ℕ) → fill_buffer (length bytes + n) bytes ≡ bytes ++ zeros n
unfolding fill_buffer
fill_buffer-append [] n = ap (λ k. fill_buffer k []) (add_left n) ∙ fill_none n
fill_buffer-append (b ∷ bytes) n =
    ap (λ k. fill_buffer k (b ∷ bytes)) (add_suc (length bytes) n)
    ∙ ap (◌∷◌ b) (fill_buffer-append bytes n)

-- A `Read` that gives fewer bytes than the file has, for whatever reason, is not noticed: what is
-- parsed is those bytes with a zero for each that is missing, and only the parser can fail.
pub short_read :
    {A : Type 0} (yaml : Yaml A) (path bytes : Bytes) (missing : ℕ) (read : ℕ → Bytes) (out : A)
    → yaml.open_file path ≡ opened (some (length bytes + missing)) read
    → read (length bytes + missing) ≡ bytes
    → load_yaml_file yaml path out ≡ parse_buffer yaml (bytes ++ zeros missing) out
unfolding load_yaml_file
short_read yaml path bytes missing read out o r =
    rw (o, load_yaml_file)
      (ap (λ b. parse_buffer yaml b out)
        (ap (fill_buffer (length bytes + missing)) r ∙ fill_buffer-append bytes missing))
