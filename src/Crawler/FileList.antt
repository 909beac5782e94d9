-- ===== src/Crawler/FileList.antt =====
-- crawler_files.go: `_GetFilesListMap`. The separator of the system and `filepath.Glob` are
-- arguments; a malformed pattern gives no files.
pub mod Assigned
mod Examples
use dhound_agent.Base.{
  ℕ, List, [], ◌∷◌, ◌++◌, none, some, Bool, false, if◌then◌else◌, Bytes, Dict, put, value_of,
}
use dhound_agent.Regexp.{Regexp}
use dhound_agent.Files.{normalize_file_name}
use dhound_agent.Config.{RuleConfig}

module _ (regexp : Regexp) (separator : ℕ) (glob : Bytes → List Bytes) where
  open regexp use {Regex, match_string}

  pub is_excluded : RuleConfig Regex → Bytes → Bool
  is_excluded rule file = elim rule.compiled_exclude_files_regex [
    | none ↦ false
    | some regex ↦ match_string regex file
  ]

  -- One round of the innermost loop. The loop over the rules that the file has already only
  -- continues itself, so it changes nothing.
  pub assign :
      RuleConfig Regex → Bytes → Dict (List (RuleConfig Regex)) → Dict (List (RuleConfig Regex))
  unfolding is_excluded normalize_file_name put
  assign rule name m =
      let file = normalize_file_name separator name in
      if is_excluded rule file then m else put file (value_of [] file m ++ rule ∷ []) m

  pub assign_files :
      RuleConfig Regex
      → List Bytes
      → Dict (List (RuleConfig Regex))
      → Dict (List (RuleConfig Regex))
  unfolding assign
  assign_files rule [] m = m
  assign_files rule (name ∷ rest) m = assign_files rule rest (assign rule name m)

  pub assign_paths :
      RuleConfig Regex
      → List Bytes
      → Dict (List (RuleConfig Regex))
      → Dict (List (RuleConfig Regex))
  unfolding assign_files
  assign_paths rule [] m = m
  assign_paths rule (path ∷ rest) m = assign_paths rule rest (assign_files rule (glob path) m)

  pub assign_rules :
      List (RuleConfig Regex) → Dict (List (RuleConfig Regex)) → Dict (List (RuleConfig Regex))
  unfolding assign_paths
  assign_rules [] m = m
  assign_rules (rule ∷ rest) m = assign_rules rest (assign_paths rule rule.paths m)

  unfoldable pub get_files_list_map : List (RuleConfig Regex) → Dict (List (RuleConfig Regex))
  unfolding assign_rules
  get_files_list_map rules = assign_rules rules []
