-- ===== src/Crawler/FileList/Assigned.antt =====
-- crawler_files.go: which rules a file gets, and how often.
use dhound_agent.Base.{
  ℕ, List, [], ◌∷◌, ◌++◌, ◌≡◌, sym, ap, ◌∙◌, false, not, ◌&&◌, if◌then◌else◌, Bytes, Dict, get_key,
  get_key-put, value_of, str_eq, str_eq_iff, str_eq_refl, arith, append-nil, append_assoc,
}
use dhound_agent.Regexp.{Regexp}
use dhound_agent.Files.{normalize_file_name}
use dhound_agent.Config.{RuleConfig}
use dhound_agent.Crawler.FileList.{
  is_excluded, assign, assign_files, assign_paths, assign_rules, get_files_list_map,
}

module _ (regexp : Regexp) (separator : ℕ) (glob : Bytes → List Bytes) where
  open regexp use {Regex}

  -- The rule once for each of these names whose normal form is the file, unless it excludes it.
  abbrev pub rule_for_names : Bytes → RuleConfig Regex → List Bytes → List (RuleConfig Regex)
  rule_for_names file rule [] = []
  rule_for_names file rule (name ∷ rest) =
      (if str_eq (normalize_file_name separator name) file
          && not (is_excluded regexp separator glob rule (normalize_file_name separator name))
        then rule ∷ []
        else [])
      ++ rule_for_names file rule rest

  abbrev pub rule_for_paths : Bytes → RuleConfig Regex → List Bytes → List (RuleConfig Regex)
  rule_for_paths file rule [] = []
  rule_for_paths file rule (path ∷ rest) =
      rule_for_names file rule (glob path) ++ rule_for_paths file rule rest

  abbrev pub rules_for : Bytes → List (RuleConfig Regex) → List (RuleConfig Regex)
  rules_for file [] = []
  rules_for file (rule ∷ rest) = rule_for_paths file rule rule.paths ++ rules_for file rest

  assign_lem :
      (file name : Bytes) (rule : RuleConfig Regex) (m : Dict (List (RuleConfig Regex)))
      → value_of [] file (assign regexp separator glob rule name m)
        ≡ value_of [] file m
          ++ (if str_eq (normalize_file_name separator name) file
                && not (is_excluded regexp separator glob rule (normalize_file_name separator name))
              then rule ∷ []
              else [])
  unfolding assign
  assign_lem file name rule m =
      let normal = normalize_file_name separator name in
      ground (
        arith,
        get_key-put normal file (value_of [] normal m ++ rule ∷ []) m,
        str_eq_iff normal file,
        append-nil (value_of [] file m),
      )

  assign_files_lem :
      (file : Bytes) (rule : RuleConfig Regex) (names : List Bytes)
      (m : Dict (List (RuleConfig Regex)))
      → value_of [] file (assign_files regexp separator glob rule names m)
        ≡ value_of [] file m ++ rule_for_names file rule names
  unfolding assign_files
  assign_files_lem file rule [] m = sym (append-nil (value_of [] file m))
  assign_files_lem file rule (name ∷ rest) m =
      assign_files_lem file rule rest (assign regexp separator glob rule name m)
      ∙ ap (λ l. l ++ rule_for_names file rule rest) (assign_lem file name rule m)
      ∙ append_assoc (value_of [] file m) _ (rule_for_names file rule rest)

  assign_paths_lem :
      (file : Bytes) (rule : RuleConfig Regex) (paths : List Bytes)
      (m : Dict (List (RuleConfig Regex)))
      → value_of [] file (assign_paths regexp separator glob rule paths m)
        ≡ value_of [] file m ++ rule_for_paths file rule paths
  unfolding assign_paths
  assign_paths_lem file rule [] m = sym (append-nil (value_of [] file m))
  assign_paths_lem file rule (path ∷ rest) m =
      assign_paths_lem file rule rest (assign_files regexp separator glob rule (glob path) m)
      ∙ ap (λ l. l ++ rule_for_paths file rule rest) (assign_files_lem file rule (glob path) m)
      ∙ append_assoc (value_of [] file m) (rule_for_names file rule (glob path))
          (rule_for_paths file rule rest)

  assign_rules_lem :
      (file : Bytes) (rules : List (RuleConfig Regex)) (m : Dict (List (RuleConfig Regex)))
      → value_of [] file (assign_rules regexp separator glob rules m)
        ≡ value_of [] file m ++ rules_for file rules
  unfolding assign_rules
  assign_rules_lem file [] m = sym (append-nil (value_of [] file m))
  assign_rules_lem file (rule ∷ rest) m =
      assign_rules_lem file rest (assign_paths regexp separator glob rule rule.paths m)
      ∙ ap (λ l. l ++ rules_for file rest) (assign_paths_lem file rule rule.paths m)
      ∙ append_assoc (value_of [] file m) (rule_for_paths file rule rule.paths)
          (rules_for file rest)

  -- The rules of a file are, in the order of the rules, of their paths and of the matches of each
  -- path, every rule once for each match whose normal form is the file, unless it excludes the file.
  pub get_files_list_map_lem :
      (file : Bytes) (rules : List (RuleConfig Regex))
      → value_of [] file (get_files_list_map regexp separator glob rules) ≡ rules_for file rules
  unfolding get_files_list_map get_key
  get_files_list_map_lem file rules = assign_rules_lem file rules []

  -- The check that a rule is already assigned to a file has no effect: a rule with two paths, each
  -- of which matches one name, and both names with one normal form that the rule does not exclude,
  -- has that file twice.
  pub assigned_twice :
      (file first second x y : Bytes) (rule : RuleConfig Regex)
      → rule.paths ≡ first ∷ second ∷ []
      → glob first ≡ x ∷ []
      → glob second ≡ y ∷ []
      → normalize_file_name separator x ≡ file
      → normalize_file_name separator y ≡ file
      → is_excluded regexp separator glob rule file ≡ false
      → value_of [] file (get_files_list_map regexp separator glob (rule ∷ [])) ≡ rule ∷ rule ∷ []
  assigned_twice file first second x y rule p g h nx ny e =
      get_files_list_map_lem file (rule ∷ [])
      ∙ ap (λ paths. rule_for_paths file rule paths ++ []) p
      ∙ rw (g, h, nx, ny, e, str_eq_refl file)
