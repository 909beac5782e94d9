-- ===== src/Config/Loading/Deadtime.antt =====
-- config.go: the error that `LoadConfig` returns.
use dhound_agent.Base.{
  List, [], ◌∷◌, ◌++◌, ◌≡◌, refl, ◌∙◌, ap, Option, none, some, true, false, arith, ltb, inl, inr,
  Option-cases, length, length-append, All, Bytes, codes, if◌then◌else◌,
}
use dhound_agent.Regexp.{Regexp}
use dhound_agent.Config.{RuleConfig, InputConfig, MainConfig}
use dhound_agent.Config.Loading.{
  Options, System, LoadError, deadtime_failed, Outcome, discover_yaml_configs, normalize_rule,
  finish_rule, load_rule, add_outcome, load_rules, load_rule_files, load_config,
}

module _ (regexp : Regexp) (system : System regexp.Regex) where
  open regexp use {Regex}
  open system use {join, parse_duration, load_main_file, load_rule_file}

  abbrev pub State : Type 0
  State = List (RuleConfig Regex) × Option LoadError

  load_rules-append :
      (options : Options) (input : InputConfig Regex) (front back : List Bytes) (p : State)
      → load_rules regexp system options input (front ++ back) p
        ≡ load_rules regexp system options input back
            (load_rules regexp system options input front p)
  unfolding load_rules
  load_rules-append options input [] back p = refl
  load_rules-append options input (f ∷ front) back p = load_rules-append options input front back _

  load_rules-unread :
      (options : Options) (input : InputConfig Regex) (files : List Bytes) (p : State)
      → All (λ f. load_rule_file f ≡ none) files
      → load_rules regexp system options input files p ≡ p
  unfolding load_rules load_rule add_outcome
  load_rules-unread options input [] p h = refl
  load_rules-unread options input (f ∷ files) p h =
      rw (h.0, load_rule) (load_rules-unread options input files p h.1)

  -- The text that is parsed as the deadtime of a rule.
  abbrev pub dead_time_of : Options → RuleConfig Regex → Bytes
  dead_time_of options rule =
      if ltb 0 (length rule.dead_time) then rule.dead_time else options.default_file_deadtime

  -- The error that a parse leaves.
  abbrev pub parse_error : {A : Type 0} → Option A → Option LoadError
  parse_error none = some deadtime_failed
  parse_error (some a) = none

  add_outcome-handled :
      (o : Option (RuleConfig Regex)) (p : State)
      → (add_outcome regexp system (Outcome.handled o) p).1 ≡ none
  unfolding add_outcome
  add_outcome-handled none p = refl
  add_outcome-handled (some rule) p = refl

  add_outcome-finish_rule :
      (input : InputConfig Regex) (rule : RuleConfig Regex) (p : State)
      → (add_outcome regexp system (finish_rule regexp system input rule) p).1
        ≡ parse_error (parse_duration rule.dead_time)
  unfolding finish_rule add_outcome
  add_outcome-finish_rule input rule p = elim (Option-cases (parse_duration rule.dead_time)) [
    | inl e ↦ rw (e, finish_rule) refl
    | inr (d, e) ↦ rw (e, finish_rule) (add_outcome-handled _ p)
  ]

  add_outcome-load_rule :
      (options : Options) (input : InputConfig Regex) (file : Bytes) (rule : RuleConfig Regex)
      (p : State)
      → load_rule_file file ≡ some rule
      → (add_outcome regexp system (load_rule regexp system options input file) p).1
        ≡ parse_error (parse_duration (dead_time_of options rule))
  unfolding load_rule normalize_rule
  add_outcome-load_rule options input file rule p h =
      rw (h, load_rule)
        (add_outcome-finish_rule input (normalize_rule regexp system options file rule) p)

  load_rules-err :
      (options : Options) (input : InputConfig Regex) (front back : List Bytes) (file : Bytes)
      (rule : RuleConfig Regex) (p : State)
      → load_rule_file file ≡ some rule
      → All (λ f. load_rule_file f ≡ none) back
      → (load_rules regexp system options input (front ++ file ∷ back) p).1
        ≡ parse_error (parse_duration (dead_time_of options rule))
  unfolding load_rules
  load_rules-err options input front back file rule p h unread =
      ap (λ s. s.1)
        (load_rules-append options input front (file ∷ back) p
          ∙ load_rules-unread options input back _ unread)
      ∙ add_outcome-load_rule options input file rule _ h

  load_rule_files-err :
      (options : Options) (config : MainConfig Regex) (front back : List Bytes) (file : Bytes)
      (rule : RuleConfig Regex)
      → load_rule_file file ≡ some rule
      → All (λ f. load_rule_file f ≡ none) back
      → (load_rule_files regexp system options config (front ++ file ∷ back)).1
        ≡ parse_error (parse_duration (dead_time_of options rule))
  unfolding load_rule_files
  load_rule_files-err options config front back file rule h unread =
      rw (some_file, load_rule_files)
        (load_rules-err options config.input front back file rule ([], none) h unread)
    where
      some_file : ltb (length (front ++ file ∷ back)) 1 ≡ false
      some_file = ground (arith, length-append front (file ∷ back))

  -- The main file and the directory are read, and the rule files are these, of which `file` is the
  -- last that can be loaded. Then the loading as a whole fails exactly if the deadtime of that one
  -- file, or the default in place of an empty one, cannot be parsed, whatever the files before it
  -- hold: a bad deadtime in any of those is forgotten, and one in the last, after which the loop goes
  -- on as it does after the others, is returned.
  pub last_deadtime_decides :
      (options : Options) (front back : List Bytes) (file : Bytes) (rule : RuleConfig Regex)
      → (load_main_file (join options.config_dir (codes "config.yml"))).1 ≡ true
      → discover_yaml_configs regexp system (join options.config_dir (codes "rules.d"))
        ≡ some (front ++ file ∷ back)
      → load_rule_file file ≡ some rule
      → All (λ f. load_rule_file f ≡ none) back
      → (load_config regexp system options).1
        ≡ parse_error (parse_duration (dead_time_of options rule))
  unfolding load_config load_rule_files
  last_deadtime_decides options front back file rule main files h unread =
      rw (main, load_config, files)
        (load_rule_files-err options
          (load_main_file (join options.config_dir (codes "config.yml"))).0 front back file rule h
          unread)
