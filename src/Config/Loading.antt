-- ===== src/Config/Loading.antt =====
-- config.go: `DiscoverYamlConfigs` and `LoadConfig`. What stands in the files is the result of
-- `LoadYamlFile`; `path.Join`, `strings.ToLower` and `time.ParseDuration` are parameters too. A
-- duration below 0 counts as 0: deadtimes are only compared with one second.
pub mod Ready
pub mod Deadtime
mod Examples
use dhound_agent.Base.{
  ℕ, List, [], ◌∷◌, ◌++◌, Option, none, some, Bool, not, ◌&&◌, ◌==◌, ltb, if◌then◌else◌, length,
  any, Bytes, codes, Dict, put,
}
unfoldable use dhound_agent.Strings.{has_suffix, trim_suffix}
unfoldable use dhound_agent.Utils.{contains}
use dhound_agent.Regexp.{Regexp}
use dhound_agent.Config.{SecurityEventConfig, RuleConfig, InputConfig, MainConfig}

-- What the loading uses of the options.
pub record Options : Type 0 where
  pub config_dir : Bytes
  pub default_file_deadtime : Bytes
  pub default_exclude_file_filter : Bytes

-- What the system says of the directory of the rule files.
pub data Directory : Type 0 where
  no_stat : Directory
  no_directory : Directory
  no_entries : Directory
  entries : List Bytes → Directory

pub data LoadError : Type 0 where
  main_file_failed rules_dir_failed deadtime_failed : LoadError

pub record System (Regex : Type 0) : Type 0 where
  pub directory : Bytes → Directory
  pub join : Bytes → Bytes → Bytes
  pub to_lower : Bytes → Bytes
  -- `none` is an error.
  pub parse_duration : Bytes → Option ℕ
  -- What the main file leaves in the configuration, and whether it was loaded.
  pub load_main_file : Bytes → MainConfig Regex × Bool
  pub load_rule_file : Bytes → Option (RuleConfig Regex)

-- The part of a path after its last slash.
pub base_name : Bytes → Bytes
base_name [] = []
base_name (c ∷ s) =
    let later = base_name s in
    if any (λ d. d == b'/') s then later else if c == b'/' then s else c ∷ s

-- What handling one rule file comes to: it cannot be loaded, its deadtime cannot be parsed, or it
-- gives a rule or none.
pub data Outcome (Regex : Type 0) : Type 0 where
  unread : Outcome Regex
  bad_deadtime : Outcome Regex
  handled : Option (RuleConfig Regex) → Outcome Regex

module _ (regexp : Regexp) (system : System regexp.Regex) where
  open regexp use {Regex, compile}
  open system use {directory, join, to_lower, parse_duration, load_main_file, load_rule_file}

  pub yaml_files : Bytes → List Bytes → List Bytes
  unfolding has_suffix
  yaml_files dir [] = []
  yaml_files dir (name ∷ rest) =
      if has_suffix (codes ".yml") name
      then join dir name ∷ yaml_files dir rest
      else yaml_files dir rest

  pub discover_yaml_configs : Bytes → Option (List Bytes)
  unfolding yaml_files
  discover_yaml_configs dir = elim (directory dir) [
    | no_stat ↦ none
    | no_directory ↦ some []
    | no_entries ↦ none
    | entries names ↦ some (yaml_files dir names)
  ]

  -- The loop over the exclude expressions; one that does not compile is left out.
  pub compile_exclude : Dict Bytes → Dict (Option Regex) → Dict (Option Regex)
  unfolding put
  compile_exclude [] m = m
  compile_exclude ((key, value) ∷ rest) m =
      compile_exclude rest (elim (compile value) [ none ↦ m | some regex ↦ put key (some regex) m ])

  pub with_exclude : SecurityEventConfig Regex → SecurityEventConfig Regex
  unfolding compile_exclude
  with_exclude event =
      if ltb 0 (length event.exclude)
      then record event { exclude_compiled_regex = compile_exclude event.exclude [] }
      else event

  -- One round of the loop over the events of a rule.
  pub load_event :
      InputConfig Regex → Bytes → SecurityEventConfig Regex → Option (SecurityEventConfig Regex)
  unfolding with_exclude contains
  load_event input rule_file_name event = elim (compile event.regex) [
    | none ↦ none
    | some regex ↦
        if not input.all_rules && not (contains input.rules rule_file_name)
        then none
        else some (with_exclude (record event { compiled_regex = some regex }))
  ]

  pub load_events :
      InputConfig Regex
      → Bytes
      → List (SecurityEventConfig Regex)
      → List (SecurityEventConfig Regex)
  unfolding load_event
  load_events input rule_file_name [] = []
  load_events input rule_file_name (event ∷ rest) = elim (load_event input rule_file_name event) [
    | none ↦ load_events input rule_file_name rest
    | some loaded ↦ loaded ∷ load_events input rule_file_name rest
  ]

  -- The rule with the compiled filter for its files, or none if that does not compile.
  pub with_file_filter : RuleConfig Regex → Option (RuleConfig Regex)
  with_file_filter rule =
      if ltb 0 (length rule.exclude_files_regex)
      then elim (compile rule.exclude_files_regex) [
        | none ↦ none
        | some regex ↦ some (record rule { compiled_exclude_files_regex = some regex })
      ]
      else some rule

  pub with_events : InputConfig Regex → RuleConfig Regex → Option (RuleConfig Regex)
  unfolding load_events
  with_events input rule =
      let events = load_events input rule.rule_file_name rule.events in
      if ltb 0 (length events) then some (record rule { events = events }) else none

  -- The rule with its name and its defaults.
  pub normalize_rule : Options → Bytes → RuleConfig Regex → RuleConfig Regex
  unfolding base_name trim_suffix
  normalize_rule options rule_file rule = record rule {
    rule_file_name = trim_suffix (codes ".yml") (to_lower (base_name rule_file));
    dead_time =
        if ltb 0 (length rule.dead_time) then rule.dead_time else options.default_file_deadtime;
    exclude_files_regex =
        if ltb 0 (length rule.exclude_files_regex)
        then rule.exclude_files_regex
        else options.default_exclude_file_filter;
  }

  -- From the parse of the deadtime on.
  pub finish_rule : InputConfig Regex → RuleConfig Regex → Outcome Regex
  unfolding with_file_filter with_events
  finish_rule input rule = elim (parse_duration rule.dead_time) [
    | none ↦ bad_deadtime
    | some deadtime ↦ handled (elim (with_file_filter (record rule { deadtime = deadtime })) [
      | none ↦ none
      | some filtered ↦ with_events input filtered
    ])
  ]

  pub load_rule : Options → InputConfig Regex → Bytes → Outcome Regex
  unfolding finish_rule normalize_rule
  load_rule options input rule_file = elim (load_rule_file rule_file) [
    | none ↦ unread
    | some rule ↦ finish_rule input (normalize_rule options rule_file rule)
  ]

  -- What one rule file does to the rules and to `err`, the named result of the function.
  pub add_outcome :
      Outcome Regex
      → List (RuleConfig Regex) × Option LoadError
      → List (RuleConfig Regex) × Option LoadError
  add_outcome unread (rules, err) = (rules, err)
  add_outcome bad_deadtime (rules, err) = (rules, some deadtime_failed)
  add_outcome (handled none) (rules, err) = (rules, none)
  add_outcome (handled (some rule)) (rules, err) = (rules ++ rule ∷ [], none)

  -- The loop over the rule files.
  pub load_rules :
      Options
      → InputConfig Regex
      → List Bytes
      → List (RuleConfig Regex) × Option LoadError
      → List (RuleConfig Regex) × Option LoadError
  unfolding load_rule add_outcome
  load_rules options input [] p = p
  load_rules options input (rule_file ∷ rest) p =
      load_rules options input rest (add_outcome (load_rule options input rule_file) p)

  pub load_rule_files :
      Options → MainConfig Regex → List Bytes → MainConfig Regex × Option LoadError
  unfolding load_rules
  load_rule_files options config rule_files =
      if ltb (length rule_files) 1
      then (config, none)
      else let (rules, err) = load_rules options config.input rule_files ([], none) in
        (record config { input = record (config.input) { rule_configs = rules } }, err)

  pub load_config : Options → MainConfig Regex × Option LoadError
  unfolding discover_yaml_configs load_rule_files
  load_config options =
      let (config, loaded) = load_main_file (join options.config_dir (codes "config.yml")) in
      if loaded
      then elim (discover_yaml_configs (join options.config_dir (codes "rules.d"))) [
        | none ↦ (config, some rules_dir_failed)
        | some rule_files ↦ load_rule_files options config rule_files
      ]
      else (config, some main_file_failed)
