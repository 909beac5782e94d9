-- ===== src/Config/Loading/Ready.antt =====
-- config.go: the rules that `LoadConfig` leaves in the configuration.
use dhound_agent.Base.{
  ◌<◌, List, [], ◌∷◌, ◌≡◌, refl, ◌∙◌, ap, sym, ◌⊎◌, inl, inr, Option, none, some, true, not, ◌&&◌,
  arith, ltb, ltb→lt, length, All, All-append, Bytes, codes, Bool-cases, Option-cases,
}
use dhound_agent.Regexp.{Regexp}
use dhound_agent.Utils.{contains}
use dhound_agent.Config.{SecurityEventConfig, RuleConfig, InputConfig, MainConfig}
use dhound_agent.Config.Loading.{
  Options, System, LoadError, bad_deadtime, handled, with_exclude, load_event, load_events,
  with_file_filter, with_events, finish_rule, normalize_rule, load_rule, add_outcome, load_rules,
  load_rule_files, load_config, discover_yaml_configs,
}

module _ (regexp : Regexp) (system : System regexp.Regex) where
  open regexp use {Regex, compile}
  open system use {join, parse_duration, load_main_file, load_rule_file}

  -- The event has the compiled form of its expression.
  abbrev pub IsCompiled : SecurityEventConfig Regex → Type 0
  IsCompiled event =
      (regex : Regex) × (compile event.regex ≡ some regex) × (event.compiled_regex ≡ some regex)

  -- Either all rules are wanted, or the configuration names the rule.
  abbrev pub IsWanted : InputConfig Regex → Bytes → Type 0
  IsWanted input name = (input.all_rules ≡ true) ⊎ (contains input.rules name ≡ true)

  with_exclude-IsCompiled :
      (event : SecurityEventConfig Regex)
      → IsCompiled event
      → IsCompiled (with_exclude regexp system event)
  unfolding with_exclude
  with_exclude-IsCompiled event h = elim (Bool-cases (ltb 0 (length event.exclude))) [
    | inl e ↦ rw e h
    | inr e ↦ rw e h
  ]

  load_event_cases :
      (input : InputConfig Regex) (name : Bytes) (event : SecurityEventConfig Regex)
      → (load_event regexp system input name event ≡ none)
        ⊎ ((loaded : SecurityEventConfig Regex) × (load_event regexp system input name event
              ≡ some loaded)
            × IsCompiled loaded
            × IsWanted input name)
  unfolding load_event
  load_event_cases input name event = elim (Option-cases (compile event.regex)) [
    | inl e ↦ inl (rw (e, load_event) refl)
    | inr (regex, e) ↦ elim (Bool-cases (not input.all_rules && not (contains input.rules name))) [
      | inl unwanted ↦ inl (rw (e, load_event, unwanted) refl)
      | inr wanted ↦ inr (
        with_exclude regexp system (record event { compiled_regex = some regex }),
        rw (e, load_event, wanted) refl,
        with_exclude-IsCompiled (record event { compiled_regex = some regex }) (regex, e, refl),
        ground arith,
      )
    ]
  ]

  -- Every loaded event is compiled, and if there is one, the rule is wanted.
  load_events-IsCompiled :
      (input : InputConfig Regex) (name : Bytes) (events : List (SecurityEventConfig Regex))
      → let loaded = load_events regexp system input name events in
        All IsCompiled loaded × (0 < length loaded → IsWanted input name)
  unfolding load_events
  load_events-IsCompiled input name [] = (tt, λ h. absurd (omega arith))
  load_events-IsCompiled input name (event ∷ rest) = elim (load_event_cases input name event) [
    | inl e ↦ rw (e, load_events) (load_events-IsCompiled input name rest)
    | inr (loaded, e, compiled, wanted) ↦
        rw (e, load_events) ((compiled, (load_events-IsCompiled input name rest).0), λ h. wanted)
  ]

  -- A rule as the crawlers rely on it.
  pub record IsReady (input : InputConfig Regex) (rule : RuleConfig Regex) : Type 0 where
    pub wanted : IsWanted input rule.rule_file_name
    pub has_events : 0 < length rule.events
    pub compiled : All IsCompiled rule.events
    pub timed : parse_duration rule.dead_time ≡ some rule.deadtime

  with_events-IsReady :
      (input : InputConfig Regex) (rule : RuleConfig Regex)
      → parse_duration rule.dead_time ≡ some rule.deadtime
      → (with_events regexp system input rule ≡ none)
        ⊎ ((ready : RuleConfig Regex) × (with_events regexp system input rule ≡ some ready)
            × IsReady input ready)
  unfolding with_events
  with_events-IsReady input rule h =
      let events = load_events regexp system input rule.rule_file_name rule.events in
      let (compiled, wanted) = load_events-IsCompiled input rule.rule_file_name rule.events in
      elim (Bool-cases (ltb 0 (length events))) [
        | inl e ↦ inr (
          record rule { events = events },
          rw e refl,
          record {
            wanted = wanted (ltb→lt 0 (length events) e);
            has_events = ltb→lt 0 (length events) e;
            compiled = compiled;
            timed = h;
          },
        )
        | inr e ↦ inl (rw e refl)
      ]

  filter_cases :
      (rule : RuleConfig Regex)
      → (with_file_filter regexp system rule ≡ none)
        ⊎ ((filtered : RuleConfig Regex) × (with_file_filter regexp system rule ≡ some filtered)
            × (filtered.dead_time ≡ rule.dead_time)
            × (filtered.deadtime ≡ rule.deadtime))
  unfolding with_file_filter
  filter_cases rule = elim (Bool-cases (ltb 0 (length rule.exclude_files_regex))) [
    | inl b ↦ elim (Option-cases (compile rule.exclude_files_regex)) [
      | inl e ↦ inl (rw (b, e, with_file_filter) refl)
      | inr (regex, e) ↦ inr (
        record rule { compiled_exclude_files_regex = some regex },
        rw (b, e, with_file_filter) refl,
        refl,
        refl,
      )
    ]
    | inr b ↦ inr (rule, rw b refl, refl, refl)
  ]

  finish_rule-IsReady :
      (input : InputConfig Regex) (rule : RuleConfig Regex)
      → (finish_rule regexp system input rule ≡ bad_deadtime)
        ⊎ (finish_rule regexp system input rule ≡ handled none)
        ⊎ ((ready : RuleConfig Regex) × (finish_rule regexp system input rule
              ≡ handled (some ready))
            × IsReady input ready)
  unfolding finish_rule
  finish_rule-IsReady input rule = elim (Option-cases (parse_duration rule.dead_time)) [
    | inl e ↦ inl (rw (e, finish_rule) refl)
    | inr (deadtime, e) ↦ elim (filter_cases (record rule { deadtime = deadtime })) [
      | inl f ↦ inr (inl (rw (e, finish_rule, f) refl))
      | inr (filtered, f, same, same_time) ↦
          elim (with_events-IsReady input filtered
            (ap parse_duration same ∙ e ∙ ap some (sym same_time))) [
              | inl g ↦ inr (inl (rw (e, finish_rule, f, g) refl))
              | inr (ready, g, k) ↦ inr (inr (ready, rw (e, finish_rule, f, g) refl, k))
            ]
    ]
  ]

  add_outcome-IsReady :
      (options : Options) (input : InputConfig Regex) (file : Bytes)
      (rules : List (RuleConfig Regex)) (err : Option LoadError)
      → All (IsReady input) rules
      → All
          (IsReady input)
          (add_outcome regexp system (load_rule regexp system options input file) (rules, err)).0
  unfolding add_outcome load_rule
  add_outcome-IsReady options input file rules err h = elim (Option-cases (load_rule_file file)) [
    | inl e ↦ rw (e, load_rule) h
    | inr (rule, e) ↦
        elim (finish_rule-IsReady input (normalize_rule regexp system options file rule)) [
          | inl f ↦ rw (e, load_rule, f) h
          | inr (inl f) ↦ rw (e, load_rule, f) h
          | inr (inr (ready, f, k)) ↦
              rw (e, load_rule, f) (All-append (IsReady input) rules (ready ∷ []) h (k, tt))
        ]
  ]

  load_rules-IsReady :
      (options : Options) (input : InputConfig Regex) (files : List Bytes)
      (p : List (RuleConfig Regex) × Option LoadError)
      → All (IsReady input) p.0
      → All (IsReady input) (load_rules regexp system options input files p).0
  unfolding load_rules
  load_rules-IsReady options input [] p h = h
  load_rules-IsReady options input (file ∷ files) p h =
      load_rules-IsReady options input files _ (add_outcome-IsReady options input file p.0 p.1 h)

  load_rule_files-IsReady :
      (options : Options) (config : MainConfig Regex) (files : List Bytes)
      → config.input.rule_configs ≡ []
      → All
          (IsReady config.input)
          (load_rule_files regexp system options config files).0.input.rule_configs
  unfolding load_rule_files
  load_rule_files-IsReady options config files h = elim (Bool-cases (ltb (length files) 1)) [
    | inl e ↦ rw (e, load_rule_files, h) tt
    | inr e ↦ rw (e, load_rule_files) (load_rules-IsReady options config.input files ([], none) tt)
  ]

  -- If the main file itself lists no loaded rules, then every rule that `LoadConfig` leaves in the
  -- configuration, whatever it returns as the error, is wanted by the main file, has an event, has
  -- for each of its events the compiled form of the event's expression, which the file crawler calls
  -- without a test, and has the parsed form of its deadtime.
  pub load_config-IsReady :
      (options : Options)
      → (load_main_file (join options.config_dir (codes "config.yml"))).0.input.rule_configs ≡ []
      → let main = (load_main_file (join options.config_dir (codes "config.yml"))).0 in
        All (IsReady main.input) (load_config regexp system options).0.input.rule_configs
  unfolding load_config
  load_config-IsReady options h =
      elim (Bool-cases (load_main_file (join options.config_dir (codes "config.yml"))).1) [
        | inr e ↦ rw (e, load_config, h) tt
        | inl e ↦
            elim (Option-cases
              (discover_yaml_configs regexp system (join options.config_dir (codes "rules.d")))) [
                | inl d ↦ rw (e, load_config, d, h) tt
                | inr (files, d) ↦
                    rw (e, load_config, d)
                      (load_rule_files-IsReady options
                        (load_main_file (join options.config_dir (codes "config.yml"))).0 files h)
              ]
      ]
