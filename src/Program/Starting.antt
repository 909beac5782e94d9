-- ===== src/Program/Starting.antt =====
-- program.go: when the agent starts, and what it then observes.
use dhound_agent.Base.{
  ℕ, zero, suc, ℤ, pos, negsuc, List, [], ◌∷◌, ◌++◌, ◌≡◌, refl, ◌≢◌, ◌∙◌, sym, subst, Option, none,
  some, Bool, true, false, not, arith, Bool-cases, inl, inr, ◌⊎◌, ◌↔◌, Option-cases, length, ltb,
  lt→ltb, append_assoc, append-nil, if◌then◌else◌,
}
use dhound_agent.Events.{SourceState}
use dhound_agent.Regexp.{Regexp}
use dhound_agent.Config.{RuleConfig, MainConfig}
use dhound_agent.Config.Loading.{System, load_config}
use dhound_agent.IpEnricher.{IpEnricher}
use dhound_agent.Options.{Options, for_loading, faulted}
use dhound_agent.Options.Timeout.{IsPositive}
use dhound_agent.SystemState.{Codec, restore}
use dhound_agent.HttpGateway.Client.{Client, client_with}
unfoldable use dhound_agent.HttpGateway.Client.{make_client}
use dhound_agent.Program.{
  Agent, Run, exited, panicked, running, Startup, is_event_rule, split_rules, crawler_for, waiting,
  ticker_period, init_enricher, queue_of, parts, set_up, internal_run,
}

-- The elements that pass a test, in order.
abbrev pub keep {ℓ} : {A : Type ℓ} → (A → Bool) → List A → List A
keep p [] = []
keep p (x ∷ xs) = if p x then x ∷ keep p xs else keep p xs

some_length {ℓ} : {A : Type ℓ} (x : A) (xs : List A) → ltb 0 (length (x ∷ xs)) ≡ true
some_length x xs = lt→ltb 0 (length (x ∷ xs)) (omega arith)

length_cases {ℓ} :
    {A : Type ℓ} (xs : List A)
    → ((xs ≡ []) × (ltb 0 (length xs) ≡ false)) ⊎ ((xs ≢ []) × (ltb 0 (length xs) ≡ true))
length_cases [] = inl (refl, refl)
length_cases (x ∷ xs) = inr ((λ e. cc), some_length x xs)

ticker_period_cases :
    (d : ℤ)
    → ((¬ IsPositive d) × (ticker_period d ≡ none))
      ⊎ (IsPositive d × ((n : ℕ) × (ticker_period d ≡ some n)))
unfolding ticker_period
ticker_period_cases (pos zero) = inl ((λ h. absurd (omega arith)), refl)
ticker_period_cases (pos (suc n)) = inr (omega arith, (suc n, refl))
ticker_period_cases (negsuc n) = inl ((λ h. h), refl)

module _ {Regex : Type 0} where
  abbrev pub is_file_rule : RuleConfig Regex → Bool
  is_file_rule rule = not (is_event_rule rule)

  split_rules-keep :
      (rules files events : List (RuleConfig Regex))
      → split_rules rules (files, events)
        ≡ (files ++ keep is_file_rule rules, events ++ keep is_event_rule rules)
  unfolding split_rules
  split_rules-keep [] files events = λ i. (sym (append-nil files) i, sym (append-nil events) i)
  split_rules-keep (rule ∷ rest) files events = elim (Bool-cases (is_event_rule rule)) [
    | inl e ↦ rw e (split_rules-keep rest files (events ++ rule ∷ []) ∙ simp append_assoc)
    | inr e ↦ rw e (split_rules-keep rest (files ++ rule ∷ []) events ∙ simp append_assoc)
  ]

  -- A crawler for some rules, where there are any.
  abbrev pub IsCrawlerFor : List (RuleConfig Regex) → Option (List (RuleConfig Regex)) → Type 0
  IsCrawlerFor rules none = rules ≡ []
  IsCrawlerFor rules (some own) = (own ≡ rules) × (rules ≢ [])

  crawler_for-IsCrawlerFor :
      (rules : List (RuleConfig Regex)) → IsCrawlerFor rules (crawler_for rules)
  unfolding crawler_for
  crawler_for-IsCrawlerFor [] = refl
  crawler_for-IsCrawlerFor (rule ∷ rules) = rw (some_length rule rules) (refl, λ e. cc)

  -- The crawlers of an agent that observes these rules.
  abbrev pub HasCrawlersFor : Bool → List (RuleConfig Regex) → Agent Regex → Type 0
  HasCrawlersFor is_windows rules agent =
      IsCrawlerFor (keep is_file_rule rules) agent.files_crawler
      × (if is_windows
          then IsCrawlerFor (keep is_event_rule rules) agent.win_event_crawler
          else (agent.win_event_crawler ≡ none))

  if_crawlers :
      (is_windows : Bool) (rules : List (RuleConfig Regex))
      → (if is_windows
          then IsCrawlerFor rules (if is_windows then crawler_for rules else none)
          else ((if is_windows then crawler_for rules else none) ≡ none))
  if_crawlers true rules = crawler_for-IsCrawlerFor rules
  if_crawlers false rules = refl

  parts-HasCrawlersFor :
      {C : Type 0} (startup : Startup C) (options : Options) (config : MainConfig Regex)
      (sources : List SourceState) (client : Client) (enricher : IpEnricher)
      → HasCrawlersFor startup.is_windows config.input.rule_configs
          (parts startup options config sources client enricher)
  unfolding parts
  parts-HasCrawlersFor startup options config sources client enricher =
      rw (split_rules-keep config.input.rule_configs [] []) (
        crawler_for-IsCrawlerFor (keep is_file_rule config.input.rule_configs),
        if_crawlers startup.is_windows (keep is_event_rule config.input.rule_configs),
      )

  -- The goroutine of the queue panics exactly if the timeout is not positive.
  parts-queue :
      {C : Type 0} (startup : Startup C) (options : Options) (config : MainConfig Regex)
      (sources : List SourceState) (client : Client) (enricher : IpEnricher)
      → ((parts startup options config sources client enricher).queue ≡ none)
        ↔ (¬ IsPositive options.idle_timeout)
  unfolding parts queue_of
  parts-queue startup options config sources client enricher =
      elim (ticker_period_cases options.idle_timeout) [
        | inl (bad, t) ↦ rw t ((λ h. bad), (λ h. refl))
        | inr (positive, (n, t)) ↦ rw t ((λ h. cc), λ h. absurd (h positive))
      ]

  parts-ip_enricher :
      {C : Type 0} (startup : Startup C) (options : Options) (config : MainConfig Regex)
      (sources : List SourceState) (client : Client) (enricher : IpEnricher)
      → (parts startup options config sources client enricher).ip_enricher ≡ enricher
  unfolding parts
  parts-ip_enricher startup options config sources client enricher = refl

  -- The proxy is empty, or the package net/url takes it.
  abbrev pub HasProxy : {C : Type 0} → Startup C → MainConfig Regex → Type 0
  HasProxy startup config = (config.output.proxy ≡ []) ⊎ (startup.is_url config.output.proxy ≡ true)

  -- `IpEnricher.Init` returns.
  abbrev pub HasEnricher : {C : Type 0} → Startup C → MainConfig Regex → Type 0
  HasEnricher startup config = (init_enricher startup config).1 ≡ true

  -- What a run comes to, for a loaded configuration.
  abbrev pub SetUpCases : {C : Type 0} → Startup C → Options → MainConfig Regex → Run Regex → Type 0
  SetUpCases startup options config run =
      ((¬ HasProxy startup config) × (run ≡ panicked))
      ⊎ ((HasProxy startup config × (¬ HasEnricher startup config) × (run ≡ waiting))
          ⊎ (HasProxy startup config
              × HasEnricher startup config
              × ((agent : Agent Regex) × (run ≡ running agent)
                  × (agent.ip_enricher ≡ (init_enricher startup config).0)
                  × ((agent.queue ≡ none) ↔ (¬ IsPositive options.idle_timeout))
                  × HasCrawlersFor startup.is_windows config.input.rule_configs agent)))

  proxy_cases :
      {C : Type 0} (startup : Startup C) (config : MainConfig Regex)
      → ((¬ HasProxy startup config) × (make_client startup.is_url config.output.proxy ≡ none))
        ⊎ (HasProxy startup config
            × ((client : Client) × (make_client startup.is_url config.output.proxy ≡ some client)))
  unfolding make_client
  proxy_cases startup config = elim (length_cases config.output.proxy) [
    | inl (empty, l) ↦ inr (inl empty, (client_with none, rw (make_client, l) refl))
    | inr (some_proxy, l) ↦ elim (Bool-cases (startup.is_url config.output.proxy)) [
      | inl url ↦
          inr (inr url, (client_with (some config.output.proxy), rw (make_client, l, url) refl))
      | inr other ↦ inl (
        λ h. elim h [ inl e ↦ some_proxy e | inr e ↦ absurd (cc (e, other)) ],
        rw (make_client, l, other) refl,
      )
    ]
  ]

  pub set_up_cases :
      {C : Type 0} (startup : Startup C) (options : Options) (config : MainConfig Regex)
      (sources : List SourceState)
      → SetUpCases startup options config (set_up startup options config sources)
  unfolding set_up
  set_up_cases startup options config sources = elim (proxy_cases startup config) [
    | inl (bad, e) ↦ inl (bad, rw (set_up, e) refl)
    | inr (good, (client, e)) ↦ elim (Bool-cases (init_enricher startup config).1) [
      | inr never ↦ inr (inl (good, (λ h. cc (h, never)), rw (set_up, e, never) refl))
      | inl returns ↦
          let enricher = (init_enricher startup config).0 in
          inr (
            inr (
              good,
              returns,
              (
                parts startup options config sources client enricher,
                rw (set_up, e, returns) refl,
                parts-ip_enricher startup options config sources client enricher,
                parts-queue startup options config sources client enricher,
                parts-HasCrawlersFor startup options config sources client enricher,
              ),
            ))
    ]
  ]

module _ (regexp : Regexp) (system : System regexp.Regex) (codec : Codec) where
  open regexp use {Regex}

  -- `InternalRun` ends the process with status 2 exactly if the loading of the configuration fails
  -- or leaves no rule. Otherwise it panics if there is a proxy that is no URL. Otherwise it does not
  -- return if `IpEnricher.Init` does not, which can be on Windows where DNS traffic is tracked.
  -- Otherwise it sets up an agent, with the enricher that `Init` leaves: the file crawler has, in
  -- order, the rules whose source is not "wineventlog", and on Windows the other crawler has the
  -- rules whose source is; a crawler that would have no rule is not started, and on other systems
  -- the rules for the event log are observed by nothing. The goroutine of the queue panics as it
  -- makes its ticker, which ends the process, exactly if the idle timeout is not positive.
  pub internal_run_cases :
      (startup : Startup codec.Content) (options : Options)
      → let (config, err) = load_config regexp system (for_loading options) in
        let run = internal_run regexp system codec startup options in
        (((err ≢ none) ⊎ (config.input.rule_configs ≡ [])) × (run ≡ exited faulted))
        ⊎ ((err ≡ none) × (config.input.rule_configs ≢ []) × SetUpCases startup options config run)
  unfolding internal_run
  internal_run_cases startup options =
      let (config, err) = load_config regexp system (for_loading options) in
      elim (Option-cases err) [
        | inr (e, k) ↦ inl (inl (λ h. cc (h, k)), rw (k, internal_run) refl)
        | inl k ↦ elim (length_cases config.input.rule_configs) [
          | inl (empty, l) ↦ inl (inr empty, rw (k, internal_run, l) refl)
          | inr (rules, l) ↦ inr (
            k,
            rules,
            subst (SetUpCases startup options config) (sym (rw (k, internal_run, l) refl)) (
                set_up_cases startup options config
                  (restore codec startup.utc_number startup.state_file)),
          )
        ]
      ]
