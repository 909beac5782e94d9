-- ===== src/Program.antt =====
-- program.go and main.go. What the operating system and the libraries say is a parameter; logging
-- and the profiler are left out. The goroutines that `InternalRun` starts are those of Pipeline.
pub mod Starting
mod Waiting
pub mod Lifecycle
pub mod Logging
mod Examples
use dhound_agent.Base.{
  ℕ, zero, suc, ℤ, pos, negsuc, List, [], ◌∷◌, ◌++◌, Option, none, some, Bool, true, ◌&&◌, ltb,
  if◌then◌else◌, length, Bytes, codes, str_eq,
}
use dhound_agent.Events.{SourceState}
use dhound_agent.Files.Ids.{StatResult}
unfoldable use dhound_agent.Files.Ids.{creates_dir}
use dhound_agent.Regexp.{Regexp}
use dhound_agent.Config.{RuleConfig, MainConfig}
use dhound_agent.Config.Loading
use dhound_agent.Options.{Options, Parsed, for_loading, faulted}
use dhound_agent.IpEnricher.{IpEnricher}
use dhound_agent.Queue
use dhound_agent.Queue.{Queue}
use dhound_agent.HttpGateway
use dhound_agent.HttpGateway.{HttpGateway}
use dhound_agent.HttpGateway.Client.{Client, make_client}
use dhound_agent.SystemState
use dhound_agent.SystemState.{Codec, StateFile}

-- What `InternalRun` has set up when it returns: the crawlers with their rules, and the parts that
-- they send to. `queue` is none where its goroutine panics as it makes its ticker, which ends the
-- process, whatever the others are at.
pub record Agent (Regex : Type 0) : Type 0 where
  pub sources : List SourceState
  pub gate : HttpGateway
  pub client : Client
  pub queue : Option Queue
  pub ip_enricher : IpEnricher
  pub files_crawler : Option (List (RuleConfig Regex))
  pub win_event_crawler : Option (List (RuleConfig Regex))

pub data Run (Regex : Type 0) : Type 0 where
  exited : ℕ → Run Regex
  panicked : Run Regex
  -- `IpEnricher.Init` does not return.
  waiting : Run Regex
  running : Agent Regex → Run Regex

-- What is read while the agent starts.
pub record Startup (C : Type 0) : Type 0 where
  pub is_windows : Bool
  pub state_file : StateFile C
  pub utc_number : ℕ
  pub clock : ℕ
  pub time_offset_in_seconds : ℤ
  pub is_url : Bytes → Bool
  -- `IpEnricher.Init` on Windows, which is `init` of IpEnricher.DisplayDns.Loop over the runs of
  -- ipconfig: the enricher that it leaves, and whether it returns.
  pub windows_init : IpEnricher → IpEnricher × Bool

-- `time.NewTicker` panics on a duration that is not positive.
pub ticker_period : ℤ → Option ℕ
ticker_period (pos zero) = none
ticker_period (pos (suc n)) = some (suc n)
ticker_period (negsuc n) = none

-- The queue, where its ticker can be made.
queue_of : Option ℕ → ℕ → Option Queue
queue_of none clock = none
queue_of (some period) clock = some (Queue.init period clock)

module _ {Regex : Type 0} where
  pub is_event_rule : RuleConfig Regex → Bool
  unfolding str_eq
  is_event_rule rule = str_eq rule.source (codes "wineventlog")

  -- The loop that tells the rules for files from those for the event log.
  pub split_rules :
      List (RuleConfig Regex)
      → List (RuleConfig Regex) × List (RuleConfig Regex)
      → List (RuleConfig Regex) × List (RuleConfig Regex)
  unfolding is_event_rule
  split_rules [] p = p
  split_rules (rule ∷ rest) (file_rules, win_event_rules) = split_rules rest (
      if is_event_rule rule
      then (file_rules, win_event_rules ++ rule ∷ [])
      else (file_rules ++ rule ∷ [], win_event_rules))

  -- A crawler is made only for some rules.
  pub crawler_for : List (RuleConfig Regex) → Option (List (RuleConfig Regex))
  crawler_for rules = if ltb 0 (length rules) then some rules else none

  -- `IpEnricher.Init`, which leaves all as it is on other systems, and without tracking.
  pub init_enricher : {C : Type 0} → Startup C → MainConfig Regex → IpEnricher × Bool
  init_enricher startup config =
      let fresh : IpEnricher = record {
        track_dns_traffic = config.input.track_dns_traffic;
        ip_to_services_map = none;
      } in
      if startup.is_windows && config.input.track_dns_traffic
      then startup.windows_init fresh
      else (fresh, true)

  -- The parts, with the client of the gateway and the enricher.
  pub parts :
      {C : Type 0}
      → Startup C
      → Options
      → MainConfig Regex
      → List SourceState
      → Client
      → IpEnricher
      → Agent Regex
  unfolding split_rules crawler_for ticker_period queue_of
  parts startup options config sources client enricher =
      let (file_rules, win_event_rules) = split_rules config.input.rule_configs ([], []) in
      record {
        sources = sources;
        gate = HttpGateway.init config.output startup.time_offset_in_seconds;
        client = client;
        queue = queue_of (ticker_period options.idle_timeout) startup.clock;
        ip_enricher = enricher;
        files_crawler = crawler_for file_rules;
        win_event_crawler = if startup.is_windows then crawler_for win_event_rules else none;
      }

  -- From the restored state of the sources on.
  pub set_up : {C : Type 0} → Startup C → Options → MainConfig Regex → List SourceState → Run Regex
  unfolding parts make_client init_enricher
  set_up startup options config sources = elim (make_client startup.is_url config.output.proxy) [
    | none ↦ panicked
    | some client ↦
        let (enricher, returns) = init_enricher startup config in
        if returns then running (parts startup options config sources client enricher) else waiting
  ]

module _ (regexp : Regexp) (system : Loading.System regexp.Regex) (codec : Codec) where
  open regexp use {Regex}

  -- `InternalRun`, as far as its goroutines do not end the process before it returns.
  pub internal_run : Startup codec.Content → Options → Run Regex
  unfolding set_up
  internal_run startup options =
      let (config, err) = Loading.load_config regexp system (for_loading options) in
      elim err [
        | some e ↦ exited faulted
        | none ↦
            if ltb 0 (length config.input.rule_configs)
            then set_up startup options config
                (SystemState.restore codec startup.utc_number startup.state_file)
            else exited faulted
      ]

-- The file of the log, with the limits that lumberjack is given: megabytes, files and days.
pub record LogFile : Type 0 where
  pub filename : Bytes
  pub max_size : ℕ
  pub max_backups : ℕ
  pub max_age : ℕ

-- `Init`: where the log goes, none being the standard output, and the directory that is made for it.
pub init :
    {S : Type 0} → (Bytes → StatResult S) → (Bytes → Bytes) → Options → Option LogFile × List Bytes
unfolding creates_dir
init stat dir options =
    if ltb 0 (length options.log_file)
    then (
      some (record { filename = options.log_file; max_size = 50; max_backups = 3; max_age = 28 }),
      if creates_dir (stat (dir options.log_file)) then dir options.log_file ∷ [] else [],
    )
    else (none, [])

-- How the process ends, by the options and by what `svc.Run` comes to.
pub data Service : Type 0 where
  finished : Service
  failed : Service
  panics : Service

abbrev fatal : ℕ
fatal = 1

pub main : Parsed → Service → ℕ
main (Parsed.exited status) service = status
main (Parsed.parsed options) finished = 0
main (Parsed.parsed options) failed = if options.version then 0 else fatal
main (Parsed.parsed options) panics = if options.version then 0 else faulted

pub data LogLevel : Type 0 where
  verbose important critical : LogLevel

-- Whether `emit` prints.
pub emits : Options → LogLevel → Bool
emits options verbose = options.verbose
emits options important = true
emits options critical = true
