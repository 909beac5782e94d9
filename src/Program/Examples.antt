-- ===== src/Program/Examples.antt =====
-- The start of an agent with one rule for a file and one for the event log.
use dhound_agent.Base.{
  refl, pos, [], ◌∷◌, ◌≡◌, ◌≢◌, none, true, false, Bytes, codes, ◌⊎◌, List, ◌++◌,
}
use dhound_agent.Events.{SourceState}
use dhound_agent.Samples.{literal}
use dhound_agent.Config.{RuleConfig, MainConfig}
use dhound_agent.Config.Loading.{System, entries, load_config}
use dhound_agent.Options.{Options, Parsed, for_loading, faulted}
use dhound_agent.SystemState.{Codec, missing}
use dhound_agent.Files.Ids.{StatResult, creates_dir}
use dhound_agent.Program.{exited, Startup, internal_run, init, main, Service, emits, LogLevel}
use dhound_agent.Program.Starting.{SetUpCases, internal_run_cases}

abbrev rule_for : Bytes → RuleConfig Bytes
rule_for source = record {
  source = source;
  paths = codes "/var/log/auth.log" ∷ [];
  encoding = [];
  dead_time = codes "1h";
  exclude_files_regex = [];
  events = [];
  event_time_format = [];
  deadtime = 3_600_000_000_000;
  compiled_exclude_files_regex = none;
  rule_file_name = codes "any";
}

abbrev main_config : MainConfig Bytes
main_config = record {
  output = record { access_token = []; server_key = []; environment = []; proxy = [] };
  input = record {
    all_rules = true;
    rules = [];
    network_interface = [];
    track_dns_traffic = false;
    rule_configs = rule_for [] ∷ rule_for (codes "wineventlog") ∷ [];
  };
}

-- The main file has the rules itself, and the directory of the rule files is empty.
abbrev system : System Bytes
system = record {
  directory = λ path. entries [];
  join = λ dir name. dir ++ codes "/" ++ name;
  to_lower = λ s. s;
  parse_duration = λ s. none;
  load_main_file = λ path. (main_config, true);
  load_rule_file = λ path. none;
}

abbrev plain : Codec
plain = record { Content = List SourceState; marshal = λ s. s; unmarshal = λ s. s }

abbrev startup : Startup (List SourceState)
startup = record {
  is_windows = false;
  state_file = missing;
  utc_number = 1_500_000_000;
  clock = 0;
  time_offset_in_seconds = pos 0;
  is_url = λ s. false;
  windows_init = λ enricher. (enricher, true);
}

abbrev options : Options
options = record {
  config_dir = codes "config";
  log_file = [];
  idle_timeout_in_seconds = pos 60;
  idle_timeout = pos 60_000_000_000;
  version = false;
  verbose = false;
  pprof = [];
  net_timeout = 15;
  default_file_deadtime = codes "360h";
  default_exclude_file_filter = [];
}

internal_run_cases_example :
    let loaded = load_config literal system (for_loading options) in
    let run = internal_run literal system plain startup options in
    (((loaded.1 ≢ none) ⊎ (loaded.0.input.rule_configs ≡ [])) × (run ≡ exited faulted))
    ⊎ ((loaded.1 ≡ none)
        × (loaded.0.input.rule_configs ≢ [])
        × SetUpCases startup options loaded.0 run)
internal_run_cases_example = internal_run_cases literal system plain startup options

-- A log file in a directory that is not there.
new_directory :
    (init {S = Bytes}
      (λ path. StatResult.not_exist)
      (λ path. codes "/var/log/dhound")
      (record options { log_file = codes "/var/log/dhound/agent.log" })).1
    ≡ codes "/var/log/dhound" ∷ []
unfolding init creates_dir
new_directory = refl

exit_statuses :
    (main (Parsed.parsed options) Service.finished ≡ 0)
    × (main (Parsed.parsed options) Service.failed ≡ 1)
    × (main (Parsed.parsed (record options { version = true })) Service.failed ≡ 0)
    × (emits options LogLevel.verbose ≡ false)
unfolding main emits
exit_statuses = (refl, refl, refl, refl)
