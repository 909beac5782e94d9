-- ===== src/Crawler/Together/Examples.antt =====
-- Both crawlers on the list that they share: a file, an event log, and the file again.
use dhound_agent.Base.{
  ℕ, [], ◌∷◌, ◌++◌, ◌≡◌, refl, List, Option, none, some, true, false, arith, Bytes, codes, str_eq,
  get_key, put, format_decimal,
}
use dhound_agent.Strings.{has_prefix, replace}
use dhound_agent.Files.{normalize_file_name}
use dhound_agent.Regexp.{Regexp}
use dhound_agent.Config.{SecurityEventConfig, RuleConfig}
use dhound_agent.Utils.{contains}
use dhound_agent.SystemState.{find}
use dhound_agent.SystemState.Expiry.{IsUnique}
use dhound_agent.SystemState.Grown.{ids}
use dhound_agent.Crawler.FileList.{get_files_list_map}
use dhound_agent.Crawler.RunOnce.{FileView}
unfoldable use dhound_agent.Crawler.RunOnce.{run_once}
use dhound_agent.Crawler.EventLog.{LogView}
use dhound_agent.Crawler.EventLog
use dhound_agent.Crawler.EventLog.Running.{init}
use dhound_agent.Crawler.Running.{Round, run_round}
use dhound_agent.Crawler.Together.{Turn, files, event_logs, Crawlers, take_turn, take_turns}
use dhound_agent.Crawler.Together.Grown.{take_turns_keep_places}

-- Every expression compiles and captures one text under one name.
abbrev capturing : Regexp
capturing = record {
  Regex = Bytes × Bytes;
  compile = λ s. some (codes "eventid", codes "4625");
  match_string = λ r s. true;
  find_string_submatch = λ r s. some (r.1 ∷ []);
  find_all_string_submatch = λ r s. (r.1 ∷ []) ∷ [];
  find_all_string_index = λ r s. [];
  subexp_names = λ r. r.0 ∷ [];
  submatch_width = λ r s. omega arith;
  index_ordered = λ r s. omega arith;
}

abbrev login : SecurityEventConfig (Bytes × Bytes)
login = record {
  sid = 5;
  gid = 2;
  win_event_ids = 4625 ∷ [];
  message = codes "login from #ip";
  regex = [];
  fields = [];
  exclude = [];
  exclude_compiled_regex = [];
  compiled_regex = some (codes "ip", codes "10.0.0.1");
  critical = true;
}

abbrev rule_for : Bytes → Bytes → RuleConfig (Bytes × Bytes)
rule_for name path = record {
  source = [];
  paths = path ∷ [];
  encoding = [];
  dead_time = [];
  exclude_files_regex = [];
  events = login ∷ [];
  event_time_format = [];
  deadtime = 3_600_000_000_000;
  compiled_exclude_files_regex = none;
  rule_file_name = name;
}

abbrev crawlers : Crawlers (Bytes × Bytes)
crawlers = record {
  file_rules = rule_for (codes "any") (codes "/var/log/*") ∷ [];
  win_event_rules = rule_for (codes "win") (codes "Security") ∷ [];
}

abbrev file_view : FileView
file_view = record {
  file_id = codes "1:2";
  stat = some (record { is_dir = false; age = 5; size = 10 });
  opens = false;
  is_encoding = λ name. false;
  reader = λ name position. none;
  age_at_end = 5;
}

abbrev round : Round
round = record {
  glob = λ path. codes "/var/log/a" ∷ [];
  views = λ path. file_view;
  time = record { year = 2020; parse_in_location = λ layout value. none };
}

abbrev log_view : LogView
log_view = record {
  now = 501_000_000_000;
  query_time = 500;
  read_event_logs = λ query. some (codes "<Event/>" ∷ []);
}

abbrev turns : List Turn
turns = files round ∷ event_logs (λ id. log_view) ∷ files round ∷ []

abbrev parse_time : Bytes → Option ℕ
parse_time s = some 77

take_turns_keep_places_example :
    IsUnique (take_turns capturing b'/' parse_time 64 crawlers turns []).0
    × (more : List Bytes) × (ids (take_turns capturing b'/' parse_time 64 crawlers turns []).0
        ≡ [] ++ more)
take_turns_keep_places_example =
    take_turns_keep_places capturing b'/' parse_time 64 crawlers turns [] tt

two_sources :
    ids (take_turns capturing b'/' parse_time 64 crawlers turns []).0
    ≡ codes "1:2" ∷ codes "win_Security" ∷ []
unfolding take_turns take_turn run_round run_once EventLog.run_once init find get_files_list_map
    str_eq get_key put normalize_file_name replace has_prefix contains format_decimal
two_sources = refl
