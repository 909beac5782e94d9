-- ===== src/Crawler/Running/Examples.antt =====
-- Two rounds over a directory with one file that cannot be opened.
use dhound_agent.Base.{
  [], ◌∷◌, ◌≡◌, refl, none, some, false, Bytes, codes, str_eq, get_key, put, map,
}
use dhound_agent.Samples.{literal}
use dhound_agent.Strings.{has_prefix, replace}
use dhound_agent.Files.{normalize_file_name}
use dhound_agent.Config.{RuleConfig}
use dhound_agent.SystemState.{find}
use dhound_agent.Crawler.RunOnce.{FileView, run_once}
use dhound_agent.Crawler.FileList.{get_files_list_map}
use dhound_agent.Crawler.Running.{Round, run}

abbrev rule : RuleConfig Bytes
rule = record {
  source = [];
  paths = codes "/var/log/*" ∷ [];
  encoding = [];
  dead_time = codes "1h";
  exclude_files_regex = [];
  events = [];
  event_time_format = [];
  deadtime = 3_600_000_000_000;
  compiled_exclude_files_regex = none;
  rule_file_name = codes "any";
}

abbrev view : FileView
view = record {
  file_id = codes "1:2";
  stat = some (record { is_dir = false; age = 5; size = 10 });
  opens = false;
  is_encoding = λ name. false;
  reader = λ name position. none;
  age_at_end = 5;
}

abbrev round : Round
round = record {
  glob = λ path. codes "/var/log/a" ∷ [];
  views = λ path. view;
  time = record { year = 2020; parse_in_location = λ layout value. none };
}

one_state :
    map (λ s. s.source_id) (run literal b'/' (rule ∷ []) (round ∷ round ∷ []) []).0
    ≡ codes "1:2" ∷ []
unfolding run run_once find get_files_list_map str_eq get_key put normalize_file_name replace
    has_prefix
one_state = refl
