-- ===== src/Crawler/EventLog/Examples.antt =====
-- A round of the event log crawler on one item.
use dhound_agent.Base.{
  ℕ, ◌*◌, ◌/◌, ◌+◌, ◌<◌, [], ◌∷◌, ◌≡◌, refl, Option, none, some, true, Bytes, codes, format_decimal,
  length, arith,
}
use dhound_agent.Regexp.{Regexp}
use dhound_agent.Config.{SecurityEventConfig, RuleConfig}
use dhound_agent.Utils.{contains}
use dhound_agent.SystemState.{find}
use dhound_agent.Crawler.EventLog.{LogView, win_event_id_search_list, report, crawl_path, run_once}
use dhound_agent.Crawler.EventLog.Spans.{second, millisecond, Asked, view_of, crawl_path_meets}
use dhound_agent.Crawler.EventLog.Reported.{IsReport, crawl_path-IsReport}

-- An expression captures one text under one name.
abbrev capturing : Regexp
capturing = record {
  Regex = Bytes × Bytes;
  compile = λ s. none;
  match_string = λ r s. true;
  find_string_submatch = λ r s. some (r.1 ∷ []);
  find_all_string_submatch = λ r s. (r.1 ∷ []) ∷ [];
  find_all_string_index = λ r s. [];
  subexp_names = λ r. r.0 ∷ [];
  submatch_width = λ r s. omega arith;
  index_ordered = λ r s. omega arith;
}

abbrev login : SecurityEventConfig (Bytes × Bytes)
login = record {
  sid = 5;
  gid = 2;
  win_event_ids = 4625 ∷ [];
  message = codes "login from #ip";
  regex = [];
  fields = [];
  exclude = [];
  exclude_compiled_regex = [];
  compiled_regex = some (codes "ip", codes "10.0.0.1");
  critical = true;
}

abbrev rule : RuleConfig (Bytes × Bytes)
rule = record {
  source = [];
  paths = codes "Security" ∷ [];
  encoding = [];
  dead_time = [];
  exclude_files_regex = [];
  events = login ∷ [];
  event_time_format = [];
  deadtime = 0;
  compiled_exclude_files_regex = none;
  rule_file_name = codes "win";
}

abbrev view : LogView
view = record {
  now = 501_000_000_000;
  query_time = 500;
  read_event_logs = λ query. some (codes "<Event/>" ∷ []);
}

abbrev parse_time : Bytes → Option ℕ
parse_time s = some 77

abbrev id_field : Bytes × Bytes
id_field = (codes "eventid", codes "4625")

crawl_path-IsReport_example :
    IsReport capturing id_field parse_time 64 rule view
      (codes "Security")
      (crawl_path capturing id_field parse_time 64 rule view (codes "Security") []).1
crawl_path-IsReport_example =
    crawl_path-IsReport capturing id_field parse_time 64 rule view (codes "Security") []

-- The state takes the second of the query, and the event is sent.
one_source :
    (run_once capturing id_field parse_time 64 (λ id. view) (rule ∷ []) []).0
    ≡ record {
      source_id = codes "win_Security";
      source = [];
      offset = 500;
      line = 0;
      last_updated_time_utc_number = 0;
    }
      ∷ []
unfolding run_once find contains format_decimal
one_source = refl

one_container : length (run_once capturing id_field parse_time 64 (λ id. view) (rule ∷ []) []).1 ≡ 1
unfolding run_once find contains format_decimal
one_container = refl

abbrev round_at : ℕ → Asked
round_at time = record {
  now = time;
  query_time = time;
  answer = λ query. some (codes "<Event/>" ∷ []);
}

crawl_path_meets_example :
    let id = codes "win_Security" in
    let left =
      (crawl_path capturing id_field parse_time 64 rule
        (view_of (round_at (7 * second)))
        (codes "Security")
        []).0 in
    (ms : ℕ) × (crawl_path capturing id_field parse_time 64 rule
        (view_of (round_at (67 * second)))
        (codes "Security")
        left
      ≡ report capturing id_field parse_time 64 rule
          (codes "Security")
          id
          (67 * second / second)
          (find id left).0
          (find id left).1
          (some (codes "<Event/>" ∷ [])))
    × (67 * second < 7 * second + ms * millisecond + millisecond)
    × (7 * second + ms * millisecond < 67 * second + second)
unfolding win_event_id_search_list
crawl_path_meets_example =
    crawl_path_meets capturing id_field parse_time 64 rule (codes "Security")
      (round_at (7 * second)) (round_at (67 * second)) [] (λ query. codes "<Event/>" ∷ []) refl
      (omega arith) (omega arith) (omega arith)
