-- ===== src/Crawler/Parsing/Examples.antt =====
-- A line parsed by a rule.
use dhound_agent.Base.{
  List, [], ◌∷◌, ◌≡◌, refl, none, some, true, codes, Bytes, get_key, str_eq, format_decimal,
}
use dhound_agent.Samples.{literal}
use dhound_agent.Dates.{Time}
use dhound_agent.Config.{RuleConfig, SecurityEventConfig}
use dhound_agent.Crawler.Parsing.{parse_line}

abbrev fields : List (Bytes × Bytes)
fields =
    (codes "eventTime", codes "1")
    ∷ (codes "user", codes "root")
    ∷ (codes "ip", codes "10.0.0.1")
    ∷ []

abbrev clock : Time
clock = record { year = 2018; parse_in_location = λ layout value. some 77 }

abbrev address_filter : SecurityEventConfig Bytes
address_filter = record {
  sid = 5;
  gid = 2;
  win_event_ids = [];
  message = codes "#user from #ip";
  regex = codes "10.0.0.1";
  fields = (codes "user", codes "root") ∷ [];
  exclude = [];
  exclude_compiled_regex = [];
  compiled_regex = some (codes "10.0.0.1");
  critical = true;
}

abbrev rule : RuleConfig Bytes
rule = record {
  source = [];
  paths = [];
  encoding = [];
  dead_time = codes "1h";
  exclude_files_regex = [];
  events = address_filter ∷ [];
  event_time_format = codes "YYYY";
  deadtime = 0;
  compiled_exclude_files_regex = none;
  rule_file_name = codes "sshd";
}

one_event :
    parse_line literal clock (codes "/var/log/x") 4 (codes "10.0.0.1") rule
    ≡ record {
      security_id = 5;
      security_group_id = 2;
      event_time_utc_number = 77;
      message = codes "root from 10.0.0.1";
      ip_address = codes "10.0.0.1";
      additional_fields = (codes "user", codes "root") ∷ [];
      critical = true;
      source = some (codes "/var/log/x:3");
    }
      ∷ []
unfolding parse_line str_eq get_key format_decimal
one_event = refl
