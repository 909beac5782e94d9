-- ===== src/Crawler/RunOnce/Following/Samples.antt =====
-- A file with the text that it is given, and two parts of lines that come to it.
use dhound_agent.Base.{
  ◌*◌, [], ◌∷◌, refl, some, none, true, false, arith, codes, Bytes, length, drop, append-nil,
}
use dhound_agent.Dates.{Time}
use dhound_agent.Config.{SecurityEventConfig, RuleConfig}
use dhound_agent.Crawler.Lines.{eof}
use dhound_agent.Crawler.RunOnce.{second, FileView, max_file_dead_time}
use dhound_agent.Crawler.RunOnce.Following.{Shows, Part}

-- An event that the line "ab" is.
abbrev pub login : SecurityEventConfig Bytes
login = record {
  sid = 5;
  gid = 2;
  win_event_ids = [];
  message = codes "login from #ip";
  regex = codes "ab";
  fields = (codes "eventTime", codes "12:00") ∷ [];
  exclude = [];
  exclude_compiled_regex = [];
  compiled_regex = some (codes "ab");
  critical = true;
}

abbrev pub rule : RuleConfig Bytes
rule = record {
  source = [];
  paths = codes "/var/log/*" ∷ [];
  encoding = [];
  dead_time = codes "1h";
  exclude_files_regex = [];
  events = login ∷ [];
  event_time_format = codes "hh:mm";
  deadtime = 3600 * second;
  compiled_exclude_files_regex = none;
  rule_file_name = codes "any";
}

abbrev pub showing : Bytes → Bytes → FileView
showing id text = record {
  file_id = id;
  stat = some (record { is_dir = false; age = 5; size = length text });
  opens = true;
  is_encoding = λ name. false;
  reader = λ name position. some (record {
    buffer = [];
    chunks = record { text = drop position text; position = length text } ∷ [];
    end = eof;
    position = position;
  });
  age_at_end = 5;
}

pub showing-Shows : (text : Bytes) → Shows (rule ∷ []) (showing (codes "1:2") text) text
unfolding max_file_dead_time
showing-Shows text = record {
  stat = record { is_dir = false; age = 5; size = length text };
  has_id = omega arith;
  has_stat = refl;
  is_file = refl;
  is_recent = omega arith;
  size_lem = refl;
  opens_lem = refl;
  reads = λ position h. (_, refl, append-nil (drop position text), refl, refl);
}

abbrev pub clock : Time
clock = record { year = 2018; parse_in_location = λ layout value. some 77 }

abbrev pub two_lines : Part
two_lines = record { time = clock; lines = codes "ab" ∷ codes "c" ∷ [] }

abbrev pub one_line : Part
one_line = record { time = clock; lines = codes "d" ∷ [] }

abbrev pub path : Bytes
path = codes "/var/log/a"
