-- ===== src/Crawler/FileList/Examples.antt =====
-- The list of files for one rule.
use dhound_agent.Base.{List, [], ◌∷◌, ◌≡◌, refl, none, codes, Bytes, value_of}
use dhound_agent.Samples.{literal}
use dhound_agent.Config.{RuleConfig}
use dhound_agent.Files.{normalize_file_name}
use dhound_agent.Crawler.FileList.{get_files_list_map}
use dhound_agent.Crawler.FileList.Assigned.{rules_for, get_files_list_map_lem}

abbrev rule : RuleConfig Bytes
rule = record {
  source = [];
  paths = codes "/var/log/*" ∷ codes "/var/log/auth*" ∷ [];
  encoding = [];
  dead_time = codes "1h";
  exclude_files_regex = [];
  events = [];
  event_time_format = [];
  deadtime = 0;
  compiled_exclude_files_regex = none;
  rule_file_name = codes "sshd";
}

abbrev auth_log : Bytes
auth_log = codes "/var/log/auth.log"

abbrev glob : Bytes → List Bytes
glob pattern = auth_log ∷ []

get_files_list_map_lem_example :
    value_of [] auth_log (get_files_list_map literal b'/' glob (rule ∷ []))
    ≡ rules_for literal b'/' glob auth_log (rule ∷ [])
get_files_list_map_lem_example = get_files_list_map_lem literal b'/' glob auth_log (rule ∷ [])

normal : normalize_file_name b'/' auth_log ≡ auth_log
unfolding normalize_file_name
normal = refl
