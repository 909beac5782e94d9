-- ===== src/Config/Loading/Examples.antt =====
-- `LoadConfig` on a directory with two rule files.
use dhound_agent.Base.{
  [], ◌∷◌, ◌++◌, ◌≡◌, refl, none, some, true, false, Bytes, codes, All, map, str_eq, get_key,
  if◌then◌else◌,
}
use dhound_agent.Samples.{literal}
use dhound_agent.Strings.{has_prefix, has_suffix, trim_suffix}
use dhound_agent.Utils.{contains}
use dhound_agent.Config.{SecurityEventConfig, RuleConfig, MainConfig}
use dhound_agent.Config.Loading.{
  Options, System, entries, deadtime_failed, discover_yaml_configs, load_config,
}
use dhound_agent.Config.Loading.Ready.{IsReady, load_config-IsReady}
use dhound_agent.Config.Loading.Deadtime.{last_deadtime_decides}

abbrev options : Options
options = record {
  config_dir = codes "/etc";
  default_file_deadtime = codes "360h";
  default_exclude_file_filter = codes ".gz";
}

abbrev main_config : MainConfig Bytes
main_config = record {
  output = record { access_token = []; server_key = []; environment = []; proxy = [] };
  input = record {
    all_rules = false;
    rules = codes "sshd" ∷ [];
    network_interface = [];
    track_dns_traffic = false;
    rule_configs = [];
  };
}

abbrev login : SecurityEventConfig Bytes
login = record {
  sid = 5;
  gid = 0;
  win_event_ids = [];
  message = codes "login";
  regex = codes "login";
  fields = [];
  exclude = (codes "user", codes "root") ∷ [];
  exclude_compiled_regex = [];
  compiled_regex = none;
  critical = false;
}

abbrev rule_with : Bytes → RuleConfig Bytes
rule_with dead_time = record {
  source = [];
  paths = codes "/var/log/auth.log" ∷ [];
  encoding = [];
  dead_time = dead_time;
  exclude_files_regex = [];
  events = login ∷ [];
  event_time_format = [];
  deadtime = 0;
  compiled_exclude_files_regex = none;
  rule_file_name = [];
}

abbrev sshd_file : Bytes
sshd_file = codes "/etc/rules.d/sshd.yml"

abbrev last_file : Bytes
last_file = codes "/etc/rules.d/xinetd.yml"

-- Only the default is a duration; the second file has another text.
abbrev system : System Bytes
system = record {
  directory = λ dir. entries (codes "sshd.yml" ∷ codes "readme.txt" ∷ codes "xinetd.yml" ∷ []);
  join = λ dir name. dir ++ codes "/" ++ name;
  to_lower = λ s. s;
  parse_duration = λ s. if str_eq s (codes "360h") then some 1_296_000_000_000_000 else none;
  load_main_file = λ path. (main_config, true);
  load_rule_file = λ path.
      if str_eq path sshd_file then some (rule_with []) else some (rule_with (codes "soon"));
}

load_config-IsReady_example :
    All
      (IsReady literal system main_config.input)
      (load_config literal system options).0.input.rule_configs
load_config-IsReady_example = load_config-IsReady literal system options refl

last_deadtime_decides_example : (load_config literal system options).1 ≡ some deadtime_failed
unfolding discover_yaml_configs has_suffix has_prefix str_eq
last_deadtime_decides_example =
    last_deadtime_decides literal system options (sshd_file ∷ []) [] last_file
      (rule_with (codes "soon")) refl refl refl tt

-- The first file is loaded all the same.
one_rule :
    map (λ rule. rule.rule_file_name) (load_config literal system options).0.input.rule_configs
    ≡ codes "sshd" ∷ []
unfolding load_config has_suffix has_prefix str_eq trim_suffix contains get_key
one_rule = refl
