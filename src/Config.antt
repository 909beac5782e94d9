-- ===== src/Config.antt =====
-- config.go: the types of the configuration.
pub mod Loading
pub mod Yaml
use dhound_agent.Base.{ℕ, List, Option, Bool, Bytes, Dict}
use dhound_agent.HttpGateway.{OutputConfig}

pub record SecurityEventConfig (Regex : Type 0) : Type 0 where
  pub sid : ℕ
  pub gid : ℕ
  pub win_event_ids : List ℕ
  pub message : Bytes
  pub regex : Bytes
  pub fields : Dict Bytes
  pub exclude : Dict Bytes
  pub exclude_compiled_regex : Dict (Option Regex)
  pub compiled_regex : Option Regex
  pub critical : Bool

-- `deadtime` is `DeadTime` as a duration in nanoseconds.
pub record RuleConfig (Regex : Type 0) : Type 0 where
  pub source : Bytes
  pub paths : List Bytes
  pub encoding : Bytes
  pub dead_time : Bytes
  pub exclude_files_regex : Bytes
  pub events : List (SecurityEventConfig Regex)
  pub event_time_format : Bytes
  pub deadtime : ℕ
  pub compiled_exclude_files_regex : Option Regex
  pub rule_file_name : Bytes

pub record InputConfig (Regex : Type 0) : Type 0 where
  pub all_rules : Bool
  pub rules : List Bytes
  pub network_interface : Bytes
  pub track_dns_traffic : Bool
  pub rule_configs : List (RuleConfig Regex)

pub record MainConfig (Regex : Type 0) : Type 0 where
  pub output : OutputConfig
  pub input : InputConfig Regex
