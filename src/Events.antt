-- ===== src/Events.antt =====
-- securityevent.go, securityeventscontainer.go and source_state.go: the records that travel
-- between the parts of the agent. Numbers are the non-negative values that the agent stores.
use dhound_agent.Base.{ℕ, Bool, List, Option, Bytes, Dict}

pub record SecurityEvent : Type 0 where
  pub security_id : ℕ
  pub security_group_id : ℕ
  pub event_time_utc_number : ℕ
  pub message : Bytes
  pub ip_address : Bytes
  pub additional_fields : Dict Bytes
  pub critical : Bool
  pub source : Option Bytes

pub record SecurityEventsContainer : Type 0 where
  pub source_id : Bytes
  pub offset : ℕ
  pub line : ℕ
  pub source : Bytes
  pub ip_to_service_map : Dict (List Bytes)
  pub security_events : List SecurityEvent

pub record SourceState : Type 0 where
  pub source_id : Bytes
  pub source : Bytes
  pub offset : ℕ
  pub line : ℕ
  pub last_updated_time_utc_number : ℕ
