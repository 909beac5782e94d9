-- ===== src/Samples.antt =====
-- Small values for the runs of the operations.
use dhound_agent.Base.{ℕ, [], ◌∷◌, none, some, false, arith, codes, Bytes, str_eq, if◌then◌else◌}
use dhound_agent.Events.{SecurityEvent}
use dhound_agent.Regexp.{Regexp}

-- Every text is an expression that matches itself, under no name, and the empty text at 0.
abbrev pub literal : Regexp
literal = record {
  Regex = Bytes;
  compile = λ s. some s;
  match_string = str_eq;
  find_string_submatch = λ r s. if str_eq r s then some (s ∷ []) else none;
  find_all_string_submatch = λ r s. (s ∷ []) ∷ [];
  find_all_string_index = λ r s. (0, 0) ∷ [];
  subexp_names = λ r. codes "ip" ∷ [];
  submatch_width = λ r s. omega arith;
  index_ordered = λ r s. omega arith;
}

abbrev pub event_at : ℕ → Bytes → SecurityEvent
event_at time message = record {
  security_id = 7;
  security_group_id = 0;
  event_time_utc_number = time;
  message = message;
  ip_address = codes "10.0.0.1";
  additional_fields = [];
  critical = false;
  source = none;
}
