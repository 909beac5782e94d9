-- ===== src/Crawler/Parsing.antt =====
-- crawler_files.go: `ParseLine`, the rules of one file applied to one line. The crawler's rules come
-- from `LoadConfig`, which keeps no event without its compiled expression.
pub mod Fields
mod Examples
use dhound_agent.Base.{
  ℕ, ◌-◌, List, [], ◌∷◌, ◌++◌, Option, none, some, Bool, false, ◌||◌, ltb, if◌then◌else◌, length,
  Bytes, codes, str_eq, Dict, put, value_of, format_decimal,
}
use dhound_agent.Events.{SecurityEvent}
use dhound_agent.Regexp.{Regexp}
use dhound_agent.Strings.{replace}
use dhound_agent.Utils.Matching.{
  regex_find_all_submatches, apply_exclude_filter_to_security_events,
  apply_filter_to_security_message,
}
use dhound_agent.Dates.{Time, ex_year_parse_date}
use dhound_agent.Config.{SecurityEventConfig, RuleConfig}

-- The predefined fields, put into the result map.
pub put_fields : Dict Bytes → Dict Bytes → Dict Bytes
unfolding put
put_fields [] m = m
put_fields ((key, value) ∷ rest) m = put_fields rest (put key value m)

-- The copy of the result map without the fields that an event holds itself.
pub additional_fields_of : Dict Bytes → Dict Bytes
unfolding str_eq
additional_fields_of [] = []
additional_fields_of ((key, value) ∷ rest) =
    if str_eq key (codes "ip") || str_eq key (codes "eventTime")
    then additional_fields_of rest
    else (key, value) ∷ additional_fields_of rest

abbrev pub source_of : Bytes → ℕ → Bytes
source_of path line_position =
    if ltb 0 line_position then path ++ codes ":" ++ format_decimal (line_position - 1) else path

module _ (regexp : Regexp) (time : Time) where
  open regexp use {Regex, find_string_submatch}

  pub parse_time : Bytes → Bytes → Option ℕ
  unfolding ex_year_parse_date
  parse_time event_time_format event_time =
      if ltb (length event_time_format) 1
      then time.parse_in_location event_time event_time
      else ex_year_parse_date time event_time_format event_time

  pub result_map_of : SecurityEventConfig Regex → Regex → Bytes → Dict Bytes
  unfolding put_fields regex_find_all_submatches
  result_map_of filter regex text =
      regex_find_all_submatches regexp text regex (put_fields filter.fields [])

  -- The event of a line that matches, from its result map and its time.
  pub event_of : SecurityEventConfig Regex → Dict Bytes → ℕ → Bytes → SecurityEvent
  unfolding apply_filter_to_security_message replace additional_fields_of
  event_of filter m event_time source =
      let ip_address = value_of [] (codes "ip") m in
      let message = apply_filter_to_security_message filter.message m in
      record {
        security_id = filter.sid;
        security_group_id = filter.gid;
        event_time_utc_number = event_time;
        message = replace (codes "#ip") ip_address (length message) message;
        ip_address = ip_address;
        additional_fields = additional_fields_of m;
        critical = filter.critical;
        source = some source;
      }

  pub parse_match : Bytes → Bytes → ℕ → SecurityEventConfig Regex → Dict Bytes → List SecurityEvent
  unfolding parse_time event_of apply_exclude_filter_to_security_events
  parse_match event_time_format path line_position filter m =
      elim (parse_time event_time_format (value_of [] (codes "eventTime") m)) [
        | none ↦ []
        | some event_time ↦
            if apply_exclude_filter_to_security_events regexp filter.exclude_compiled_regex m
            then []
            else event_of filter m event_time (source_of path line_position) ∷ []
      ]

  abbrev has_matched : Option (List Bytes) → Bool
  has_matched none = false
  has_matched (some matches) = ltb 0 (length matches)

  -- One round of the loop: the events that it appends to the container.
  pub parse_event : Bytes → Bytes → ℕ → Bytes → SecurityEventConfig Regex → List SecurityEvent
  unfolding parse_match result_map_of
  parse_event event_time_format path line_position text filter = elim filter.compiled_regex [
    | none ↦ []
    | some regex ↦
        if has_matched (find_string_submatch regex text)
        then parse_match event_time_format path line_position filter
            (result_map_of filter regex text)
        else []
  ]

  pub parse_events :
      Bytes → Bytes → ℕ → Bytes → List (SecurityEventConfig Regex) → List SecurityEvent
  unfolding parse_event
  parse_events event_time_format path line_position text [] = []
  parse_events event_time_format path line_position text (filter ∷ rest) =
      parse_event event_time_format path line_position text filter
      ++ parse_events event_time_format path line_position text rest

  unfoldable pub parse_line : Bytes → ℕ → Bytes → RuleConfig Regex → List SecurityEvent
  unfolding parse_events
  parse_line path line_position text rule =
      parse_events rule.event_time_format path line_position text rule.events

  -- The loop over the rules of the file.
  unfoldable pub parse_by_rules : Bytes → List (RuleConfig Regex) → ℕ → Bytes → List SecurityEvent
  unfolding parse_line
  parse_by_rules path [] line_position text = []
  parse_by_rules path (rule ∷ rest) line_position text =
      parse_line path line_position text rule ++ parse_by_rules path rest line_position text
