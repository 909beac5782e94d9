-- ===== src/Crawler/EventLog.antt =====
-- crawler_wineventlog_windows.go: `_RunOnce`, for the items that `_ReadEventLogs` gives for a query. The
-- expression of `Init` for the fields of an item, the parser of times and the width of `uint` are
-- parameters.
pub mod Reported
pub mod Running
pub mod Spans
pub mod Others
mod Examples
use dhound_agent.Base.{
  ℕ, zero, suc, ℤ, pos, negsuc, leb, ◌-◌, ◌*◌, ◌/◌, List, [], ◌∷◌, ◌++◌, Option, none, some, ◌||◌,
  not, ltb, if◌then◌else◌, length, modify, get_elem?, Bytes, codes, str_eq, Dict, get_key, value_of,
  format_decimal,
}
use dhound_agent.Events.{SecurityEvent, SecurityEventsContainer, SourceState}
use dhound_agent.Regexp.{Regexp}
use dhound_agent.Config.{SecurityEventConfig, RuleConfig}
use dhound_agent.Crawler.Parsing.{put_fields}
use dhound_agent.Conversions.{force_atoui, i64toa}
unfoldable use dhound_agent.Utils.{contains, contains_uint, clean_security_events_from_dublicates}
unfoldable use dhound_agent.Utils.Matching.{
  regex_find_all_submatches, apply_exclude_filter_to_security_events,
  apply_filter_to_security_message,
}
unfoldable use dhound_agent.SystemState.{find}

-- The texts for the ids, each once.
pub add_ids : List ℕ → List Bytes → List Bytes
unfolding contains format_decimal
add_ids [] found = found
add_ids (id ∷ rest) found =
    let text = codes "EventID=" ++ format_decimal id in
    add_ids rest (if contains found text then found else found ++ text ∷ [])

pub win_event_id_search_list : {R : Type 0} → List (SecurityEventConfig R) → List Bytes → List Bytes
unfolding add_ids
win_event_id_search_list [] found = found
win_event_id_search_list (event ∷ rest) found =
    win_event_id_search_list rest (add_ids event.win_event_ids found)

join_or : List Bytes → Bytes
join_or [] = []
join_or (id ∷ []) = id
join_or (id ∷ other ∷ rest) = id ++ codes " or " ++ join_or (other ∷ rest)

pub query_of : Bytes → List Bytes → ℤ → Bytes
unfolding join_or i64toa
query_of path ids milliseconds =
    codes "<QueryList>\n\t\t\t\t\t\t\t<Query Id=\"0\" Path=\""
    ++ path
    ++ codes "\">\n\t\t\t\t\t\t\t<Select Path=\""
    ++ path
    ++ codes "\">\n\t\t\t\t\t\t\t\t*[System[("
    ++ join_or ids
    ++ codes ") and TimeCreated[timediff(@SystemTime) &lt;= "
    ++ i64toa milliseconds
    ++ codes "]]]\n\t\t\t\t\t\t\t</Select>\n\t\t\t\t\t\t\t</Query>\n\t\t\t\t\t\t</QueryList>"

-- The default, thirty days, in nanoseconds.
abbrev pub default_period_to_parse : ℕ
default_period_to_parse = 30 * 24 * 3600 * 1_000_000_000

abbrev negative : ℕ → ℤ
negative zero = pos 0
negative (suc n) = negsuc n

-- What the system says for one source: the clock in nanoseconds since 1970, the second of the query,
-- and at most 1000 items for it; `none` is an error.
pub record LogView : Type 0 where
  pub now : ℕ
  pub query_time : ℕ
  pub read_event_logs : Bytes → Option (List Bytes)

-- From nanoseconds; the division in Go cuts off towards 0.
pub milliseconds_of : ℤ → ℤ
milliseconds_of (pos n) = pos (n / 1_000_000)
milliseconds_of (negsuc n) = negative (suc n / 1_000_000)

-- The time from a saved second to the clock, in nanoseconds, which is negative where the clock was
-- put back.
pub time_since : ℕ → ℕ → ℤ
time_since now saved =
    if leb (saved * 1_000_000_000) now
    then pos (now - saved * 1_000_000_000)
    else negative (saved * 1_000_000_000 - now)

pub period_of : {R : Type 0} → RuleConfig R → LogView → ℕ → ℤ
unfolding milliseconds_of time_since
period_of rule view offset =
    if ltb 0 offset
    then milliseconds_of (time_since view.now offset)
    else if ltb 0 (length rule.dead_time)
    then pos (rule.deadtime / 1_000_000)
    else pos (default_period_to_parse / 1_000_000)

-- The copy of the result map without the fields that an event holds itself.
event_fields_of : Dict Bytes → Dict Bytes
unfolding str_eq
event_fields_of [] = []
event_fields_of ((key, value) ∷ rest) =
    if str_eq key (codes "ip") || str_eq key (codes "eventTime") || str_eq key (codes "_eventTime")
    then event_fields_of rest
    else (key, value) ∷ event_fields_of rest

module _ (regexp : Regexp) (win_event_fields_regex : regexp.Regex) (parse_time : Bytes → Option ℕ)
    (uint_bits : ℕ) where
  open regexp use {Regex}

  -- The message of the filter, or the one of the item.
  pub event_message_of : SecurityEventConfig Regex → Dict Bytes → Bytes
  unfolding apply_filter_to_security_message get_key
  event_message_of filter m =
      apply_filter_to_security_message
        (if ltb 0 (length filter.message) then filter.message else value_of [] (codes "message") m)
        m

  -- From the result map of an item on.
  pub event_of_map : Bytes → SecurityEventConfig Regex → Dict Bytes → List SecurityEvent
  unfolding event_message_of event_fields_of apply_exclude_filter_to_security_events get_key
  event_of_map path filter m =
      if apply_exclude_filter_to_security_events regexp filter.exclude_compiled_regex m
      then []
      else elim (parse_time (value_of [] (codes "_eventTime") m)) [
        | none ↦ []
        | some event_time ↦
            if ltb (length (value_of [] (codes "ip") m)) 1
            then []
            else record {
              security_id = filter.sid;
              security_group_id = filter.gid;
              event_time_utc_number = event_time;
              message = event_message_of filter m;
              ip_address = value_of [] (codes "ip") m;
              additional_fields = event_fields_of m;
              critical = filter.critical;
              source = some path;
            }
              ∷ []
      ]

  -- One round of the loop over the items; the rules have their compiled expressions.
  pub parse_item : Bytes → SecurityEventConfig Regex → Bytes → List SecurityEvent
  unfolding event_of_map regex_find_all_submatches contains_uint force_atoui get_key
  parse_item path filter item =
      let base = regex_find_all_submatches regexp item win_event_fields_regex [] in
      if not (
        contains_uint filter.win_event_ids
          (force_atoui uint_bits (value_of [] (codes "eventid") base)))
      then []
      else elim filter.compiled_regex [
        | none ↦ []
        | some regex ↦
            event_of_map path filter
              (regex_find_all_submatches regexp item regex (put_fields filter.fields base))
      ]

  pub parse_items : Bytes → SecurityEventConfig Regex → List Bytes → List SecurityEvent
  unfolding parse_item
  parse_items path filter [] = []
  parse_items path filter (item ∷ rest) =
      parse_item path filter item ++ parse_items path filter rest

  -- The loop over the filters of the rule.
  pub parse_result : Bytes → List Bytes → List (SecurityEventConfig Regex) → List SecurityEvent
  unfolding parse_items
  parse_result path result [] = []
  parse_result path result (filter ∷ rest) =
      if ltb (length filter.win_event_ids) 1
      then parse_result path result rest
      else parse_items path filter result ++ parse_result path result rest

  -- From the answer to the query on.
  pub report :
      RuleConfig Regex
      → Bytes
      → Bytes
      → ℕ
      → List SourceState
      → ℕ
      → Option (List Bytes)
      → List SourceState × Option SecurityEventsContainer
  unfolding parse_result clean_security_events_from_dublicates
  report rule path source_id query_time sources pointer none = (sources, none)
  report rule path source_id query_time sources pointer (some result) = (
    modify sources pointer (λ old. record old { offset = query_time }),
    some (record {
      source_id = source_id;
      offset = query_time;
      line = 0;
      source = path;
      ip_to_service_map = [];
      security_events =
          clean_security_events_from_dublicates (parse_result path result rule.events);
    }),
  )

  abbrev pub source_id_of : RuleConfig Regex → Bytes → Bytes
  source_id_of rule path = rule.rule_file_name ++ codes "_" ++ path

  abbrev offset_at : Option SourceState → ℕ
  offset_at none = 0
  offset_at (some s) = s.offset

  -- One round of the loop over the paths of a rule.
  pub crawl_path :
      RuleConfig Regex
      → LogView
      → Bytes
      → List SourceState
      → List SourceState × Option SecurityEventsContainer
  unfolding report find win_event_id_search_list query_of period_of
  crawl_path rule view path sources =
      let ids = win_event_id_search_list rule.events [] in
      let (found, pointer) = find (source_id_of rule path) sources in
      let query = query_of path ids (period_of rule view (offset_at (get_elem? found pointer))) in
      if ltb (length ids) 1
      then (sources, none)
      else report rule path (source_id_of rule path) view.query_time found pointer
          (view.read_event_logs query)

  crawl_paths :
      RuleConfig Regex
      → (Bytes → LogView)
      → List Bytes
      → List SourceState
      → List SourceState × List SecurityEventsContainer
  unfolding crawl_path
  crawl_paths rule views [] sources = (sources, [])
  crawl_paths rule views (path ∷ rest) sources =
      let (after, sent) = crawl_path rule (views (source_id_of rule path)) path sources in
      let (last, more) = crawl_paths rule views rest after in
      (last, elim sent [ none ↦ more | some container ↦ container ∷ more ])

  -- The whole round, with the answers of the system for the id of each source.
  unfoldable pub run_once :
      (Bytes → LogView)
      → List (RuleConfig Regex)
      → List SourceState
      → List SourceState × List SecurityEventsContainer
  unfolding crawl_paths
  run_once views [] sources = (sources, [])
  run_once views (rule ∷ rest) sources =
      let (after, sent) = crawl_paths rule views rule.paths sources in
      let (last, more) = run_once views rest after in (last, sent ++ more)
