-- ===== src/Crawler/EventLog/Spans.antt =====
-- crawler_wineventlog_windows.go: the spans of time that two rounds for one source ask for.
use dhound_agent.Base.{
  ℕ, pos, ◌+◌, ◌-◌, ◌*◌, ◌/◌, ◌<◌, ◌≤◌, List, [], ◌≡◌, refl, ◌∙◌, Option, some, true, ltb, leb,
  length, Bytes, str_eq_refl, arith, not_lt_one, lt→ltb,
}
use dhound_agent.Events.{SourceState}
use dhound_agent.Regexp.{Regexp}
use dhound_agent.Config.{RuleConfig}
use dhound_agent.SystemState.{find}
use dhound_agent.SystemState.Lookup.{lookup_source, found_or_new, find_lem}
use dhound_agent.SystemState.Written.{lookup_source-modify-find}
use dhound_agent.Crawler.EventLog.{
  LogView, win_event_id_search_list, query_of, period_of, milliseconds_of, time_since, source_id_of,
  report, crawl_path,
}

abbrev pub second : ℕ
second = 1_000_000_000

abbrev pub millisecond : ℕ
millisecond = 1_000_000

-- The clock's two readings in a round, in nanoseconds, and what the query gives.
pub record Asked : Type 0 where
  pub now : ℕ
  pub query_time : ℕ
  pub answer : Bytes → Option (List Bytes)

-- A time that is saved is one of whole seconds; the clock is not before it.
abbrev pub view_of : Asked → LogView
view_of r = record { now = r.now; query_time = r.query_time / second; read_event_logs = r.answer }

-- The span of a query on a saved time, in nanoseconds.
span_bounds :
    (now before ms : ℕ)
    → before ≤ now
    → ms ≡ (now - before / second * second) / millisecond
    → (now < before + ms * millisecond + millisecond) × (before + ms * millisecond < now + second)
span_bounds now before ms h e = omega arith

module _ (regexp : Regexp) (fields : regexp.Regex) (parse_time : Bytes → Option ℕ)
    (uint_bits : ℕ) where
  open regexp use {Regex}

  abbrev id_of : RuleConfig Regex → Bytes → Bytes
  id_of rule path = source_id_of regexp fields parse_time uint_bits rule path

  -- A round for a source with some ids asks from the time on that is saved for the source.
  crawl_path_asks :
      (rule : RuleConfig Regex) (view : LogView) (path : Bytes) (sources : List SourceState)
      → 0 < length (win_event_id_search_list rule.events [])
      → let id = id_of rule path in
        crawl_path regexp fields parse_time uint_bits rule view path sources
        ≡ report regexp fields parse_time uint_bits rule path id view.query_time
            (find id sources).0
            (find id sources).1
            (view.read_event_logs (
              query_of path
                (win_event_id_search_list rule.events [])
                (period_of rule view (found_or_new id (lookup_source id sources)).offset)))
  unfolding crawl_path
  crawl_path_asks rule view path sources some_ids =
      let id = id_of rule path in
      rw (
        not_lt_one (length (win_event_id_search_list rule.events [])) some_ids,
        (find_lem id id sources).0,
      )

  -- A round whose query is answered saves the second of the query.
  saved_time :
      (rule : RuleConfig Regex) (path : Bytes) (r : Asked) (sources : List SourceState)
      (items : Bytes → List Bytes)
      → r.answer ≡ (λ q. some (items q))
      → 0 < length (win_event_id_search_list rule.events [])
      → let id = id_of rule path in
        (found_or_new id (
          lookup_source id
            (crawl_path regexp fields parse_time uint_bits rule (view_of r) path sources).0)).offset
        ≡ r.query_time / second
  unfolding report
  saved_time rule path r sources items answered some_ids =
      let id = id_of rule path in
      let write = λ (old : SourceState). record old { offset = r.query_time / second } in
      rw (
        crawl_path_asks rule (view_of r) path sources some_ids,
        answered,
        report,
        lookup_source-modify-find write (λ old. refl) id id sources,
        str_eq_refl id,
      )

  -- The spans of two rounds meet. A rule has ids of events; the query of the first round for a source is
  -- answered, a second or more after 1970, and the clock does not go back. Then the second round asks for
  -- a span of whole milliseconds and reports the answer. Counted back from the reading of the clock in
  -- the second round, the span begins less than a millisecond after the time of the first query, and
  -- less than a second before it.
  pub crawl_path_meets :
      (rule : RuleConfig Regex) (path : Bytes) (before after : Asked) (sources : List SourceState)
      (items : Bytes → List Bytes)
      → before.answer ≡ (λ q. some (items q))
      → 0 < length (win_event_id_search_list rule.events [])
      → second ≤ before.query_time
      → before.query_time ≤ after.now
      → let id = source_id_of regexp fields parse_time uint_bits rule path in
        let left =
          (crawl_path regexp fields parse_time uint_bits rule (view_of before) path sources).0 in
        (ms : ℕ) × (crawl_path regexp fields parse_time uint_bits rule (view_of after) path left
          ≡ report regexp fields parse_time uint_bits rule path id
              (after.query_time / second)
              (find id left).0
              (find id left).1
              (after.answer (query_of path (win_event_id_search_list rule.events []) (pos ms))))
        × (after.now < before.query_time + ms * millisecond + millisecond)
        × (before.query_time + ms * millisecond < after.now + second)
  unfolding period_of milliseconds_of time_since
  crawl_path_meets rule path before after sources items answered some_ids late ordered =
      let left =
        (crawl_path regexp fields parse_time uint_bits rule (view_of before) path sources).0 in
      let ms : ℕ = (after.now - before.query_time / second * second) / millisecond in
      let (missed, twice) = span_bounds after.now before.query_time ms ordered refl in
      let saved = saved_time rule path before sources items answered some_ids in
      let old : ltb 0 (before.query_time / second) ≡ true = lt→ltb 0 _ (omega arith) in
      let gone_by : leb (before.query_time / second * second) after.now ≡ true = ground arith in
      (
        ms,
        crawl_path_asks rule (view_of after) path left some_ids ∙ rw (saved, old, gone_by),
        missed,
        twice,
      )
