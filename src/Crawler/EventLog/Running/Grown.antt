-- ===== src/Crawler/EventLog/Running/Grown.antt =====
-- crawler_wineventlog_windows.go: a round leaves the states of the list where they are, and their ids
-- distinct.
use dhound_agent.Base.{
  ℕ, List, [], ◌∷◌, ltb, length, Option, none, some, Bytes, Bool-cases, inl, inr, refl,
}
use dhound_agent.Events.{SourceState}
use dhound_agent.Regexp.{Regexp}
use dhound_agent.Config.{RuleConfig}
use dhound_agent.SystemState.{find}
use dhound_agent.SystemState.Grown.{IsGrown, modify-IsGrown, find-IsGrown}
use dhound_agent.Crawler.EventLog.{
  LogView, source_id_of, win_event_id_search_list, report, crawl_path, crawl_paths, run_once,
}

module _ (regexp : Regexp) (first : List SourceState) (parse_time : Bytes → Option ℕ)
    (uint_bits : ℕ) where
  open regexp use {Regex}

  module _ (fields : Regex) where
    report-IsGrown :
        (rule : RuleConfig Regex) (path source_id : Bytes) (query_time : ℕ)
        (sources : List SourceState) (pointer : ℕ) (result : Option (List Bytes))
        → IsGrown first sources
        → IsGrown first
            (report regexp fields parse_time uint_bits rule path source_id query_time sources
              pointer result).0
    unfolding report
    report-IsGrown rule path source_id query_time sources pointer none h = h
    report-IsGrown rule path source_id query_time sources pointer (some result) h =
        modify-IsGrown first (λ old. record old { offset = query_time }) (λ old. refl) sources
          pointer h

    crawl_path-IsGrown :
        (rule : RuleConfig Regex) (view : LogView) (path : Bytes) (sources : List SourceState)
        → IsGrown first sources
        → IsGrown first (crawl_path regexp fields parse_time uint_bits rule view path sources).0
    unfolding crawl_path
    crawl_path-IsGrown rule view path sources h =
        elim (Bool-cases (ltb (length (win_event_id_search_list rule.events [])) 1)) [
          | inl e ↦ rw (e, crawl_path) h
          | inr e ↦
              rw (e, crawl_path)
                (report-IsGrown rule path
                  (source_id_of regexp fields parse_time uint_bits rule path) view.query_time
                  (find (source_id_of regexp fields parse_time uint_bits rule path) sources).0 _ _
                  (find-IsGrown first (source_id_of regexp fields parse_time uint_bits rule path)
                    sources h))
        ]

    crawl_paths-IsGrown :
        (rule : RuleConfig Regex) (views : Bytes → LogView) (paths : List Bytes)
        (sources : List SourceState)
        → IsGrown first sources
        → IsGrown first (crawl_paths regexp fields parse_time uint_bits rule views paths sources).0
    unfolding crawl_paths
    crawl_paths-IsGrown rule views [] sources h = h
    crawl_paths-IsGrown rule views (path ∷ rest) sources h = crawl_paths-IsGrown rule views rest _ (
        crawl_path-IsGrown rule (views (source_id_of regexp fields parse_time uint_bits rule path))
          path sources h)

    pub run_once-IsGrown :
        (views : Bytes → LogView) (rules : List (RuleConfig Regex)) (sources : List SourceState)
        → IsGrown first sources
        → IsGrown first (run_once regexp fields parse_time uint_bits views rules sources).0
    unfolding run_once
    run_once-IsGrown views [] sources h = h
    run_once-IsGrown views (rule ∷ rest) sources h =
        run_once-IsGrown views rest _ (crawl_paths-IsGrown rule views rule.paths sources h)
