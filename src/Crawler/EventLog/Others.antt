-- ===== src/Crawler/EventLog/Others.antt =====
-- crawler_wineventlog_windows.go: a round for one source leaves the states of the others alone.
use dhound_agent.Base.{
  ℕ, List, [], ◌≡◌, refl, ◌∙◌, Option, none, some, false, ltb, length, Bytes, str_eq, Bool-cases,
  inl, inr,
}
use dhound_agent.Events.{SourceState}
use dhound_agent.SystemState.{find}
use dhound_agent.SystemState.Lookup.{lookup_source, find_lem}
use dhound_agent.SystemState.Written.{lookup_source-modify-find}
use dhound_agent.Regexp.{Regexp}
use dhound_agent.Config.{RuleConfig}
use dhound_agent.Crawler.EventLog.{
  LogView, source_id_of, win_event_id_search_list, report, crawl_path,
}

module _ (regexp : Regexp) (fields : regexp.Regex) (parse_time : Bytes → Option ℕ)
    (uint_bits : ℕ) where
  open regexp use {Regex}

  lookup_source-report :
      (rule : RuleConfig Regex) (path id : Bytes) (query_time : ℕ) (sources : List SourceState)
      (result : Option (List Bytes)) (other : Bytes)
      → str_eq other id ≡ false
      → lookup_source other
          (report regexp fields parse_time uint_bits rule path id query_time
            (find id sources).0
            (find id sources).1
            result).0
        ≡ lookup_source other sources
  unfolding report
  lookup_source-report rule path id query_time sources none other h =
      (find_lem id other sources).1 ∙ rw h
  lookup_source-report rule path id query_time sources (some result) other h =
      lookup_source-modify-find (λ old. record old { offset = query_time }) (λ old. refl) id other
        sources
      ∙ rw h

  pub lookup_source-crawl_path :
      (rule : RuleConfig Regex) (view : LogView) (path : Bytes) (sources : List SourceState)
      (other : Bytes)
      → str_eq other (source_id_of regexp fields parse_time uint_bits rule path) ≡ false
      → lookup_source other (crawl_path regexp fields parse_time uint_bits rule view path sources).0
        ≡ lookup_source other sources
  unfolding crawl_path
  lookup_source-crawl_path rule view path sources other h =
      elim (Bool-cases (ltb (length (win_event_id_search_list rule.events [])) 1)) [
        | inl e ↦ rw (e, crawl_path) refl
        | inr e ↦
            rw (e, crawl_path)
              (lookup_source-report rule path
                (source_id_of regexp fields parse_time uint_bits rule path) view.query_time sources
                _ other h)
      ]
