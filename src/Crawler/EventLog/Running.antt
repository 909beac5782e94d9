-- ===== src/Crawler/EventLog/Running.antt =====
-- crawler_wineventlog_windows.go: `Init` and `Run`, round after round.
pub mod Grown
use dhound_agent.Base.{
  ℕ, List, [], ◌∷◌, ◌++◌, Option, none, some, ltb, if◌then◌else◌, length, Bytes, codes,
}
use dhound_agent.Events.{SecurityEventsContainer, SourceState}
use dhound_agent.Regexp.{Regexp}
use dhound_agent.Config.{RuleConfig}
use dhound_agent.Crawler.EventLog.{LogView, run_once}

-- The fields of an item that do not depend on a rule.
abbrev pub fields_expression : Bytes
fields_expression =
    codes
      "<EventID(.*?)>(?P<eventid>.*?)<\\/EventID>|<TimeCreated SystemTime='(?P<_eventTime>.*?)'|<EventRecordID(.*?)>(?P<recordid>.*?)<\\/EventRecordID>"

module _ (regexp : Regexp) (parse_time : Bytes → Option ℕ) (uint_bits : ℕ) where
  open regexp use {Regex, compile}

  -- `none` leaves the crawler idle: it has no rules, or the expression does not compile.
  unfoldable pub init : List (RuleConfig Regex) → Option Regex
  init rules = if ltb (length rules) 1 then none else compile fields_expression

  pub run_rounds :
      Regex
      → List (RuleConfig Regex)
      → List (Bytes → LogView)
      → List SourceState
      → List SourceState × List SecurityEventsContainer
  run_rounds win_event_fields_regex rules [] sources = (sources, [])
  run_rounds win_event_fields_regex rules (views ∷ rest) sources =
      let (after, sent) =
        run_once regexp win_event_fields_regex parse_time uint_bits views rules sources in
      let (last, more) = run_rounds win_event_fields_regex rules rest after in (last, sent ++ more)

  -- `Init` and `Run`, with the answers of the system in each round.
  pub run :
      List (RuleConfig Regex)
      → List (Bytes → LogView)
      → List SourceState
      → List SourceState × List SecurityEventsContainer
  unfolding init run_rounds
  run rules rounds sources = elim (init rules) [
    | none ↦ (sources, [])
    | some win_event_fields_regex ↦ run_rounds win_event_fields_regex rules rounds sources
  ]
