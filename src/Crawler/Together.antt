-- ===== src/Crawler/Together.antt =====
-- program.go: the two crawlers that `InternalRun` starts share one list of sources. Their rounds come in
-- any order, each as a whole.
pub mod Grown
mod Examples
use dhound_agent.Base.{
  ℕ, List, [], ◌∷◌, ◌++◌, Option, none, some, ltb, if◌then◌else◌, length, Bytes,
}
use dhound_agent.Events.{SecurityEventsContainer, SourceState}
use dhound_agent.Regexp.{Regexp}
use dhound_agent.Config.{RuleConfig}
use dhound_agent.Crawler.EventLog.{LogView}
unfoldable use dhound_agent.Crawler.EventLog.{run_once}
unfoldable use dhound_agent.Crawler.EventLog.Running.{init}
use dhound_agent.Crawler.Running.{Round}
unfoldable use dhound_agent.Crawler.Running.{run_round}

-- A round of the file crawler or of the event log crawler, with what the system says in it.
pub data Turn : Type 0 where
  files : Round → Turn
  event_logs : (Bytes → LogView) → Turn

-- The rules that each crawler is given.
pub record Crawlers (R : Type 0) : Type 0 where
  pub file_rules : List (RuleConfig R)
  pub win_event_rules : List (RuleConfig R)

module _ (regexp : Regexp) (separator : ℕ) (parse_time : Bytes → Option ℕ) (uint_bits : ℕ) where
  open regexp use {Regex}

  -- A crawler without rules is not started, and one whose `Init` fails does nothing.
  pub take_turn :
      Crawlers Regex → Turn → List SourceState → List SourceState × List SecurityEventsContainer
  unfolding run_round run_once init
  take_turn crawlers (files round) sources =
      if ltb 0 (length crawlers.file_rules)
      then run_round regexp separator crawlers.file_rules round sources
      else (sources, [])
  take_turn crawlers (event_logs views) sources =
      elim (init regexp parse_time uint_bits crawlers.win_event_rules) [
        | none ↦ (sources, [])
        | some fields ↦
            run_once regexp fields parse_time uint_bits views crawlers.win_event_rules sources
      ]

  pub take_turns :
      Crawlers Regex
      → List Turn
      → List SourceState
      → List SourceState × List SecurityEventsContainer
  unfolding take_turn
  take_turns crawlers [] sources = (sources, [])
  take_turns crawlers (turn ∷ rest) sources =
      let (after, sent) = take_turn crawlers turn sources in
      let (last, more) = take_turns crawlers rest after in (last, sent ++ more)
