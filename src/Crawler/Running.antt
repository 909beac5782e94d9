-- ===== src/Crawler/Running.antt =====
-- crawler_files.go: `Init` and `Run`, round after round.
pub mod Unique
mod Examples
use dhound_agent.Base.{ℕ, List, [], ◌∷◌, ◌++◌, ltb, if◌then◌else◌, length, Bytes, Dict}
use dhound_agent.Events.{SecurityEventsContainer, SourceState}
use dhound_agent.Regexp.{Regexp}
use dhound_agent.Dates.{Time}
use dhound_agent.Config.{RuleConfig}
use dhound_agent.Crawler.FileList.{get_files_list_map}
use dhound_agent.Crawler.RunOnce.{FileView, run_once}

-- What the system says during one round: the files of a pattern, each file, and the clock.
pub record Round : Type 0 where
  pub glob : Bytes → List Bytes
  pub views : Bytes → FileView
  pub time : Time

module _ (regexp : Regexp) (separator : ℕ) where
  open regexp use {Regex}

  pub with_views :
      (Bytes → FileView)
      → Dict (List (RuleConfig Regex))
      → List (Bytes × List (RuleConfig Regex) × FileView)
  with_views views [] = []
  with_views views ((path, rules) ∷ rest) = (path, rules, views path) ∷ with_views views rest

  -- `_RunOnce` with its list of files.
  unfoldable pub run_round :
      List (RuleConfig Regex)
      → Round
      → List SourceState
      → List SourceState × List SecurityEventsContainer
  unfolding with_views
  run_round rules round sources =
      run_once regexp round.time
        (with_views round.views (get_files_list_map regexp separator round.glob rules)) sources

  pub run_rounds :
      List (RuleConfig Regex)
      → List Round
      → List SourceState
      → List SourceState × List SecurityEventsContainer
  unfolding run_round
  run_rounds rules [] sources = (sources, [])
  run_rounds rules (round ∷ rest) sources =
      let (after, sent) = run_round rules round sources in
      let (last, more) = run_rounds rules rest after in (last, sent ++ more)

  -- Without rules `Init` leaves the crawler idle.
  pub run :
      List (RuleConfig Regex)
      → List Round
      → List SourceState
      → List SourceState × List SecurityEventsContainer
  unfolding run_rounds
  run rules rounds sources =
      if ltb (length rules) 1 then (sources, []) else run_rounds rules rounds sources
