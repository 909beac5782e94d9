-- ===== src/Crawler/RunOnce/Grown.antt =====
-- crawler_files.go: a round leaves the states of the list where they are, and their ids distinct.
use dhound_agent.Base.{ℕ, List, [], ◌∷◌, refl, Bytes}
use dhound_agent.Events.{SourceState}
use dhound_agent.SystemState.Grown.{IsGrown, modify-IsGrown, find-IsGrown}
use dhound_agent.Regexp.{Regexp}
use dhound_agent.Dates.{Time}
use dhound_agent.Config.{RuleConfig}
use dhound_agent.Crawler.RunOnce.{FileView, run_once}
use dhound_agent.Crawler.RunOnce.Outcomes.{
  Writes, kept, written, moved, Outcome, skipped, looked_up, crawl_file-Outcome,
}

module _ (regexp : Regexp) (first : List SourceState) where
  open regexp use {Regex}

  Writes-IsGrown :
      {sources after : List SourceState} {pointer : ℕ}
      → Writes sources pointer after
      → IsGrown first sources
      → IsGrown first after
  Writes-IsGrown (kept e) h = rw e h
  Writes-IsGrown (written line offset e) h =
      rw e (modify-IsGrown first (moved line offset) (λ old. refl) _ _ h)

  Outcome-IsGrown :
      {id : Bytes} {sources after : List SourceState}
      → Outcome id sources after
      → IsGrown first sources
      → IsGrown first after
  Outcome-IsGrown (skipped e) h = rw e h
  Outcome-IsGrown {id} {sources} (looked_up w) h =
      Writes-IsGrown w (find-IsGrown first id sources h)

  pub run_once-IsGrown :
      (time : Time) (files : List (Bytes × List (RuleConfig Regex) × FileView))
      (sources : List SourceState)
      → IsGrown first sources
      → IsGrown first (run_once regexp time files sources).0
  unfolding run_once
  run_once-IsGrown time [] sources h = h
  run_once-IsGrown time ((path, rules, view) ∷ rest) sources h =
      run_once-IsGrown time rest _
        (Outcome-IsGrown (crawl_file-Outcome regexp time path rules view sources) h)
