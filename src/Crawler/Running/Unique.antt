-- ===== src/Crawler/Running/Unique.antt =====
-- crawler_files.go: the crawler keeps the ids of the sources distinct.
use dhound_agent.Base.{sym, append-nil, ℕ, List, [], ◌∷◌, ltb, length, Bool-cases, inl, inr}
use dhound_agent.Events.{SourceState}
use dhound_agent.SystemState.Expiry.{IsUnique}
use dhound_agent.SystemState.Grown.{IsGrown}
use dhound_agent.Regexp.{Regexp}
use dhound_agent.Config.{RuleConfig}
use dhound_agent.Crawler.RunOnce.Grown.{run_once-IsGrown}
use dhound_agent.Crawler.Running.{Round, run_round, run_rounds, run}

module _ (regexp : Regexp) (first : List SourceState) where
  open regexp use {Regex}

  pub run_round-IsGrown :
      (separator : ℕ) (rules : List (RuleConfig Regex)) (round : Round) (sources : List SourceState)
      → IsGrown first sources
      → IsGrown first (run_round regexp separator rules round sources).0
  unfolding run_round
  run_round-IsGrown separator rules round sources h =
      run_once-IsGrown regexp first round.time _ sources h

  run_rounds-IsGrown :
      (separator : ℕ) (rules : List (RuleConfig Regex)) (rounds : List Round)
      (sources : List SourceState)
      → IsGrown first sources
      → IsGrown first (run_rounds regexp separator rules rounds sources).0
  unfolding run_rounds
  run_rounds-IsGrown separator rules [] sources h = h
  run_rounds-IsGrown separator rules (round ∷ rest) sources h =
      run_rounds-IsGrown separator rules rest _ (run_round-IsGrown separator rules round sources h)

module _ (regexp : Regexp) where
  open regexp use {Regex}

  -- Over any number of rounds, whatever the system says in each, no two states of the crawler's list
  -- have one id, if that is so at the start.
  run-IsUnique :
      (separator : ℕ) (rules : List (RuleConfig Regex)) (rounds : List Round)
      (sources : List SourceState)
      → IsUnique sources
      → IsUnique (run regexp separator rules rounds sources).0
  unfolding run
  run-IsUnique separator rules rounds sources h = elim (Bool-cases (ltb (length rules) 1)) [
    | inl e ↦ rw e h
    | inr e ↦
        rw e
          (run_rounds-IsGrown regexp sources separator rules rounds sources
            (h, [], sym (append-nil _))).0
  ]
