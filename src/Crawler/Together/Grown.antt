-- ===== src/Crawler/Together/Grown.antt =====
-- program.go: what the two crawlers leave alone in the list that they share.
use dhound_agent.Base.{
  ℕ, List, [], ◌∷◌, ◌++◌, ◌≡◌, Option, Bytes, ltb, length, sym, append-nil, Bool-cases,
  Option-cases, inl, inr,
}
use dhound_agent.Events.{SourceState}
use dhound_agent.SystemState.Expiry.{IsUnique}
use dhound_agent.SystemState.Grown.{IsGrown, ids}
use dhound_agent.Regexp.{Regexp}
use dhound_agent.Crawler.EventLog.Running.{init}
use dhound_agent.Crawler.EventLog.Running.Grown.{run_once-IsGrown}
use dhound_agent.Crawler.Running.Unique.{run_round-IsGrown}
use dhound_agent.Crawler.Together.{Turn, files, event_logs, Crawlers, take_turn, take_turns}

module _ (regexp : Regexp) (separator : ℕ) (parse_time : Bytes → Option ℕ) (uint_bits : ℕ) where
  open regexp use {Regex}

  module _ (first : List SourceState) (crawlers : Crawlers Regex) where
    take_turn-IsGrown :
        (turn : Turn) (sources : List SourceState)
        → IsGrown first sources
        → IsGrown first (take_turn regexp separator parse_time uint_bits crawlers turn sources).0
    unfolding take_turn
    take_turn-IsGrown (files round) sources h =
        elim (Bool-cases (ltb 0 (length crawlers.file_rules))) [
          | inl e ↦
              rw e (run_round-IsGrown regexp first separator crawlers.file_rules round sources h)
          | inr e ↦ rw e h
        ]
    take_turn-IsGrown (event_logs views) sources h =
        elim (Option-cases (init regexp parse_time uint_bits crawlers.win_event_rules)) [
          | inl e ↦ rw (e, take_turn) h
          | inr (fields, e) ↦
              rw (e, take_turn)
                (run_once-IsGrown regexp first parse_time uint_bits fields views
                  crawlers.win_event_rules sources h)
        ]

    take_turns-IsGrown :
        (turns : List Turn) (sources : List SourceState)
        → IsGrown first sources
        → IsGrown first (take_turns regexp separator parse_time uint_bits crawlers turns sources).0
    unfolding take_turns
    take_turns-IsGrown [] sources h = h
    take_turns-IsGrown (turn ∷ rest) sources h =
        take_turns-IsGrown rest _ (take_turn-IsGrown turn sources h)

  -- However the rounds of the two crawlers follow one another, and whatever the system says in each: if
  -- no two states of the list that they share have one id at the start, then none have afterwards, and
  -- each state of the start has its id at its place still, new ones coming behind.
  pub take_turns_keep_places :
      (crawlers : Crawlers Regex) (turns : List Turn) (sources : List SourceState)
      → IsUnique sources
      → IsUnique (take_turns regexp separator parse_time uint_bits crawlers turns sources).0
        × (more : List Bytes) × (ids
              (take_turns regexp separator parse_time uint_bits crawlers turns sources).0
            ≡ ids sources ++ more)
  take_turns_keep_places crawlers turns sources h =
      take_turns-IsGrown sources crawlers turns sources (h, [], sym (append-nil (ids sources)))
