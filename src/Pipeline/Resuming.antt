-- ===== src/Pipeline/Resuming.antt =====
-- What the state file says while the agent runs, and with that where the crawlers resume.
use dhound_agent.Base.{
  ℕ, ◌+◌, ◌<◌, ◌≤◌, List, [], ◌∷◌, ◌++◌, ◌≡◌, refl, ◌∙◌, ap, sym, Option, none, some, arith, All,
  map, Bytes, lt→ltb, append-nil,
}
use dhound_agent.Events.{SecurityEventsContainer, SourceState}
use dhound_agent.IpEnricher.{IpEnricher}
use dhound_agent.Queue
use dhound_agent.Queue.{Queue}
use dhound_agent.HttpGateway.{HttpGateway, Json, World}
use dhound_agent.HttpGateway.Sending.{Outside}
use dhound_agent.SystemState.{
  Timed, thirty_days, Codec, StateFile, missing, read_original_state, written, sync,
}
use dhound_agent.SystemState.Lookup.{lookup_source, latest, after_batch}
use dhound_agent.SystemState.Expiry.{only_fresh}
use dhound_agent.SystemState.Resume.{IsSound, sync-IsSound, lookup_source-sync}
use dhound_agent.Pipeline.{start, Agent, take_message, Step, Steps}
use dhound_agent.Pipeline.Order.{held, all_arrived, steps_order}
use dhound_agent.Pipeline.Positions.{
  last_position-as_crawled, last_position, position_of, or_before, last_position-append,
  last_position-latest, position_of-after_batch,
}

-- An entry that was updated at `since` or later.
abbrev IsSince : ℕ → Option SourceState → Type 0
IsSince since none = Unit {0}
IsSince since (some s) = since ≤ s.last_updated_time_utc_number

latest-IsSince :
    (since : ℕ) (source_id : Bytes) (batch : List Timed) (old : Option SourceState)
    → All (λ e. since ≤ e.time) batch
    → IsSince since old
    → IsSince since (after_batch (latest source_id batch) old)
latest-IsSince since source_id [] old h k = k
latest-IsSince since source_id (e ∷ rest) old h k =
    ground (arith, latest-IsSince since source_id rest old h.1 k)

only_fresh-IsSince :
    (since now : ℕ) (o : Option SourceState)
    → IsSince since o
    → now < since + thirty_days
    → only_fresh now o ≡ o
only_fresh-IsSince since now none h k = refl
only_fresh-IsSince since now (some s) h k =
    rw (lt→ltb now (s.last_updated_time_utc_number + thirty_days) (omega arith)) refl

module _ (json : Json) (outside : Outside json) (codec : Codec) (gate : HttpGateway)
    (since : ℕ) where
  open codec use {Content, marshal, unmarshal}

  -- A round of `Sync` writes the file whole, on times that are less than thirty days after `since`.
  abbrev pub IsWritten :
      {s t : Agent json outside codec gate} → Step json outside codec gate s t → Type 0
  IsWritten (Step.packet dns) = Unit {0}
  IsWritten (Step.enriched c rest h k) = Unit {0}
  IsWritten (Step.queued c now flush_time h k) = Unit {0}
  IsWritten (Step.ticked now flush_time h) = Unit {0}
  IsWritten (Step.posted batch h k) = Unit {0}
  IsWritten (Step.synced batch now outcome h) =
      (outcome ≡ written) × (All (λ e. since ≤ e.time) batch × (now < since + thirty_days))

  abbrev pub AreWritten :
      {s t : Agent json outside codec gate} → Steps json outside codec gate s t → Type 0
  AreWritten Steps.stay = Unit {0}
  AreWritten (Steps.later steps step) = AreWritten steps × IsWritten step

  -- What an agent that starts in these thirty days restores for an id.
  abbrev Restores : StateFile Content → Bytes → Option SourceState → Type 0
  Restores file source_id o =
      (now : ℕ)
      → now < since + thirty_days
      → lookup_source source_id (read_original_state codec now file) ≡ o

  abbrev IsCurrent : Agent json outside codec gate → Type 0
  IsCurrent s =
      IsSound codec s.state_file
      × ((source_id : Bytes)
          → (o : Option SourceState) × (Restores s.state_file source_id o
              × (IsSince since o × (position_of o ≡ last_position source_id s.synced))))

  module _
      (codec_round_trips : (sources : List SourceState)
        → unmarshal (marshal sources) ≡ sources) where
    synced-IsCurrent :
        (batch : List Timed) (now : ℕ) (s : Agent json outside codec gate)
        → All (λ e. since ≤ e.time) batch
        → now < since + thirty_days
        → IsCurrent s
        → IsCurrent (record s {
          to_state = none;
          state_file = sync codec now written batch s.state_file;
          synced = s.synced ++ map (λ e. e.container) batch;
        })
    unfolding sync
    synced-IsCurrent [] now s times k (sound, current) = (
      sound,
      λ source_id.
          let (o, (restores, (from, same))) = current source_id in
          (o, (restores, (from, same ∙ ap (last_position source_id) (sym (append-nil s.synced))))),
    )
    synced-IsCurrent (e ∷ rest) now s times k (sound, current) = (
      sync-IsSound codec now (e ∷ rest) s.state_file sound (codec_round_trips _),
      λ source_id.
          let (o, (restores, (from, same))) = current source_id in
          let o' = after_batch (latest source_id (e ∷ rest)) o in
          let from' = latest-IsSince since source_id (e ∷ rest) o times from in
          (
            o',
            (
              λ later k'.
                  lookup_source-sync codec source_id now later e rest s.state_file sound
                    (codec_round_trips _)
                  ∙ ap (λ old. only_fresh later (after_batch (latest source_id (e ∷ rest)) old))
                      (restores now k)
                  ∙ only_fresh-IsSince since later o' from' k',
              (
                from',
                position_of-after_batch (latest source_id (e ∷ rest)) o
                    ∙ ap (λ p. or_before p (position_of o))
                        (sym (last_position-latest source_id (e ∷ rest)))
                    ∙ ap (or_before (last_position source_id (map (λ e. e.container) (e ∷ rest))))
                        same
                    ∙ sym (
                        last_position-append source_id s.synced
                          (map (λ e. e.container) (e ∷ rest))),
              ),
            ),
          ),
    )

    step-IsCurrent :
        {s t : Agent json outside codec gate} (step : Step json outside codec gate s t)
        → IsWritten step
        → IsCurrent s
        → IsCurrent t
    unfolding take_message
    step-IsCurrent (Step.packet dns) w i = i
    step-IsCurrent (Step.enriched c rest h k) w i = i
    step-IsCurrent (Step.queued c now flush_time h k) w i = i
    step-IsCurrent (Step.ticked now flush_time h) w i = i
    step-IsCurrent (Step.posted batch h k) w i = i
    step-IsCurrent {s} (Step.synced batch now outcome h) (wrote, (times, k)) i =
        rw wrote (synced-IsCurrent batch now s times k i)

    steps-IsCurrent :
        {s t : Agent json outside codec gate} (steps : Steps json outside codec gate s t)
        → AreWritten steps
        → IsCurrent s
        → IsCurrent t
    steps-IsCurrent Steps.stay w i = i
    steps-IsCurrent (Steps.later steps step) (w, v) i =
        step-IsCurrent step v (steps-IsCurrent steps w i)

    -- The agent starts without a state file, its parts take turns in any way, the encoder's output is
    -- decoded as it was encoded, and every round of `Sync` writes the file whole, on times from `since` on
    -- and less than thirty days after it. Then an agent that starts in these thirty days restores, for
    -- every id, exactly the offset and the line of the last container with that id that `Sync` has
    -- taken, and nothing for an id without one.
    pub state_file_is_current :
        (crawled : List SecurityEventsContainer) (enricher : IpEnricher) (queue : Queue)
        (world : World json.Content) {s : Agent json outside codec gate}
        (steps : Steps json outside codec gate (start crawled enricher queue world missing) s)
        (source_id : Bytes) (now : ℕ)
        → AreWritten steps
        → now < since + thirty_days
        → position_of (lookup_source source_id (read_original_state codec now s.state_file))
          ≡ last_position source_id s.synced
    unfolding start read_original_state lookup_source
    state_file_is_current crawled enricher queue world steps source_id now w k =
        let (sound, current) =
          steps-IsCurrent steps w (tt, λ id. (none, ((λ later l. refl), (tt, refl)))) in
        let (o, (restores, (from, same))) = current source_id in
        ap position_of (restores now k) ∙ same

    -- The agent starts without a state file and with an empty queue, its parts take turns in any way,
    -- the encoder's output is decoded as it was encoded, and every round of `Sync` writes the file whole,
    -- on times from `since` on and less than thirty days after it. Then, once all containers of the
    -- crawlers have arrived, so that no part holds any, an agent that starts in these thirty days
    -- restores for every id exactly the offset and the line of the last container with that id that
    -- the crawlers made, and nothing for an id without one.
    pub crawled_is_restored :
        (crawled : List SecurityEventsContainer) (enricher : IpEnricher) (idle_timeout clock : ℕ)
        (world : World json.Content) {s : Agent json outside codec gate}
        (steps : Steps json outside codec gate
          (start crawled enricher (Queue.init idle_timeout clock) world missing)
          s)
        (source_id : Bytes) (now : ℕ)
        → AreWritten steps
        → now < since + thirty_days
        → s.crawled ≡ []
        → held s ≡ []
        → position_of (lookup_source source_id (read_original_state codec now s.state_file))
          ≡ last_position source_id crawled
    unfolding start Queue.init
    crawled_is_restored crawled enricher idle_timeout clock world {s} steps source_id now w k
          none_left none_held =
        state_file_is_current crawled enricher (Queue.init idle_timeout clock) world steps source_id
          now w k
        ∙ sym (last_position-as_crawled source_id s.synced)
        ∙ ap (last_position source_id)
            (sym (all_arrived s none_left none_held) ∙ steps_order json outside codec gate steps)
        ∙ last_position-as_crawled source_id crawled
