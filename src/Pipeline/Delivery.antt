-- ===== src/Pipeline/Delivery.antt =====
-- What the state of the sources says was read is safe.
use dhound_agent.Base.{
  List, [], ◌∷◌, ◌++◌, ◌≡◌, refl, ◌∙◌, ap, sym, All, map, append-nil, map-append,
}
use dhound_agent.Events.{SecurityEventsContainer}
use dhound_agent.IpEnricher.{IpEnricher}
use dhound_agent.Queue.{Queue, to_list}
use dhound_agent.Queue.Fifo.{concat, concat-append}
use dhound_agent.HttpGateway.{HttpGateway, Json, World, Batch, net_file}
use dhound_agent.HttpGateway.Sending.{Outside, send_to_server, run}
use dhound_agent.HttpGateway.Sending.Repeats.{run_none, run-snoc}
use dhound_agent.HttpGateway.Sending.Durable.{
  HaveOwnSeconds, MessageIsSafe, run_accounts_for_messages,
}
use dhound_agent.SystemState.{Codec, StateFile, written}
use dhound_agent.Pipeline.{start, Agent, take_message, Step, Steps}

abbrev pub all_containers : List Batch → List SecurityEventsContainer
all_containers batches = concat (map (λ b. b.containers) batches)

all_containers-snoc :
    (sent : List Batch) (b : Batch)
    → all_containers (sent ++ b ∷ []) ≡ all_containers sent ++ b.containers
all_containers-snoc sent b =
    ap concat (map-append (λ b. b.containers) sent (b ∷ []))
    ∙ concat-append (map (λ b. b.containers) sent) (b.containers ∷ [])
    ∙ ap (◌++◌ (all_containers sent)) (append-nil b.containers)

module _ (json : Json) (outside : Outside json) (codec : Codec) (gate : HttpGateway) where
  open outside use {write_outcome}

  -- The world is what the gateway makes of the batches sent, and `Sync` has taken their containers
  -- but for those that the gateway still holds.
  abbrev pub IsTracked : World json.Content → Agent json outside codec gate → Type 0
  IsTracked world s =
      (s.world ≡ (run json outside gate s.sent world).0)
      × (all_containers s.sent ≡ s.synced ++ concat (to_list s.to_state))

  step-IsTracked :
      (world : World json.Content) {s t : Agent json outside codec gate}
      → Step json outside codec gate s t
      → IsTracked world s
      → IsTracked world t
  unfolding take_message
  step-IsTracked world (Step.packet dns) i = i
  step-IsTracked world (Step.enriched c rest h k) i = i
  step-IsTracked world (Step.queued c now flush_time h k) i = i
  step-IsTracked world (Step.ticked now flush_time h) i = i
  step-IsTracked world {s} (Step.posted batch h k) (same, taken) = (
    ap (λ w. (send_to_server json outside gate batch w).1) same
        ∙ sym (run-snoc json outside gate s.sent batch world),
    all_containers-snoc s.sent batch
        ∙ ap (λ l. l ++ batch.containers) taken
        ∙ rw h (simp append-nil),
  )
  step-IsTracked world {s} (Step.synced batch now outcome h) (same, taken) =
      (same, taken ∙ rw h (simp append-nil))

  steps-IsTracked :
      (world : World json.Content) {s t : Agent json outside codec gate}
      → Steps json outside codec gate s t
      → IsTracked world s
      → IsTracked world t
  steps-IsTracked world Steps.stay i = i
  steps-IsTracked world (Steps.later steps step) i =
      step-IsTracked world step (steps-IsTracked world steps i)

  -- From the start of the agent on, however its parts take turns, if the batches sent so far have
  -- seconds of their own for their files, and these files can be written: the containers that `Sync`
  -- has taken, then those that the gateway holds, are those of the batches sent, in order; and for
  -- the message of each of these batches that has events one of three holds. It was posted and
  -- stands in its file. Or it was posted and got a final reply: status 200 with success, or with
  -- error code 1, after which the agent gives the events up. Or it was posted and later posted
  -- again, and that time the reply had status 200.
  pub synced_is_safe :
      (crawled : List SecurityEventsContainer) (enricher : IpEnricher) (queue : Queue)
      (world : World json.Content) (state_file : StateFile codec.Content)
      {s : Agent json outside codec gate}
      → Steps json outside codec gate (start crawled enricher queue world state_file) s
      → HaveOwnSeconds s.sent
      → All (λ b. write_outcome (net_file b.file_time) ≡ written) s.sent
      → (all_containers s.sent ≡ s.synced ++ concat (to_list s.to_state))
        × All (MessageIsSafe json outside gate s.world) s.sent
  unfolding start
  synced_is_safe crawled enricher queue world state_file {s} steps own writes =
      let (same, taken) =
        steps-IsTracked world steps (sym (run_none json outside gate world), refl) in
      (taken, rw same (run_accounts_for_messages json outside gate s.sent world own writes))
