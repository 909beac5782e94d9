-- ===== src/Pipeline.antt =====
-- The goroutines that program.go starts, and the channels between them: a crawler sends to the
-- enricher, the enricher to the queue, the queue to the gateway, and the gateway to the state of
-- the sources. The channels have no buffer, so that what a goroutine has handled and not yet passed
-- on is held by it: a goroutine that holds something takes nothing else. The
-- enricher is the one of ip_enricher_linux.go, with its steps taken as a whole.
pub mod Order
pub mod Delivery
pub mod Finish
pub mod Positions
pub mod Resuming
pub mod Restart
pub mod EndToEnd
pub mod Samples
mod Examples
use dhound_agent.Base.{ℕ, List, [], ◌∷◌, ◌++◌, ◌≡◌, Option, none, some, map}
use dhound_agent.Events.{SecurityEventsContainer}
use dhound_agent.IpEnricher.{IpEnricher, Dns, listen, enrich}
use dhound_agent.Queue
use dhound_agent.Queue.{Queue, Message}
use dhound_agent.HttpGateway.{HttpGateway, Json, World, Batch}
use dhound_agent.HttpGateway.Sending.{Outside, send_to_server}
use dhound_agent.SystemState
use dhound_agent.SystemState.{Codec, StateFile, WriteOutcome, Timed}

-- What the crawlers still have to send, the parts and what each of them holds, the files, and, as a
-- record of the past, the batches that went to the server and the containers that `Sync` has taken.
pub record System (N C : Type 0) : Type 0 where
  pub crawled : List SecurityEventsContainer
  pub enricher : IpEnricher
  pub to_queue : Option SecurityEventsContainer
  pub queue : Queue
  pub to_gate : Option (List SecurityEventsContainer)
  pub to_state : Option (List SecurityEventsContainer)
  pub world : World N
  pub state_file : StateFile C
  pub sent : List Batch
  pub synced : List SecurityEventsContainer

-- The system that `InternalRun` sets up, for these containers to come.
unfoldable pub start :
    {N C : Type 0}
    → List SecurityEventsContainer
    → IpEnricher
    → Queue
    → World N
    → StateFile C
    → System N C
start crawled enricher queue world state_file = record {
  crawled = crawled;
  enricher = enricher;
  to_queue = none;
  queue = queue;
  to_gate = none;
  to_state = none;
  world = world;
  state_file = state_file;
  sent = [];
  synced = [];
}

module _ (json : Json) (outside : Outside json) (codec : Codec) (gate : HttpGateway) where
  abbrev pub Agent : Type 0
  Agent = System json.Content codec.Content

  -- The queue takes a message.
  unfoldable pub take_message : Message → Agent → Agent
  take_message m s =
      let (queue, batch) = Queue.step m s.queue in record s { queue = queue; to_gate = batch }

  -- One goroutine does one thing.
  pub data Step (s : Agent) : Agent → Type 0 where
    packet : (dns : Dns) → Step s (record s { enricher = listen dns s.enricher })
    enriched :
        (c : SecurityEventsContainer) (rest : List SecurityEventsContainer)
        → s.to_queue ≡ none
        → s.crawled ≡ c ∷ rest
        → Step s (record s {
          crawled = rest;
          to_queue = some (enrich c s.enricher).0;
          enricher = (enrich c s.enricher).1;
        })
    queued :
        (c : SecurityEventsContainer) (now flush_time : ℕ)
        → s.to_gate ≡ none
        → s.to_queue ≡ some c
        → Step s (
            take_message
              (record { container = some c; now = now; flush_time = flush_time })
              (record s { to_queue = none }))
    ticked :
        (now flush_time : ℕ)
        → s.to_gate ≡ none
        → Step s (take_message (record { container = none; now = now; flush_time = flush_time }) s)
    posted :
        (batch : Batch)
        → s.to_state ≡ none
        → s.to_gate ≡ some batch.containers
        → Step s (record s {
          to_gate = none;
          to_state = some batch.containers;
          world = (send_to_server json outside gate batch s.world).1;
          sent = s.sent ++ batch ∷ [];
        })
    synced :
        (batch : List Timed) (now : ℕ) (outcome : WriteOutcome codec.Content)
        → s.to_state ≡ some (map (λ e. e.container) batch)
        → Step s (record s {
          to_state = none;
          state_file = SystemState.sync codec now outcome batch s.state_file;
          synced = s.synced ++ map (λ e. e.container) batch;
        })

  pub data Steps (s : Agent) : Agent → Type 0 where
    stay : Steps s s
    later : {t u : Agent} → Steps s t → Step t u → Steps s u
