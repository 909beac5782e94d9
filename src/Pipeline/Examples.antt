-- ===== src/Pipeline/Examples.antt =====
-- A container's way through the agent, while the server is down.
use dhound_agent.Base.{arith, ◌*◌, List, [], ◌∷◌, ◌++◌, ◌≡◌, refl, All, codes, map}
use dhound_agent.Events.{SecurityEventsContainer, SourceState}
use dhound_agent.Samples.{event_at}
use dhound_agent.IpEnricher.{enrich}
use dhound_agent.Queue
use dhound_agent.Queue.{Queue, second, to_list}
use dhound_agent.Queue.Fifo.{concat}
use dhound_agent.HttpGateway.{ServerRequestMessage}
use dhound_agent.HttpGateway.Sending.Durable.{MessageIsSafe}
use dhound_agent.SystemState.{read_original_state, missing, written}
use dhound_agent.Pipeline.{System, start, take_message, Step, Steps}
use dhound_agent.Pipeline.Samples.{plain, down, codec, gate, listener}
use dhound_agent.Pipeline.Order.{as_crawled, held, all_of, steps_order}
use dhound_agent.Pipeline.Delivery.{all_containers, synced_is_safe}
use dhound_agent.Pipeline.Finish.{can_finish}
use dhound_agent.Pipeline.Resuming.{crawled_is_restored}
use dhound_agent.Pipeline.Positions.{position_of, last_position}
use dhound_agent.SystemState.Lookup.{lookup_source}

abbrev container : SecurityEventsContainer
container = record {
  source_id = codes "1_2";
  offset = 40;
  line = 3;
  source = codes "/var/log/auth.log";
  ip_to_service_map = [];
  security_events = event_at 1_500_000_000 (codes "login") ∷ [];
}

abbrev first : System ServerRequestMessage (List SourceState)
first =
    start (container ∷ []) listener (Queue.init (60 * second) 0) (record { files = []; posts = [] })
      missing

-- The first message makes the queue send.
abbrev arrived :
    (s : System ServerRequestMessage (List SourceState)) × Steps plain down codec gate first s
unfolding start Queue.step Queue.init take_message enrich
arrived = (
  _,
  Steps.later
      (Steps.later
        (Steps.later (Steps.later Steps.stay (Step.enriched container [] refl refl))
          (Step.queued container second second refl refl))
        (Step.posted (record { containers = container ∷ []; now = 2; file_time = 2 }) refl refl))
      (Step.synced (record { container = container; time = 3 } ∷ []) 3 written refl),
)

steps_order_example : all_of arrived.0 ≡ all_of first
steps_order_example = steps_order plain down codec gate arrived.1

synced_is_safe_example :
    (all_containers arrived.0.sent ≡ arrived.0.synced ++ concat (to_list arrived.0.to_state))
    × All (MessageIsSafe plain down gate arrived.0.world) arrived.0.sent
unfolding arrived
synced_is_safe_example =
    synced_is_safe plain down codec gate (container ∷ []) listener (Queue.init (60 * second) 0)
      (record { files = []; posts = [] }) missing arrived.1 (tt, tt) (refl, tt)

can_finish_example :
    (t : System ServerRequestMessage (List SourceState)) × Steps plain down codec gate first t
    × (held t ≡ [])
    × (t.crawled ≡ [])
    × (map as_crawled t.synced ≡ all_of first)
can_finish_example = can_finish plain down codec gate first

all_arrived : arrived.0.synced ≡ container ∷ []
unfolding arrived
all_arrived = refl

-- The one container has arrived. Thirty days are counted from second 3, at which it was written.
crawled_is_restored_example :
    position_of (lookup_source (codes "1_2") (read_original_state codec 100 arrived.0.state_file))
    ≡ last_position (codes "1_2") (container ∷ [])
unfolding arrived
crawled_is_restored_example =
    crawled_is_restored plain down codec gate 3 (λ sources. refl) (container ∷ []) listener
      (60 * second) 0 (record { files = []; posts = [] }) arrived.1 (codes "1_2") 100
      ((((tt, tt), tt), tt), (refl, ((omega arith, tt), omega arith))) (omega arith) refl refl
