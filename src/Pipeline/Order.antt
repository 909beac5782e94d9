-- ===== src/Pipeline/Order.antt =====
-- What is on its way through the agent, and in which order.
use dhound_agent.Base.{
  List, [], ◌++◌, ◌≡◌, refl, ◌∙◌, ap, sym, none, some, map, append_assoc, append-nil, map-append,
}
use dhound_agent.Events.{SecurityEventsContainer}
use dhound_agent.IpEnricher.Handover.{enrich_same}
use dhound_agent.Queue.{Message, to_list}
use dhound_agent.Queue.Fifo.{concat, step_order}
use dhound_agent.HttpGateway.{HttpGateway, Json}
use dhound_agent.HttpGateway.Sending.{Outside}
use dhound_agent.SystemState.{Codec}
use dhound_agent.Pipeline.{System, Agent, take_message, Step, Steps}

-- A container without the names that the enricher adds.
abbrev pub as_crawled : SecurityEventsContainer → SecurityEventsContainer
as_crawled c = record c { ip_to_service_map = [] }

-- What the parts hold, the first that was read first.
abbrev pub held : {N C : Type 0} → System N C → List SecurityEventsContainer
held s =
    concat (to_list s.to_state) ++ concat (to_list s.to_gate) ++ s.queue.items ++ to_list s.to_queue

-- All that was read or is to be read.
abbrev pub all_of : {N C : Type 0} → System N C → List SecurityEventsContainer
all_of s = map as_crawled (s.synced ++ held s ++ s.crawled)

-- Once nothing is held or left to send, all has arrived.
pub all_arrived :
    {N C : Type 0} (s : System N C)
    → s.crawled ≡ []
    → held s ≡ []
    → all_of s ≡ map as_crawled s.synced
all_arrived s none_left none_held =
    ap (map as_crawled) (rw (none_held, none_left) (simp append-nil))

abbrev four {ℓ} : {A : Type ℓ} → List A → List A → List A → List A → List A
four state gate items queue = state ++ gate ++ items ++ queue

-- A step of the queue, between what was read before and what comes behind.
regroup {ℓ} :
    {A : Type ℓ} (synced state gate items items' queue crawled : List A)
    → gate ++ items' ≡ items
    → synced ++ four state gate items' queue ++ crawled
      ≡ synced ++ four state [] items queue ++ crawled
regroup synced state gate items items' queue crawled h =
    ap (λ l. synced ++ (l ++ queue) ++ crawled)
      (append_assoc state gate items'
        ∙ ap (◌++◌ state) h
        ∙ sym (ap (λ l. l ++ items) (append-nil state)))

module _ (json : Json) (outside : Outside json) (codec : Codec) (gate : HttpGateway) where
  take_message-order :
      (m : Message) (s : Agent json outside codec gate)
      → s.to_gate ≡ none
      → all_of (take_message json outside codec gate m s)
        ≡ map as_crawled (
            s.synced
            ++ four
                (concat (to_list s.to_state))
                []
                (s.queue.items ++ to_list m.container)
                (to_list s.to_queue)
            ++ s.crawled)
  unfolding take_message
  take_message-order m s h = ap (map as_crawled) (
      regroup s.synced (concat (to_list s.to_state)) _ _ _ (to_list s.to_queue) s.crawled
        (step_order m s.queue))

  step-order :
      {s t : Agent json outside codec gate} → Step json outside codec gate s t → all_of t ≡ all_of s
  step-order (Step.packet dns) = refl
  step-order {s} (Step.enriched c rest h k) =
      rw (h, k)
        (simp (map-append, append_assoc, append-nil, ap as_crawled (enrich_same c s.enricher)))
  step-order {s} (Step.queued c now flush_time h k) =
      take_message-order (record { container = some c; now = now; flush_time = flush_time })
        (record s { to_queue = none }) h
      ∙ rw (h, k) (simp (append_assoc, append-nil))
  step-order {s} (Step.ticked now flush_time h) =
      take_message-order (record { container = none; now = now; flush_time = flush_time }) s h
      ∙ rw h (simp (append_assoc, append-nil))
  step-order (Step.posted batch h k) = rw (h, k) (simp (append_assoc, append-nil))
  step-order (Step.synced batch now outcome h) = rw h (simp (append_assoc, append-nil))

  -- Whatever the goroutines do and however they take turns, no container is lost, repeated or
  -- overtaken on its way: what `Sync` has taken, then what the parts hold, then what the crawlers
  -- still send, are at any time the same containers in the same order, but for the names that the
  -- enricher adds.
  pub steps_order :
      {s t : Agent json outside codec gate}
      → Steps json outside codec gate s t
      → all_of t ≡ all_of s
  steps_order Steps.stay = refl
  steps_order (Steps.later steps step) = step-order step ∙ steps_order steps
