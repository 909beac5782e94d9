-- ===== src/Pipeline/EndToEnd.antt =====
-- From the lines of a file to the messages for the server.
use dhound_agent.Base.{
  ℕ, List, [], ◌∷◌, ◌++◌, ◌≡◌, refl, sym, ap, ◌∙◌, All, arith, Bytes, map, append-nil,
}
use dhound_agent.Events.{SecurityEventsContainer, SourceState}
use dhound_agent.Regexp.{Regexp}
use dhound_agent.Config.{RuleConfig}
use dhound_agent.IpEnricher.{IpEnricher}
use dhound_agent.Queue
use dhound_agent.Queue.{to_list}
use dhound_agent.Queue.Fifo.{concat}
use dhound_agent.HttpGateway.{HttpGateway, Json, World, all_events, net_file}
use dhound_agent.HttpGateway.Sending.{Outside}
use dhound_agent.HttpGateway.Sending.Durable.{HaveOwnSeconds, MessageIsSafe}
use dhound_agent.SystemState.{Codec, StateFile, written}
use dhound_agent.SystemState.Lookup.{lookup_source, found_or_new}
use dhound_agent.Crawler.RunOnce.Following.{
  IsReadTo, Part, IsProper, text_after, containers, Followed,
}
use dhound_agent.Crawler.RunOnce.Following.History.{every_line_once}
use dhound_agent.Pipeline.{System, start, Agent, Steps}
use dhound_agent.Pipeline.Order.{as_crawled, held, all_arrived, steps_order}
use dhound_agent.Pipeline.Delivery.{all_containers, synced_is_safe}
use dhound_agent.Pipeline.Restart.{of_source}

of_source-as_crawled :
    (id : Bytes) (cs : List SecurityEventsContainer)
    → of_source id (map as_crawled cs) ≡ map as_crawled (of_source id cs)
of_source-as_crawled id [] = refl
of_source-as_crawled id (c ∷ cs) = ground (arith, of_source-as_crawled id cs)

all_events-as_crawled :
    (cs : List SecurityEventsContainer) → all_events (map as_crawled cs) ≡ all_events cs
all_events-as_crawled [] = refl
all_events-as_crawled (c ∷ cs) = ap (λ l. c.security_events ++ l) (all_events-as_crawled cs)

-- The events of a source do not depend on the names that are added.
events_of_source :
    (id : Bytes) (xs ys : List SecurityEventsContainer)
    → map as_crawled xs ≡ map as_crawled ys
    → all_events (of_source id xs) ≡ all_events (of_source id ys)
events_of_source id xs ys h =
    sym (all_events-as_crawled (of_source id xs))
    ∙ ap all_events
        (sym (of_source-as_crawled id xs) ∙ ap (of_source id) h ∙ of_source-as_crawled id ys)
    ∙ all_events-as_crawled (of_source id ys)

front-nil {ℓ} : {A : Type ℓ} (xs ys : List A) → xs ++ ys ≡ [] → xs ≡ []
front-nil [] ys h = refl
front-nil (x ∷ xs) ys h = cc

none_to_state : {N C : Type 0} (s : System N C) → held s ≡ [] → concat (to_list s.to_state) ≡ []
none_to_state s h = front-nil _ _ (front-nil _ _ (front-nil _ _ h))

module _ (json : Json) (outside : Outside json) (codec : Codec) (gate : HttpGateway)
    (regexp : Regexp) (path : Bytes) (rules : List (RuleConfig regexp.Regex)) (id : Bytes) where
  open outside use {write_outcome}

  -- A file is crawled round after round, with rounds over other files and event logs between, from a
  -- state on that says that it was read up to `first`. In each round either it is older than the
  -- dead time of its rules, and is skipped; or it is recent enough, can be opened and read to its
  -- end, is UTF-8 without a byte order mark, and has grown by complete lines, or not at all, since
  -- it was last read. The containers with its id that the crawlers make are those of these rounds.
  -- However the parts of the agent, which starts with an empty queue, take turns: once all
  -- containers have arrived, so that no part holds any, and if the batches sent have seconds of
  -- their own for their files and these files can be written, then the text that the file had when
  -- it was last read is `first` and the lines of some parts, one after the other, each with at least
  -- one line. The events with its id in the batches sent are, in order, those of the containers for
  -- these parts. And for the message of each batch that has events one of three holds. It was posted
  -- and stands in its file. Or it was posted and got a final reply: status 200 with success, or with
  -- error code 1, after which the agent gives the events up. Or it was posted and later posted
  -- again, and that time the reply had status 200.
  pub every_line_is_safe :
      (crawled : List SecurityEventsContainer) (enricher : IpEnricher) (idle_timeout clock : ℕ)
      (world : World json.Content) (state_file : StateFile codec.Content)
      {s : Agent json outside codec gate}
      (steps : Steps json outside codec gate
        (start crawled enricher (Queue.init idle_timeout clock) world state_file)
        s)
      (first : Bytes) (line : ℕ) (origin : List SourceState) {text : Bytes}
      {sources : List SourceState} {sent : List SecurityEventsContainer}
      → HaveOwnSeconds s.sent
      → All (λ b. write_outcome (net_file b.file_time) ≡ written) s.sent
      → s.crawled ≡ []
      → held s ≡ []
      → IsReadTo (found_or_new id (lookup_source id origin)) first line
      → Followed regexp path rules id first origin text sources sent
      → of_source id crawled ≡ sent
      → (parts : List Part) × All IsProper parts
        × (text_after first parts ≡ text)
        × (all_events (of_source id (all_containers s.sent))
            ≡ all_events (containers regexp path rules id first line parts))
        × All (MessageIsSafe json outside gate s.world) s.sent
  unfolding start Queue.init
  every_line_is_safe crawled enricher idle_timeout clock world state_file {s} steps first line
        origin own_seconds writes none_left none_held at followed own =
      let (parts, proper, text_lem, sent_lem, _) =
        every_line_once regexp path rules id first line origin at followed in
      let (taken, safe) =
        synced_is_safe json outside codec gate crawled enricher (Queue.init idle_timeout clock)
          world state_file steps own_seconds writes in
      let all_sent : all_containers s.sent ≡ s.synced =
        taken ∙ ap (λ l. s.synced ++ l) (none_to_state s none_held) ∙ append-nil s.synced in
      let same : map as_crawled s.synced ≡ map as_crawled crawled =
        sym (all_arrived s none_left none_held) ∙ steps_order json outside codec gate steps in
      (
        parts,
        proper,
        text_lem,
        ap (λ cs. all_events (of_source id cs)) all_sent
            ∙ events_of_source id s.synced crawled same
            ∙ ap all_events (own ∙ sent_lem),
        safe,
      )
