-- ===== src/Pipeline/Restart/Examples.antt =====
-- Two lines are read before a restart, and one after it.
use dhound_agent.Base.{
  ℕ, ◌*◌, List, [], ◌∷◌, ◌++◌, ◌≡◌, refl, sym, ap, arith, codes, length, All, str_eq, get_key,
  format_decimal,
}
use dhound_agent.Samples.{literal}
use dhound_agent.Events.{SecurityEventsContainer, SourceState}
use dhound_agent.Utils.{clean_security_events_from_dublicates}
use dhound_agent.IpEnricher.{enrich}
use dhound_agent.Queue
use dhound_agent.Queue.{Queue, second}
use dhound_agent.HttpGateway.{ServerRequestMessage}
use dhound_agent.SystemState.{missing, written, restore, read_original_state}
use dhound_agent.SystemState.Lookup.{lookup_source}
use dhound_agent.Crawler.Parsing.{parse_by_rules}
use dhound_agent.Crawler.RunOnce.{crawl_file}
use dhound_agent.Crawler.RunOnce.Following.{
  Part, IsProper, text_after, to_list, container_for, containers, Followed, start, grows,
}
use dhound_agent.Crawler.RunOnce.Following.Passes.{crawl_file_grown}
use dhound_agent.Crawler.RunOnce.Following.Samples.{
  rule, showing, showing-Shows, clock, two_lines, one_line, path,
}
use dhound_agent.Pipeline
use dhound_agent.Pipeline.{System, take_message, Step, Steps}
use dhound_agent.Pipeline.Samples.{plain, down, codec, gate, listener}
use dhound_agent.HttpGateway.{all_events}
use dhound_agent.HttpGateway.Sending.Durable.{MessageIsSafe}
use dhound_agent.Pipeline.Delivery.{all_containers}
use dhound_agent.Pipeline.EndToEnd.{every_line_is_safe}
use dhound_agent.Pipeline.Restart.{of_source, restart_reads_on}

abbrev id : List ℕ
id = codes "1:2"

-- What is sent for the first two lines.
abbrev container : SecurityEventsContainer
container = container_for literal path (rule ∷ []) id [] 1 two_lines

abbrev first : System ServerRequestMessage (List SourceState)
first =
    Pipeline.start (container ∷ []) listener (Queue.init (60 * second) 0)
      (record { files = []; posts = [] }) missing

abbrev arrived :
    (s : System ServerRequestMessage (List SourceState)) × Steps plain down codec gate first s
unfolding Pipeline.start Queue.step Queue.init take_message enrich parse_by_rules
    clean_security_events_from_dublicates
arrived = (
  _,
  Steps.later
      (Steps.later
        (Steps.later (Steps.later Steps.stay (Step.enriched container [] refl refl))
          (Step.queued container second second refl refl))
        (Step.posted (record { containers = container ∷ []; now = 2; file_time = 2 }) refl refl))
      (Step.synced (record { container = container; time = 3 } ∷ []) 3 written refl),
)

abbrev before : List SourceState × List SecurityEventsContainer
before =
    let (after, sent) =
      crawl_file literal clock path (rule ∷ []) (showing id (codes "ab\nc\n"))
        (restore codec 0 missing) in
    (after, to_list sent)

abbrev after : List SourceState × List SecurityEventsContainer
after =
    let (after, sent) =
      crawl_file literal clock path (rule ∷ []) (showing id (codes "ab\nc\nd\n"))
        (restore codec 100 arrived.0.state_file) in
    (after, to_list sent)

before_the_restart :
    Followed literal path
      (rule ∷ [])
      id
      []
      (restore codec 0 missing)
      (codes "ab\nc\n")
      before.0
      before.1
before_the_restart =
    grows start two_lines (showing id (codes "ab\nc\n")) (omega arith) refl
      (showing-Shows (codes "ab\nc\n"))

after_the_restart :
    Followed literal path
      (rule ∷ [])
      id
      (codes "ab\nc\n")
      (restore codec 100 arrived.0.state_file)
      (codes "ab\nc\nd\n")
      after.0
      after.1
after_the_restart =
    grows start one_line (showing id (codes "ab\nc\nd\n")) (omega arith) refl
      (showing-Shows (codes "ab\nc\nd\n"))

-- The one container is the one of the first two lines.
own : of_source id (container ∷ []) ≡ before.1
unfolding str_eq restore read_original_state lookup_source
own = sym (
    ap (λ r. to_list r.1)
      (crawl_file_grown literal clock path (rule ∷ []) (showing id (codes "ab\nc\n")) [] [] 1
        two_lines.lines (refl, refl, omega arith) (omega arith) (omega arith)
        (showing-Shows (codes "ab\nc\n"))))

restart_reads_on_example :
    (parts : List Part) × All IsProper parts
    × (text_after [] parts ≡ codes "ab\nc\nd\n")
    × (before.1 ++ after.1 ≡ containers literal path (rule ∷ []) id [] 1 parts)
unfolding arrived
restart_reads_on_example =
    restart_reads_on plain down codec gate 3 (λ sources. refl) literal path (rule ∷ []) id
      (container ∷ []) listener (60 * second) 0 (record { files = []; posts = [] }) arrived.1 100
      ((((tt, tt), tt), tt), (refl, ((omega arith, tt), omega arith))) (omega arith) refl refl
      before_the_restart own after_the_restart

every_line_is_safe_example :
    (parts : List Part) × All IsProper parts
    × (text_after [] parts ≡ codes "ab\nc\n")
    × (all_events (of_source id (all_containers arrived.0.sent))
        ≡ all_events (containers literal path (rule ∷ []) id [] 1 parts))
    × All (MessageIsSafe plain down gate arrived.0.world) arrived.0.sent
unfolding arrived restore read_original_state lookup_source
every_line_is_safe_example =
    every_line_is_safe plain down codec gate literal path (rule ∷ []) id (container ∷ []) listener
      (60 * second) 0 (record { files = []; posts = [] }) missing arrived.1 [] 1
      (restore codec 0 missing) (tt, tt) (refl, tt) refl refl (refl, refl, omega arith)
      before_the_restart own

one_event : length container.security_events ≡ 1
unfolding clean_security_events_from_dublicates parse_by_rules str_eq get_key format_decimal
one_event = refl
