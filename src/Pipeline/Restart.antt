-- ===== src/Pipeline/Restart.antt =====
-- The file crawler on both sides of a restart: what the agent reads of a file before it stops, and
-- after it has started again with the state file that it left.
mod Examples
use mathlib.Core.Path.{ap₂}
use dhound_agent.Base.{
  ℕ, ◌+◌, ◌<◌, ◌≤◌, List, [], ◌∷◌, ◌++◌, ◌≡◌, refl, sym, ap, ◌∙◌, Option, none, some, arith, All,
  All-append, subst, Bytes, length, length-append, str_eq, str_eq_refl, if◌then◌else◌,
}
use dhound_agent.Events.{SecurityEventsContainer, SourceState}
use dhound_agent.Regexp.{Regexp}
use dhound_agent.Config.{RuleConfig}
use dhound_agent.IpEnricher.{IpEnricher}
use dhound_agent.Queue
use dhound_agent.HttpGateway.{HttpGateway, Json, World}
use dhound_agent.HttpGateway.Sending.{Outside}
use dhound_agent.SystemState.{thirty_days, Codec, missing, restore, read_original_state}
use dhound_agent.SystemState.Lookup.{lookup_source, found_or_new}
use dhound_agent.Crawler.Lines.Numbering.{joined}
use dhound_agent.Crawler.RunOnce.Following.{
  IsReadTo, Part, IsProper, text_after, line_after, containers, Followed,
}
use dhound_agent.Crawler.RunOnce.Following.Passes.{length-joined}
use dhound_agent.Crawler.RunOnce.Following.History.{
  every_line_once, text_after-append, containers-append,
}
use dhound_agent.Pipeline.{start, Agent, Steps}
use dhound_agent.Pipeline.Order.{held}
use dhound_agent.Pipeline.Positions.{last_position, position_of}
use dhound_agent.Pipeline.Resuming.{AreWritten, crawled_is_restored}

-- The containers with an id, in order.
abbrev pub of_source : Bytes → List SecurityEventsContainer → List SecurityEventsContainer
of_source id [] = []
of_source id (c ∷ rest) = if str_eq id c.source_id then c ∷ of_source id rest else of_source id rest

last_position-of_source :
    (id : Bytes) (cs : List SecurityEventsContainer)
    → last_position id (of_source id cs) ≡ last_position id cs
last_position-of_source id [] = refl
last_position-of_source id (c ∷ cs) = ground (arith, last_position-of_source id cs)

-- Where the last part ends.
abbrev end_of : Bytes → ℕ → List Part → Option (ℕ × ℕ)
end_of text line [] = none
end_of text line (part ∷ rest) =
    some (length (text_after text (part ∷ rest)), line_after line (part ∷ rest))

last_position-containers :
    (regexp : Regexp) (path : Bytes) (rules : List (RuleConfig regexp.Regex)) (id text : Bytes)
    (line : ℕ) (parts : List Part)
    → last_position id (containers regexp path rules id text line parts) ≡ end_of text line parts
last_position-containers regexp path rules id text line [] = refl
last_position-containers regexp path rules id text line (p ∷ []) = rw (str_eq_refl id) refl
last_position-containers regexp path rules id text line (p ∷ q ∷ parts) =
    rw
      (last_position-containers regexp path rules id (text ++ joined p.lines [])
        (line + length p.lines + 1) (q ∷ parts))
      refl

length-text_after :
    (text : Bytes) (parts : List Part) → length text ≤ length (text_after text parts)
length-text_after text [] = omega arith
length-text_after text (p ∷ parts) = omega (
  arith,
  length-append text (joined p.lines []),
  length-text_after (text ++ joined p.lines []) parts,
)

le-line_after : (line : ℕ) (parts : List Part) → line ≤ line_after line parts
le-line_after line [] = omega arith
le-line_after line (p ∷ parts) = omega (arith, le-line_after (line + length p.lines + 1) parts)

-- A state with the position that the parts end at.
restored-IsReadTo :
    (id : Bytes) (o : Option SourceState) (parts : List Part)
    → All IsProper parts
    → position_of o ≡ end_of [] 1 parts
    → IsReadTo (found_or_new id o) (text_after [] parts) (line_after 1 parts)
restored-IsReadTo id none [] h e = (refl, refl, omega arith)
restored-IsReadTo id none (p ∷ parts) h e = cc
restored-IsReadTo id (some s) [] h e = cc
restored-IsReadTo id (some s) (p ∷ parts) h e = ground (
  arith,
  length-text_after (joined p.lines []) parts,
  length-joined p.lines,
  le-line_after (1 + length p.lines + 1) parts,
)

module _ (json : Json) (outside : Outside json) (codec : Codec) (gate : HttpGateway) (since : ℕ)
    (codec_round_trips : (sources : List SourceState)
      → codec.unmarshal (codec.marshal sources) ≡ sources)
    (regexp : Regexp) (path : Bytes) (rules : List (RuleConfig regexp.Regex)) (id : Bytes) where
  -- After a restart a file is read on from where it was read to. The agent starts without a state
  -- file, and a file is crawled from the empty text on, round after round, with rounds over other
  -- files and event logs between. In each round, before and after the restart, either it is older
  -- than the dead time of its rules, and is skipped; or it is recent enough, can be opened and read
  -- to its end, is UTF-8 without a byte order mark, and has grown by complete lines, or not at all,
  -- since it was last read. Its containers are those with its id among all that the crawlers make.
  -- They have all arrived, the encoder's output is decoded as it was encoded, and every round of
  -- `Sync` wrote the state file whole, on times from `since` on and less than thirty days after it.
  -- In these thirty days an agent starts again with that state file, and crawls the file further.
  -- Then the containers of both runs together, in order, are one for each of some parts of at least
  -- one line, with the events of these lines alone, and the parts one after the other are the whole
  -- text that the file had when it was last read. What is written later, while it is too old, is not
  -- among them.
  pub restart_reads_on :
      (crawled : List SecurityEventsContainer) (enricher : IpEnricher) (idle_timeout clock : ℕ)
      (world : World json.Content) {s : Agent json outside codec gate}
      (steps : Steps json outside codec gate
        (start crawled enricher (Queue.init idle_timeout clock) world missing)
        s)
      (now : ℕ) {text text' : Bytes} {sources sources' : List SourceState}
      {sent sent' : List SecurityEventsContainer}
      → AreWritten json outside codec gate since steps
      → now < since + thirty_days
      → s.crawled ≡ []
      → held s ≡ []
      → Followed regexp path rules id [] (restore codec clock missing) text sources sent
      → of_source id crawled ≡ sent
      → Followed regexp path rules id text (restore codec now s.state_file) text' sources' sent'
      → (parts : List Part) × All IsProper parts
        × (text_after [] parts ≡ text')
        × (sent ++ sent' ≡ containers regexp path rules id [] 1 parts)
  unfolding restore read_original_state lookup_source
  restart_reads_on crawled enricher idle_timeout clock world {s} steps now {text} {text'} {sources}
        {sources'} {sent} {sent'} w k none_left none_held before own after =
      let (parts, proper, text_lem, sent_lem, _) =
        every_line_once regexp path rules id [] 1 [] (refl, refl, omega arith) before in
      let position : position_of (lookup_source id (read_original_state codec now s.state_file))
          ≡ end_of [] 1 parts =
        crawled_is_restored json outside codec gate since codec_round_trips crawled enricher
          idle_timeout clock world steps id now w k none_left none_held
        ∙ sym (last_position-of_source id crawled)
        ∙ ap (last_position id) (own ∙ sent_lem)
        ∙ last_position-containers regexp path rules id [] 1 parts in
      let restored = lookup_source id (read_original_state codec now s.state_file) in
      let at : IsReadTo (found_or_new id restored) text (line_after 1 parts) =
        subst (λ t. IsReadTo (found_or_new id restored) t (line_after 1 parts)) text_lem
          (restored-IsReadTo id restored parts proper position) in
      let (parts', proper', text_lem', sent_lem', _) =
        every_line_once regexp path rules id text (line_after 1 parts) _ at after in
      (
        parts ++ parts',
        All-append IsProper parts parts' proper proper',
        text_after-append [] parts parts' ∙ ap (λ t. text_after t parts') text_lem ∙ text_lem',
        ap₂ ◌++◌ sent_lem sent_lem'
            ∙ sym (
                containers-append regexp path rules id [] 1 parts parts'
                ∙ ap
                    (λ t.
                      containers regexp path rules id [] 1 parts
                      ++ containers regexp path rules id t (line_after 1 parts) parts')
                    text_lem),
      )
