-- ===== src/Crawler/RunOnce/Following/Examples.antt =====
-- A file that gets two lines, then one more, with a round over another file between.
use dhound_agent.Base.{List, [], ◌∷◌, ◌++◌, ◌≡◌, refl, arith, codes, All, str_eq}
use dhound_agent.Events.{SourceState, SecurityEventsContainer}
use dhound_agent.SystemState.{find}
use dhound_agent.SystemState.Lookup.{lookup_source, found_or_new}
use dhound_agent.Samples.{literal}
use dhound_agent.Crawler.RunOnce.{crawl_file}
use dhound_agent.Crawler.RunOnce.Following.{
  IsReadTo, Part, IsProper, text_after, line_after, to_list, containers, Followed, start, other,
  grows,
}
use dhound_agent.Crawler.RunOnce.Following.Samples.{
  rule, showing, showing-Shows, clock, two_lines, one_line, path,
}
use dhound_agent.Crawler.RunOnce.Following.History.{every_line_once}

abbrev first_round : List SourceState
first_round =
    (crawl_file literal clock path (rule ∷ []) (showing (codes "1:2") (codes "ab\nc\n")) []).0

abbrev other_file : List SourceState
other_file =
    (crawl_file literal clock path (rule ∷ []) (showing (codes "7:7") (codes "x")) first_round).0

abbrev last_round : List SourceState × List SecurityEventsContainer
last_round =
    let (after, sent) =
      crawl_file literal clock path (rule ∷ []) (showing (codes "1:2") (codes "ab\nc\nd\n"))
        other_file in
    let before =
      (crawl_file literal clock path (rule ∷ []) (showing (codes "1:2") (codes "ab\nc\n")) []).1 in
    (after, to_list before ++ to_list sent)

history :
    Followed literal path
      (rule ∷ [])
      (codes "1:2")
      []
      []
      (codes "ab\nc\nd\n")
      last_round.0
      last_round.1
unfolding find str_eq lookup_source
history =
    grows
      (other
        (grows start two_lines (showing (codes "1:2") (codes "ab\nc\n")) (omega arith) refl
          (showing-Shows (codes "ab\nc\n")))
        clock path (rule ∷ []) (showing (codes "7:7") (codes "x")) refl)
      one_line (showing (codes "1:2") (codes "ab\nc\nd\n")) (omega arith) refl
      (showing-Shows (codes "ab\nc\nd\n"))

every_line_once_example :
    (parts : List Part) × All IsProper parts
    × (text_after [] parts ≡ codes "ab\nc\nd\n")
    × (last_round.1 ≡ containers literal path (rule ∷ []) (codes "1:2") [] 1 parts)
    × IsReadTo
        (found_or_new (codes "1:2") (lookup_source (codes "1:2") last_round.0))
        (codes "ab\nc\nd\n")
        (line_after 1 parts)
unfolding lookup_source
every_line_once_example =
    every_line_once literal path (rule ∷ []) (codes "1:2") [] 1 [] (refl, refl, omega arith) history
