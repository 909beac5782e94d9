-- ===== src/Crawler/Lines/Examples.antt =====
-- Passes of the loop over small texts.
use dhound_agent.Base.{
  ℕ, List, [], ◌∷◌, ◌++◌, ◌≡◌, refl, some, none, true, false, arith, codes, Bytes,
}
use dhound_agent.Events.{SecurityEvent}
use dhound_agent.Crawler.Lines.{Chunk, eof, Reader, Pass, read_lines}
use dhound_agent.Crawler.Lines.Numbering.{read_lines_lem}
use dhound_agent.Crawler.Lines.Unfinished.{unfinished_line_is_lost}

-- A rule that reports the line number as the id.
abbrev report : ℕ → Bytes → List SecurityEvent
report n line =
    record {
      security_id = n;
      security_group_id = 0;
      event_time_utc_number = 0;
      message = line;
      ip_address = [];
      additional_fields = [];
      critical = false;
      source = none;
    }
    ∷ []

abbrev start : Pass
start = record {
  line_position = 1;
  state_line = 0;
  state_offset = 0;
  container_offset = 0;
  container_line = 0;
  events = [];
}

-- Two lines, cut in the middle of the first; the second ends with \r\n.
abbrev two_lines : Reader
two_lines = record {
  buffer = [];
  chunks =
      record { text = codes "a"; position = 1 }
      ∷ record { text = codes "b\ncd\r\n"; position = 7 }
      ∷ [];
  end = eof;
  position = 0;
}

abbrev growing : Chunk
growing = record { text = codes "ab\ncd"; position = 5 }

read_lines_lem_example :
    (q : Pass) × (read_lines false report 5 two_lines start ≡ some q)
    × (q.events ≡ report 2 (codes "ab") ++ report 3 (codes "cd"))
    × (q.line_position ≡ 4)
read_lines_lem_example =
    read_lines_lem false report 5 (codes "ab" ∷ codes "cd\r" ∷ []) [] two_lines start (omega arith)
      (omega arith) tt refl

unfinished_line_is_lost_example :
    let r : Reader = record { buffer = []; chunks = growing ∷ []; end = eof; position = 0 } in
    (q : Pass) × (read_lines true report 5 r start ≡ some q)
    × (q.events ≡ report 2 (codes "ab"))
    × (q.state_offset ≡ 5)
    × (q.container_offset ≡ 5)
unfinished_line_is_lost_example =
    unfinished_line_is_lost report 5 (codes "ab") [] (codes "cd") growing 0 start (omega arith)
      (omega arith) (omega arith) (omega arith) refl
