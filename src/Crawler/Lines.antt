-- ===== src/Crawler/Lines.antt =====
-- crawler_files.go: the loop of `_RunOnce` that reads a file line by line. The decoding reader over
-- the open file is the list of what its reads give, each with the position of the file after it.
pub mod Reading
pub mod Rounds
pub mod Numbering
pub mod Positions
pub mod Unfinished
mod Examples
use dhound_agent.Base.{
  ℕ, zero, suc, ◌+◌, List, [], ◌∷◌, ◌++◌, Option, none, some, Bool, true, false, ◌&&◌, ◌==◌, ltb,
  if◌then◌else◌, length, Bytes, reverse,
}
use dhound_agent.Events.{SecurityEvent}

pub record Chunk : Type 0 where
  pub text : Bytes
  pub position : ℕ

-- How the reads end.
pub data End : Type 0 where
  eof failure : End

-- A bufio.Reader: what it has buffered, the reads to come, and the position of the file.
pub record Reader : Type 0 where
  pub buffer : Bytes
  pub chunks : List Chunk
  pub end : End
  pub position : ℕ

abbrev pub prepend_byte : ℕ → Option (Bytes × Bytes) → Option (Bytes × Bytes)
prepend_byte c none = none
prepend_byte c (some (line, rest)) = some (c ∷ line, rest)

-- The text up to the first newline, with it, and what follows.
unfoldable pub cut_line : Bytes → Option (Bytes × Bytes)
cut_line [] = none
cut_line (c ∷ s) = if c == b'\n' then some (c ∷ [], s) else prepend_byte c (cut_line s)

pub record Segment : Type 0 where
  pub text : Bytes
  pub error : Option End
  pub reader : Reader

-- `ReadBytes('\n')`: it reads on until there is a newline, or to the end.
unfoldable pub read_bytes_from : Bytes → List Chunk → End → ℕ → Segment
unfolding cut_line
read_bytes_from buffer [] end position = elim (cut_line buffer) [
  | some (line, rest) ↦ record {
    text = line;
    error = none;
    reader = record { buffer = rest; chunks = []; end = end; position = position };
  }
  | none ↦ record {
    text = buffer;
    error = some end;
    reader = record { buffer = []; chunks = []; end = end; position = position };
  }
]
read_bytes_from buffer (chunk ∷ chunks) end position = elim (cut_line buffer) [
  | some (line, rest) ↦ record {
    text = line;
    error = none;
    reader = record { buffer = rest; chunks = chunk ∷ chunks; end = end; position = position };
  }
  | none ↦ read_bytes_from (buffer ++ chunk.text) chunks end chunk.position
]

unfoldable pub read_bytes : Reader → Segment
unfolding read_bytes_from
read_bytes r = read_bytes_from r.buffer r.chunks r.end r.position

-- A line given backwards, without its newline and the `\r` before it; `none` if it does not end in
-- a newline.
unfoldable pub strip_backwards : Bytes → Option Bytes
strip_backwards [] = none
strip_backwards (c ∷ []) = if c == b'\n' then some [] else none
strip_backwards (c ∷ d ∷ r) =
    if c == b'\n' then some (reverse (if d == b'\r' then r else d ∷ r)) else none

abbrev pub is_eof : Option End → Bool
is_eof (some eof) = true
is_eof _ = false

-- A line with its newline, or the end of the file's text.
unfoldable pub line_of_text : Bool → Option End → Bytes → Option Bytes
unfolding strip_backwards
line_of_text recent error text = elim (strip_backwards (reverse text)) [
  | some line ↦ some line
  | none ↦ if is_eof error && recent then none else some text
]

-- The line of a segment; `none` if the loop stops here, at the unfinished last line of a file that
-- was modified in the last minute.
unfoldable pub line_of : Bool → Segment → Option Bytes
unfolding line_of_text
line_of recent s = if ltb 0 (length s.text) then line_of_text recent s.error s.text else some []

-- The variables that the loop changes.
pub record Pass : Type 0 where
  pub line_position : ℕ
  pub state_line : ℕ
  pub state_offset : ℕ
  pub container_offset : ℕ
  pub container_line : ℕ
  pub events : List SecurityEvent

-- `recent`: the file was modified in the last minute. `parse` gives the events that the rules find
-- in a line.
module _ (recent : Bool) (parse : ℕ → Bytes → List SecurityEvent) where
  -- One round from the count of the line on.
  unfoldable pub advance : Bytes → ℕ → Pass → Pass
  advance line position p =
      let next = if ltb 0 p.line_position then p.line_position + 1 else p.line_position in
      record {
        line_position = next;
        state_line = next;
        state_offset = position;
        container_offset = position;
        container_line = next;
        events = if ltb 0 (length line) then p.events ++ parse next line else p.events;
      }

  unfoldable pub after_line :
      (Reader → Pass → Option Pass) → Option End → Reader → Pass → Option Pass
  after_line next none r p = next r p
  after_line next (some e) r p = some p

  -- One round, on the segment that was read; `next` is the rest of the loop.
  unfoldable pub after_segment : (Reader → Pass → Option Pass) → Segment → Pass → Option Pass
  unfolding after_line
  after_segment next s p = elim (line_of recent s) [
    | none ↦ some p
    | some line ↦ after_line next s.error s.reader (advance line s.reader.position p)
  ]

  -- `none` means that the fuel ran out.
  unfoldable pub read_lines : ℕ → Reader → Pass → Option Pass
  read_lines zero r p = none
  read_lines (suc fuel) r p = after_segment (read_lines fuel) (read_bytes r) p
