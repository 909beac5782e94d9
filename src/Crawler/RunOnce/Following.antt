-- ===== src/Crawler/RunOnce/Following.antt =====
-- crawler_files.go: round after round over a file that grows by complete lines, with rounds over
-- other files and event logs between. The file is UTF-8 without a byte order mark, so that its
-- reader gives its bytes.
pub mod Passes
pub mod History
pub mod Samples
mod Examples
use dhound_agent.Base.{
  ℕ, ◌+◌, ◌<◌, ◌≤◌, List, [], ◌∷◌, ◌++◌, ◌≡◌, Option, none, some, true, false, ltb, if◌then◌else◌,
  length, drop, Bytes, str_eq, All,
}
use dhound_agent.Events.{SecurityEventsContainer, SourceState}
use dhound_agent.Utils.{clean_security_events_from_dublicates}
use dhound_agent.Regexp.{Regexp}
use dhound_agent.Dates.{Time}
use dhound_agent.Config.{RuleConfig}
use dhound_agent.Crawler.Lines.{Reader, eof}
use dhound_agent.Crawler.Lines.Reading.{text_of, end_position, LacksNewline}
use dhound_agent.Crawler.Lines.Numbering.{joined, events_of}
use dhound_agent.Crawler.Parsing.{parse_by_rules}
use dhound_agent.Crawler.EventLog.{LogView, source_id_of, crawl_path}
use dhound_agent.Crawler.RunOnce.{
  second, Stat, FileView, max_file_dead_time, encoding_of, crawl_file,
}

-- The system shows a file with this text that can be opened and read to its end, recent enough for
-- its rules.
pub record Shows {R : Type 0} (rules : List (RuleConfig R)) (view : FileView) (text : Bytes)
    : Type 0 where
  pub stat : Stat
  pub has_id : 0 < length view.file_id
  pub has_stat : view.stat ≡ some stat
  pub is_file : stat.is_dir ≡ false
  pub is_recent : stat.age ≤ max_file_dead_time second rules
  pub size_lem : stat.size ≡ length text
  pub opens_lem : view.opens ≡ true
  pub reads :
      (position : ℕ)
      → position ≤ length text
      → (r : Reader) × (view.reader (encoding_of view.is_encoding rules) position ≡ some r)
        × (text_of r ≡ drop position text)
        × (end_position r ≡ length text)
        × (r.end ≡ eof)

-- The state of a source says that the text was read up to its end, and the line to count from.
abbrev pub IsReadTo : SourceState → Bytes → ℕ → Type 0
IsReadTo s text line =
    (s.offset ≡ length text) × ((if ltb 0 s.offset then s.line else 1) ≡ line) × (0 < line)

-- Complete lines that one round has found, and its clock.
pub record Part : Type 0 where
  pub time : Time
  pub lines : List Bytes

-- At least one line, and no newline within a line.
abbrev pub IsProper : Part → Type 0
IsProper part = (0 < length part.lines) × All LacksNewline part.lines

abbrev pub text_after : Bytes → List Part → Bytes
text_after text [] = text
text_after text (part ∷ rest) = text_after (text ++ joined part.lines []) rest

-- The count of lines goes one too far with each part.
abbrev pub line_after : ℕ → List Part → ℕ
line_after line [] = line
line_after line (part ∷ rest) = line_after (line + length part.lines + 1) rest

abbrev pub to_list : Option SecurityEventsContainer → List SecurityEventsContainer
to_list none = []
to_list (some container) = container ∷ []

module _ (regexp : Regexp) (path : Bytes) (rules : List (RuleConfig regexp.Regex))
    (id : Bytes) where
  abbrev pub container_for : Bytes → ℕ → Part → SecurityEventsContainer
  container_for text line part = record {
    source_id = id;
    offset = length (text ++ joined part.lines []);
    line = line + length part.lines + 1;
    source = path;
    ip_to_service_map = [];
    security_events =
        clean_security_events_from_dublicates
          (events_of true (parse_by_rules regexp part.time path rules) line part.lines);
  }

  -- The containers for some parts, one for each.
  abbrev pub containers : Bytes → ℕ → List Part → List SecurityEventsContainer
  containers text line [] = []
  containers text line (part ∷ rest) =
      container_for text line part
      ∷ containers (text ++ joined part.lines []) (line + length part.lines + 1) rest

  -- The text of the file when it was last read, the sources and the containers sent for it, where
  -- the first two were `first` and `origin` at the start.
  pub data Followed (first : Bytes) (origin : List SourceState)
      : Bytes → List SourceState → List SecurityEventsContainer → Type 0 where
    start : Followed first origin first origin []
    other :
        {text : Bytes} {sources : List SourceState} {sent : List SecurityEventsContainer}
        → Followed first origin text sources sent
        → (time : Time) (path' : Bytes) (rules' : List (RuleConfig regexp.Regex)) (view : FileView)
        → str_eq id view.file_id ≡ false
        → Followed first origin text (crawl_file regexp time path' rules' view sources).0 sent
    event_log :
        {text : Bytes} {sources : List SourceState} {sent : List SecurityEventsContainer}
        → Followed first origin text sources sent
        → (fields : regexp.Regex) (parse_time : Bytes → Option ℕ) (uint_bits : ℕ)
          (rule : RuleConfig regexp.Regex) (view : LogView) (log : Bytes)
        → str_eq id (source_id_of regexp fields parse_time uint_bits rule log) ≡ false
        → Followed first origin text
            (crawl_path regexp fields parse_time uint_bits rule view log sources).0
            sent
    -- The file was not modified for longer than the dead time of its rules, and what it holds by
    -- then is not read.
    too_old :
        {text : Bytes} {sources : List SourceState} {sent : List SecurityEventsContainer}
        → Followed first origin text sources sent
        → (time : Time) (view : FileView) (stat : Stat) → view.stat ≡ some stat
        → max_file_dead_time second rules < stat.age
        → Followed first origin text
            (crawl_file regexp time path rules view sources).0
            (sent ++ to_list (crawl_file regexp time path rules view sources).1)
    -- The file has grown, or not, and is read.
    grows :
        {text : Bytes} {sources : List SourceState} {sent : List SecurityEventsContainer}
        → Followed first origin text sources sent
        → (part : Part) (view : FileView) → All LacksNewline part.lines
        → view.file_id ≡ id
        → Shows rules view (text ++ joined part.lines [])
        → Followed first origin
            (text ++ joined part.lines [])
            (crawl_file regexp part.time path rules view sources).0
            (sent ++ to_list (crawl_file regexp part.time path rules view sources).1)
