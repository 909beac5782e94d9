-- ===== src/Crawler/RunOnce.antt =====
-- crawler_files.go: `_RunOnce`, for the files of the list and what the system says of each. The
-- encodings of htmlindex and the reader of `Utf8Reader` over the opened file are part of the view.
pub mod Outcomes
pub mod Others
pub mod Following
pub mod Resuming
pub mod Grown
mod Examples
use dhound_agent.Base.{
  ℕ, suc, ◌*◌, List, [], ◌∷◌, Option, none, some, Bool, ltb, ◌==◌, if◌then◌else◌, length, modify,
  Bytes, get_elem?,
}
use dhound_agent.Events.{SecurityEventsContainer, SourceState}
use dhound_agent.SystemState.{find}
use dhound_agent.Utils.{clean_security_events_from_dublicates}
use dhound_agent.Config.{RuleConfig}
use dhound_agent.Regexp.{Regexp}
use dhound_agent.Dates.{Time}
use dhound_agent.Crawler.Lines.{Reader, Pass, read_lines}
use dhound_agent.Crawler.Lines.Reading.{text_of}
use dhound_agent.Crawler.Parsing.{parse_by_rules}

abbrev pub second : ℕ
second = 1_000_000_000

-- What `os.Stat` says, with the time since the last modification in nanoseconds.
pub record Stat : Type 0 where
  pub is_dir : Bool
  pub age : ℕ
  pub size : ℕ

pub record FileView : Type 0 where
  -- Empty if the file is not there.
  pub file_id : Bytes
  pub stat : Option Stat
  pub opens : Bool
  pub is_encoding : Bytes → Bool
  -- The decoding reader for an encoding, from a position of the file on.
  pub reader : Bytes → ℕ → Option Reader
  -- The time since the last modification, when the unfinished last line is met.
  pub age_at_end : ℕ

pub max_file_dead_time : {R : Type 0} → ℕ → List (RuleConfig R) → ℕ
max_file_dead_time longest [] = longest
max_file_dead_time longest (rule ∷ rest) =
    max_file_dead_time (if ltb longest rule.deadtime then rule.deadtime else longest) rest

-- The position and the line to read from, if there is something to read.
pub start_of : SourceState → ℕ → Option (ℕ × ℕ)
start_of s size =
    let position = if ltb 0 s.offset then s.offset else 0 in
    let line_position = if ltb 0 s.offset then s.line else 1 in
    if ltb size position
    then some (0, 1)
    else if position == size
    then none
    else some (position, line_position)

-- The encoding of the first rule, or none if it is not known.
pub encoding_of : {R : Type 0} → (Bytes → Bool) → List (RuleConfig R) → Bytes
encoding_of is_encoding [] = []
encoding_of is_encoding (rule ∷ rest) =
    if ltb 0 (length rule.encoding)
    then (if is_encoding rule.encoding then rule.encoding else [])
    else rule.encoding

module _ (regexp : Regexp) (time : Time) where
  open regexp use {Regex}

  -- The pass over an open file; the fuel is enough for every line.
  pub pass_of : Bytes → List (RuleConfig Regex) → FileView → SourceState → ℕ → Reader → Option Pass
  unfolding read_lines parse_by_rules
  pass_of path rules view s line_position r =
      read_lines (ltb view.age_at_end (60 * second)) (parse_by_rules regexp time path rules)
        (suc (length (text_of r))) r
        (record {
          line_position = line_position;
          state_line = s.line;
          state_offset = s.offset;
          container_offset = 0;
          container_line = 0;
          events = [];
        })

  abbrev pub container_of : Bytes → SourceState → Pass → SecurityEventsContainer
  container_of path s q = record {
    source_id = s.source_id;
    offset = q.container_offset;
    line = q.container_line;
    source = path;
    ip_to_service_map = [];
    security_events = clean_security_events_from_dublicates q.events;
  }

  -- The writes through the pointer, and the container that goes to the next channel.
  pub deliver :
      Bytes
      → List SourceState
      → ℕ
      → SourceState
      → Option Pass
      → List SourceState × Option SecurityEventsContainer
  unfolding clean_security_events_from_dublicates
  deliver path sources pointer s none = (sources, none)
  deliver path sources pointer s (some q) = (
    modify sources pointer (λ old. record old { line = q.state_line; offset = q.state_offset }),
    some (container_of path s q),
  )

  -- The file from its position on.
  pub read_file :
      Bytes
      → List (RuleConfig Regex)
      → FileView
      → List SourceState
      → ℕ
      → SourceState
      → ℕ × ℕ
      → List SourceState × Option SecurityEventsContainer
  unfolding deliver pass_of encoding_of
  read_file path rules view sources pointer s (position, line_position) =
      if view.opens
      then elim (view.reader (encoding_of view.is_encoding rules) position) [
        | none ↦ (sources, none)
        | some r ↦ deliver path sources pointer s (pass_of path rules view s line_position r)
      ]
      else (sources, none)

  -- The file from its source state on.
  pub read_source :
      Bytes
      → List (RuleConfig Regex)
      → FileView
      → ℕ
      → List SourceState
      → ℕ
      → Option SourceState
      → List SourceState × Option SecurityEventsContainer
  unfolding read_file start_of
  read_source path rules view size sources pointer none = (sources, none)
  read_source path rules view size sources pointer (some s) = elim (start_of s size) [
    | none ↦ (sources, none)
    | some from ↦ read_file path rules view sources pointer s from
  ]

  -- One round of the loop over the files.
  pub crawl_file :
      Bytes
      → List (RuleConfig Regex)
      → FileView
      → List SourceState
      → List SourceState × Option SecurityEventsContainer
  unfolding read_source max_file_dead_time find
  crawl_file path rules view sources =
      if ltb (length view.file_id) 1 then (sources, none) else elim view.stat [
        | none ↦ (sources, none)
        | some stat ↦
            if stat.is_dir
            then (sources, none)
            else if ltb (max_file_dead_time second rules) stat.age
            then (sources, none)
            else let (found, pointer) = find view.file_id sources in
              read_source path rules view stat.size found pointer (get_elem? found pointer)
      ]

  -- The whole round: the files with their rules and views, in the order of the map.
  unfoldable pub run_once :
      List (Bytes × List (RuleConfig Regex) × FileView)
      → List SourceState
      → List SourceState × List SecurityEventsContainer
  unfolding crawl_file
  run_once [] sources = (sources, [])
  run_once ((path, rules, view) ∷ rest) sources =
      let (after, sent) = crawl_file path rules view sources in
      let (last, more) = run_once rest after in
      (last, elim sent [ none ↦ more | some container ↦ container ∷ more ])
