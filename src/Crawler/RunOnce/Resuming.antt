-- ===== src/Crawler/RunOnce/Resuming.antt =====
-- crawler_files.go: where the next round goes on.
use dhound_agent.Base.{
  ℕ, suc, ◌*◌, ◌<◌, List, [], ◌≡◌, ◌∙◌, ap, none, some, true, ltb, lt→ltb, length, Bytes, get_elem?,
  arith, str_eq_refl,
}
use dhound_agent.Events.{SecurityEventsContainer, SourceState}
use dhound_agent.SystemState.{find, update}
use dhound_agent.SystemState.Lookup.{lookup_source, find_lem, lookup_source-update, found_or_new}
use dhound_agent.Config.{RuleConfig}
use dhound_agent.Regexp.{Regexp}
use dhound_agent.Dates.{Time}
use dhound_agent.Crawler.Lines.{Reader, Pass, eof}
use dhound_agent.Crawler.Lines.Reading.{text_of, LacksNewline}
use dhound_agent.Crawler.Lines.Rounds.{read_lines-end}
use dhound_agent.Crawler.Lines.Numbering.{read_lines_total}
use dhound_agent.Crawler.Parsing.{parse_by_rules}
use dhound_agent.Crawler.RunOnce.{
  second, Stat, FileView, start_of, encoding_of, pass_of, deliver, read_file, read_source,
  crawl_file,
}

start_of_end : (s : SourceState) (size : ℕ) → 0 < size → s.offset ≡ size → start_of s size ≡ none
unfolding start_of
start_of_end s size h e = ground arith

-- The container of a pass that has read no line.
abbrev pub empty_container : Bytes → SourceState → SecurityEventsContainer
empty_container path s = record {
  source_id = s.source_id;
  offset = 0;
  line = 0;
  source = path;
  ip_to_service_map = [];
  security_events = [];
}

module _ (regexp : Regexp) (time : Time) where
  open regexp use {Regex}

  -- The fuel is enough: the pass over an open file always ends.
  pub pass_of_total :
      (path : Bytes) (rules : List (RuleConfig Regex)) (view : FileView) (s : SourceState)
      (line_position : ℕ) (r : Reader)
      → (q : Pass) × (pass_of regexp time path rules view s line_position r ≡ some q)
  unfolding pass_of
  pass_of_total path rules view s line_position r =
      read_lines_total (ltb view.age_at_end (60 * second)) (parse_by_rules regexp time path rules)
        (suc (length (text_of r))) r _ (omega arith)

  -- A file whose saved offset is its size, which is not 0, is not read again: nothing is sent.
  pub crawl_file_unchanged :
      (path : Bytes) (rules : List (RuleConfig Regex)) (view : FileView)
      (sources : List SourceState) (stat : Stat) (s : SourceState)
      → view.stat ≡ some stat
      → lookup_source view.file_id sources ≡ some s
      → 0 < stat.size
      → s.offset ≡ stat.size
      → (crawl_file regexp time path rules view sources).1 ≡ none
  unfolding crawl_file read_source
  crawl_file_unchanged path rules view sources stat s v l h e =
      let pointed : get_elem? (find view.file_id sources).0 (find view.file_id sources).1 ≡ some s =
        (find_lem view.file_id view.file_id sources).0
        ∙ ap (λ o. some (found_or_new view.file_id o)) l in
      ground (arith, v, pointed, start_of_end s stat.size h e)

  unfinished_pass :
      (path : Bytes) (rules : List (RuleConfig Regex)) (view : FileView) (s : SourceState)
      (line_position : ℕ) (r : Reader)
      → LacksNewline (text_of r)
      → 0 < length (text_of r)
      → r.end ≡ eof
      → view.age_at_end < 60 * second
      → pass_of regexp time path rules view s line_position r
        ≡ some (record {
          line_position = line_position;
          state_line = s.line;
          state_offset = s.offset;
          container_offset = 0;
          container_line = 0;
          events = [];
        })
  unfolding pass_of
  unfinished_pass path rules view s line_position r h l e a =
      read_lines-end (ltb view.age_at_end (60 * second)) (parse_by_rules regexp time path rules)
        (length (text_of r)) r _ h
      ∙ rw (e, lt→ltb 0 (length (text_of r)) l, lt→ltb view.age_at_end (60 * second) a)

  -- From some position on, an open file holds only the start of a line, and was modified in the
  -- last minute. Then a container without events is sent, with offset and line 0, and an update of
  -- the saved states with it makes the state of the source say 0, whatever it said before.
  pub unfinished_resets_offset :
      (path : Bytes) (rules : List (RuleConfig Regex)) (view : FileView)
      (sources saved : List SourceState) (pointer : ℕ) (s : SourceState)
      (position line_position now : ℕ) (r : Reader)
      → view.opens ≡ true
      → view.reader (encoding_of view.is_encoding rules) position ≡ some r
      → LacksNewline (text_of r)
      → 0 < length (text_of r)
      → r.end ≡ eof
      → view.age_at_end < 60 * second
      → ((read_file regexp time path rules view sources pointer s (position, line_position)).1
          ≡ some (empty_container path s))
        × (lookup_source s.source_id
              (update (record { container = empty_container path s; time = now }) saved)
            ≡ some (record {
              source_id = s.source_id;
              source = path;
              offset = 0;
              line = 0;
              last_updated_time_utc_number = now;
            }))
  unfolding read_file deliver
  unfinished_resets_offset path rules view sources saved pointer s position line_position now r o v
        h l e a =
      (
        rw (o, v, unfinished_pass path rules view s line_position r h l e a),
        lookup_source-update _ s.source_id saved ∙ rw (str_eq_refl s.source_id),
      )
