-- ===== src/Crawler/RunOnce/Following/Passes.antt =====
-- crawler_files.go: one round over a file that has grown by complete lines.
use dhound_agent.Base.{
  ℕ, suc, ◌+◌, ◌*◌, ◌<◌, ◌≤◌, List, [], ◌∷◌, ◌++◌, ◌≡◌, refl, ap, ◌∙◌, none, some, true, false, ltb,
  if◌then◌else◌, length, length-append, drop, Bytes, str_eq_iff, All, append-nil, arith, lt→ltb,
  not_lt_one, modify,
}
use dhound_agent.Events.{SourceState}
use dhound_agent.SystemState.{find}
use dhound_agent.SystemState.Lookup.{lookup_source, found_or_new, find_lem}
use dhound_agent.Regexp.{Regexp}
use dhound_agent.Dates.{Time}
use dhound_agent.Config.{RuleConfig}
use dhound_agent.Crawler.Lines.{Reader, Pass}
use dhound_agent.Crawler.Lines.Reading.{text_of, end_position, LacksNewline}
use dhound_agent.Crawler.Lines.Numbering.{joined, events_of, read_lines_lem}
use dhound_agent.Crawler.Lines.Positions.{read_lines-IsAt, drift}
use dhound_agent.Crawler.Parsing.{parse_by_rules}
use dhound_agent.Crawler.RunOnce.{
  second, FileView, max_file_dead_time, start_of, pass_of, deliver, read_file, read_source,
  crawl_file,
}
use dhound_agent.Crawler.RunOnce.Outcomes.{moved}
use dhound_agent.Crawler.RunOnce.Following.{Shows, IsReadTo, container_for}

pub found-source_id :
    (id : Bytes) (sources : List SourceState)
    → (found_or_new id (lookup_source id sources)).source_id ≡ id
unfolding lookup_source
found-source_id id [] = refl
found-source_id id (s ∷ rest) = ground (arith, str_eq_iff id s.source_id, found-source_id id rest)

pub length-joined : (bodies : List Bytes) → length bodies ≤ length (joined bodies [])
length-joined [] = omega arith
length-joined (body ∷ bodies) =
    omega (arith, length-append body (b'\n' ∷ joined bodies []), length-joined bodies)

drop-length-append {ℓ} : {A : Type ℓ} (xs ys : List A) → drop (length xs) (xs ++ ys) ≡ ys
drop-length-append [] ys = refl
drop-length-append (x ∷ xs) ys = drop-length-append xs ys

-- A file without new lines is not read; of one with new lines, what follows is read.
start_of_read :
    (s : SourceState) (text new : Bytes) (line : ℕ)
    → IsReadTo s text line
    → start_of s (length (text ++ new))
      ≡ (if ltb 0 (length new) then some (length text, line) else none)
unfolding start_of
start_of_read s text new line h = ground (arith, length-append text new)

-- The variables before the loop over the lines.
abbrev begin : SourceState → ℕ → Pass
begin s line = record {
  line_position = line;
  state_line = s.line;
  state_offset = s.offset;
  container_offset = 0;
  container_line = 0;
  events = [];
}

module _ (regexp : Regexp) (time : Time) (path : Bytes)
    (rules : List (RuleConfig regexp.Regex)) where
  pass_of_lines :
      (view : FileView) (s : SourceState) (line : ℕ) (bodies : List Bytes) (r : Reader)
      → All LacksNewline bodies
      → 0 < line
      → text_of r ≡ joined bodies []
      → (q : Pass) × (pass_of regexp time path rules view s line r ≡ some q)
        × (q.state_line ≡ line + length bodies + 1)
        × (q.state_offset ≡ end_position r)
        × (q.container_line ≡ line + length bodies + 1)
        × (q.container_offset ≡ end_position r)
        × (q.events ≡ events_of true (parse_by_rules regexp time path rules) line bodies)
  unfolding pass_of
  pass_of_lines view s line bodies r h positive t =
      let recent = ltb view.age_at_end (60 * second) in
      let parse = parse_by_rules regexp time path rules in
      let fuel : length bodies < suc (length (text_of r)) =
        omega (arith, ap length t, length-joined bodies) in
      let p = begin s line in
      let (q, done, events, number) = read_lines_lem recent parse _ bodies [] r p fuel h tt t in
      let (q', done', at) = read_lines-IsAt recent parse _ bodies [] r p fuel h tt t refl in
      let same : q' ≡ q = cc (done, done') in
      let last : q.line_position ≡ line + length bodies + 1 = number ∙ drift line bodies positive in
      (
        q,
        done,
        cc (same, at.state_line_lem, last),
        cc (same, at.state_offset_lem),
        cc (same, at.container_line_lem, last),
        cc (same, at.container_offset_lem),
        events ∙ append-nil _,
      )

  -- A file that is shown is read from where its state says.
  crawl_file_shown :
      (view : FileView) (sources : List SourceState) (text : Bytes)
      → (shown : Shows rules view text)
      → crawl_file regexp time path rules view sources
        ≡ read_source regexp time path rules view
            (length text)
            (find view.file_id sources).0
            (find view.file_id sources).1
            (some (found_or_new view.file_id (lookup_source view.file_id sources)))
  unfolding crawl_file
  crawl_file_shown view sources text shown =
      let pointed = (find_lem view.file_id view.file_id sources).0 in
      let recent : ltb (max_file_dead_time second rules) shown.stat.age ≡ false =
        ground (arith, shown.is_recent) in
      rw (
        not_lt_one (length view.file_id) shown.has_id,
        shown.has_stat,
        crawl_file,
        shown.is_file,
        recent,
        pointed,
        shown.size_lem,
      )

  -- Without new lines nothing is written or sent.
  pub crawl_file_same :
      (view : FileView) (sources : List SourceState) (text : Bytes) (line : ℕ)
      → IsReadTo (found_or_new view.file_id (lookup_source view.file_id sources)) text line
      → Shows rules view (text ++ [])
      → crawl_file regexp time path rules view sources ≡ ((find view.file_id sources).0, none)
  unfolding read_source
  crawl_file_same view sources text line at shown =
      let s = found_or_new view.file_id (lookup_source view.file_id sources) in
      crawl_file_shown view sources (text ++ []) shown
      ∙ rw (start_of_read s text [] line at, read_source)

  -- New lines are read, and the state is written.
  pub crawl_file_grown :
      (view : FileView) (sources : List SourceState) (text : Bytes) (line : ℕ) (lines : List Bytes)
      → IsReadTo (found_or_new view.file_id (lookup_source view.file_id sources)) text line
      → All LacksNewline lines
      → 0 < length lines
      → Shows rules view (text ++ joined lines [])
      → crawl_file regexp time path rules view sources ≡ (
        modify
            (find view.file_id sources).0
            (find view.file_id sources).1
            (moved (line + length lines + 1) (length (text ++ joined lines []))),
        some (
            container_for regexp path rules view.file_id text line
              (record { time = time; lines = lines })),
      )
  unfolding read_source read_file deliver
  crawl_file_grown view sources text line lines at h some_lines shown =
      let s = found_or_new view.file_id (lookup_source view.file_id sources) in
      let new = joined lines [] in
      let (r, reads, text_r, end_r, _) =
        shown.reads (length text) (omega (arith, length-append text new)) in
      let (q, done, state_line, state_offset, line_lem, offset_lem, events) =
        pass_of_lines view s line lines r h at.2 (text_r ∙ drop-length-append text new) in
      let longer : ltb 0 (length new) ≡ true = lt→ltb 0 _ (omega (arith, length-joined lines)) in
      crawl_file_shown view sources (text ++ new) shown
      ∙ rw (
        start_of_read s text new line at,
        longer,
        read_source,
        shown.opens_lem,
        reads,
        done,
        state_line,
        state_offset,
        line_lem,
        offset_lem,
        events,
        end_r,
        found-source_id view.file_id sources,
      )
