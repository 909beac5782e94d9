-- ===== src/Crawler/Lines/Unfinished.antt =====
-- crawler_files.go: what becomes of an unfinished last line.
use dhound_agent.Base.{
  ℕ, zero, suc, ◌+◌, ◌<◌, List, [], ◌∷◌, ◌++◌, ◌≡◌, refl, sym, ap, ◌∙◌, subst, Option, none, some,
  Bool, true, arith, Bytes, All, append-nil, length, inl, inr, lt→ltb, some_inj, Option-cases,
}
use dhound_agent.Events.{SecurityEvent}
use dhound_agent.Crawler.Lines.{
  Chunk, End, eof, Reader, Segment, cut_line, read_bytes, read_bytes_from, Pass, advance,
  read_lines, after_segment, after_line, line_of,
}
use dhound_agent.Crawler.Lines.Reading.{LacksNewline}
use dhound_agent.Crawler.Lines.Rounds.{drop_cr, read_lines-line}
use dhound_agent.Crawler.Lines.Numbering.{
  joined, number_after, events_of, last_events, last_number, read_lines_lem,
}

-- A reader with nothing more to read stays at its position.
read_bytes_from-buffered :
    (buffer : Bytes) (end : End) (position : ℕ)
    → let s = read_bytes_from buffer [] end position in
      (s.reader.chunks ≡ []) × (s.reader.position ≡ position)
unfolding read_bytes_from
read_bytes_from-buffered buffer end position = elim (Option-cases (cut_line buffer)) [
  | inl e ↦ rw (e, read_bytes_from) (refl, refl)
  | inr ((line, rest), e) ↦ rw (e, read_bytes_from) (refl, refl)
]

read_bytes-buffered :
    (r : Reader)
    → r.chunks ≡ []
    → ((read_bytes r).reader.chunks ≡ []) × ((read_bytes r).reader.position ≡ r.position)
unfolding read_bytes
read_bytes-buffered r h = rw h (read_bytes_from-buffered r.buffer r.end r.position)

-- Both saved offsets are `position`.
abbrev pub HasOffset : ℕ → Pass → Type 0
HasOffset position q = (q.state_offset ≡ position) × (q.container_offset ≡ position)

module _ (recent : Bool) (parse : ℕ → Bytes → List SecurityEvent) where
  after_line-HasOffset :
      (next : Reader → Pass → Option Pass) (error : Option End) (r : Reader) (p q : Pass)
      (position : ℕ)
      → r.chunks ≡ []
      → r.position ≡ position
      → ((r : Reader) (p' q' : Pass)
          → r.chunks ≡ []
          → r.position ≡ position
          → HasOffset position p'
          → next r p' ≡ some q'
          → HasOffset position q')
      → HasOffset position p
      → after_line recent parse next error r p ≡ some q
      → HasOffset position q
  unfolding after_line
  after_line-HasOffset next none r p q position c e ih h k = ih r p q c e h k
  after_line-HasOffset next (some end) r p q position c e ih h k =
      subst (HasOffset position) (some_inj k) h

  after_segment-HasOffset :
      (next : Reader → Pass → Option Pass) (s : Segment) (p q : Pass) (position : ℕ)
      → s.reader.chunks ≡ []
      → s.reader.position ≡ position
      → ((r : Reader) (p' q' : Pass)
          → r.chunks ≡ []
          → r.position ≡ position
          → HasOffset position p'
          → next r p' ≡ some q'
          → HasOffset position q')
      → HasOffset position p
      → after_segment recent parse next s p ≡ some q
      → HasOffset position q
  unfolding after_segment
  after_segment-HasOffset next s p q position c e ih h k = elim (Option-cases (line_of recent s)) [
    | inl stop ↦ subst (HasOffset position) (some_inj (rw (stop, after_segment) at k)) h
    | inr (line, go_on) ↦
        after_line-HasOffset next s.error s.reader (advance recent parse line s.reader.position p) q
          position c e ih (unfold advance in (e, e)) (rw (go_on, after_segment) at k)
  ]

  read_lines-HasOffset :
      (fuel : ℕ) (r : Reader) (p q : Pass) (position : ℕ)
      → r.chunks ≡ []
      → r.position ≡ position
      → HasOffset position p
      → read_lines recent parse fuel r p ≡ some q
      → HasOffset position q
  unfolding read_lines
  read_lines-HasOffset zero r p q position c e h k = cc
  read_lines-HasOffset (suc fuel) r p q position c e h k =
      let (c', e') = read_bytes-buffered r c in
      after_segment-HasOffset (read_lines recent parse fuel) (read_bytes r) p q position c' (e' ∙ e)
        (λ r' p' q' c'' e'' h' k'. read_lines-HasOffset fuel r' p' q' position c'' e'' h' k') h k

  single_chunk :
      (fuel : ℕ) (c : Chunk) (end : End) (position : ℕ) (p : Pass)
      → read_lines recent parse fuel
          (record { buffer = []; chunks = c ∷ []; end = end; position = position })
          p
        ≡ read_lines recent parse fuel
            (record { buffer = c.text; chunks = []; end = end; position = c.position })
            p
  unfolding read_lines read_bytes read_bytes_from cut_line
  single_chunk zero c end position p = refl
  single_chunk (suc fuel) c end position p = refl

unfinished_events :
    (parse : ℕ → Bytes → List SecurityEvent) (rest : Bytes) (n : ℕ)
    → 0 < length rest
    → last_events true parse eof rest n ≡ []
unfinished_events parse rest n h = rw (lt→ltb 0 (length rest) h)

-- A file that one read gives whole, while it is still written to: complete lines, at least one,
-- and then the start of a line. The loop, with fuel enough, leaves that start to be read when the
-- line is complete: the rules see the complete lines only. But the offset, in the state and in the
-- container, is where the file stood after the read, behind that start.
pub unfinished_line_is_lost :
    (parse : ℕ → Bytes → List SecurityEvent) (fuel : ℕ) (body : Bytes) (bodies : List Bytes)
    (rest : Bytes) (c : Chunk) (position : ℕ) (p : Pass)
    → length bodies + 1 < fuel
    → All LacksNewline (body ∷ bodies)
    → LacksNewline rest
    → 0 < length rest
    → c.text ≡ joined (body ∷ bodies) rest
    → let r : Reader = record { buffer = []; chunks = c ∷ []; end = eof; position = position } in
      (q : Pass) × (read_lines true parse fuel r p ≡ some q)
      × (q.events ≡ p.events ++ events_of true parse p.line_position (body ∷ bodies))
      × (q.state_offset ≡ c.position)
      × (q.container_offset ≡ c.position)
unfinished_line_is_lost parse zero body bodies rest c position p f hb hr h t = absurd (omega arith)
unfinished_line_is_lost parse (suc fuel) body bodies rest c position p f hb hr h t = (
  q,
  single_chunk true parse (suc fuel) c eof position p ∙ done,
  events
      ∙ ap (λ l. p.events ++ (events_of true parse p.line_position (body ∷ bodies) ++ l))
          (unfinished_events parse rest (number_after p.line_position (body ∷ bodies)) h)
      ∙ ap (λ l. p.events ++ l) (append-nil (events_of true parse p.line_position (body ∷ bodies))),
  offsets.0,
  offsets.1,
)
  where
    r : Reader
    r = record { buffer = c.text; chunks = []; end = eof; position = c.position }

    result :
        let n = number_after p.line_position (body ∷ bodies) in
        (q : Pass) × (read_lines true parse (suc fuel) r p ≡ some q)
        × (q.events
            ≡ p.events
              ++ (events_of true parse p.line_position (body ∷ bodies)
                  ++ last_events true parse eof rest n))
        × (q.line_position ≡ last_number true parse eof rest n)
    result =
        read_lines_lem true parse (suc fuel) (body ∷ bodies) rest r p (omega arith) hb hr
          (append-nil c.text ∙ t)

    q : Pass
    q = result.0

    done : read_lines true parse (suc fuel) r p ≡ some q
    done = result.1

    events :
        q.events
        ≡ p.events
          ++ (events_of true parse p.line_position (body ∷ bodies)
              ++ last_events true parse eof rest (number_after p.line_position (body ∷ bodies)))
    events = result.2

    offsets : HasOffset c.position q
    offsets =
        let (r', e, t', end, position', step) =
          read_lines-line true parse fuel r p body (joined bodies rest) hb.0
            (append-nil c.text ∙ t) in
        let (c', e') = read_bytes-buffered r refl in
        let at : r'.position ≡ c.position = ap (λ x. x.position) e ∙ e' in
        read_lines-HasOffset true parse fuel r' (advance true parse (drop_cr body) r'.position p) q
          c.position (ap (λ x. x.chunks) e ∙ c') at (unfold advance in (at, at)) (sym step ∙ done)
