-- ===== src/Crawler/Lines/Positions.antt =====
-- crawler_files.go: the position and the line number that a pass over a file leaves behind.
use dhound_agent.Base.{
  ℕ, zero, suc, ◌+◌, ◌<◌, List, [], ◌∷◌, ◌≡◌, refl, ap, ◌∙◌, subst, some, Bool, false, arith, Bytes,
  All, length,
}
use dhound_agent.Events.{SecurityEvent}
use dhound_agent.Crawler.Lines.{Reader, Pass, advance, read_lines}
use dhound_agent.Crawler.Lines.Reading.{text_of, end_position, LacksNewline}
use dhound_agent.Crawler.Lines.Rounds.{drop_cr, stops, read_lines-line, read_lines-end}
use dhound_agent.Crawler.Lines.Numbering.{joined, bump, number_after, read_lines_lem}

bump_pos : (n : ℕ) → 0 < n → bump n ≡ n + 1
bump_pos n h = ground arith

number_after-length :
    (n : ℕ) (bodies : List Bytes) → 0 < n → number_after n bodies ≡ n + length bodies
number_after-length n [] h = omega arith
number_after-length n (body ∷ bodies) h =
    ap (λ m. number_after m bodies) (bump_pos n h)
    ∙ number_after-length (n + 1) bodies (omega arith)
    ∙ omega arith

pub drift :
    (n : ℕ) (bodies : List Bytes) → 0 < n → bump (number_after n bodies) ≡ n + length bodies + 1
drift n bodies h =
    ap bump (number_after-length n bodies h) ∙ bump_pos (n + length bodies) (omega arith)

module _ (recent : Bool) (parse : ℕ → Bytes → List SecurityEvent) where
  -- What the pass hands to the state of the source and to the container.
  pub record IsAt (position : ℕ) (q : Pass) : Type 0 where
    pub state_offset_lem : q.state_offset ≡ position
    pub container_offset_lem : q.container_offset ≡ position
    pub state_line_lem : q.state_line ≡ q.line_position
    pub container_line_lem : q.container_line ≡ q.line_position

  advance-IsAt :
      (line : Bytes) (position : ℕ) (p : Pass)
      → IsAt position (advance recent parse line position p)
  unfolding advance
  advance-IsAt line position p = record {
    state_offset_lem = refl;
    container_offset_lem = refl;
    state_line_lem = refl;
    container_line_lem = refl;
  }

  -- If the loop takes all of the text, and has more fuel than complete lines, it ends, and the
  -- state of the source and the container both say the end of the file's text and the current line
  -- number.
  pub read_lines-IsAt :
      (fuel : ℕ) (bodies : List Bytes) (rest : Bytes) (r : Reader) (p : Pass)
      → length bodies < fuel
      → All LacksNewline bodies
      → LacksNewline rest
      → text_of r ≡ joined bodies rest
      → stops recent r.end rest ≡ false
      → (q : Pass) × (read_lines recent parse fuel r p ≡ some q) × IsAt (end_position r) q
  read_lines-IsAt zero bodies rest r p f hb hr t k = absurd (omega arith)
  read_lines-IsAt (suc fuel) [] rest r p f hb hr t k = (
    advance recent parse (text_of r) (end_position r) p,
    read_lines-end recent parse fuel r p (rw t hr) ∙ (rw (t, k)),
    advance-IsAt (text_of r) (end_position r) p,
  )
  read_lines-IsAt (suc fuel) (body ∷ bodies) rest r p f hb hr t k =
      let (r', _, t', end, position, step) =
        read_lines-line recent parse fuel r p body (joined bodies rest) hb.0 t in
      let (q, done, at) =
        read_lines-IsAt fuel bodies rest r' (advance recent parse (drop_cr body) r'.position p)
          (omega arith) hb.1 hr t' (rw end k) in
      (q, step ∙ done, subst (λ n. IsAt n q) position at)

  -- The count of lines drifts. A pass over complete lines, from a line number above 0 on and with
  -- more fuel than lines, adds one more than the count of the lines to it, since the empty text at
  -- the end is counted too.
  line_count_drifts :
      (fuel : ℕ) (bodies : List Bytes) (r : Reader) (p : Pass)
      → length bodies < fuel
      → All LacksNewline bodies
      → 0 < p.line_position
      → text_of r ≡ joined bodies []
      → (q : Pass) × (read_lines recent parse fuel r p ≡ some q)
        × (q.line_position ≡ p.line_position + length bodies + 1)
  line_count_drifts fuel bodies r p f hb h t =
      let (q, done, events, number) = read_lines_lem recent parse fuel bodies [] r p f hb tt t in
      (q, done, number ∙ drift p.line_position bodies h)
