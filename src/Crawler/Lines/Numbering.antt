-- ===== src/Crawler/Lines/Numbering.antt =====
-- crawler_files.go: which lines the loop hands to the rules, and under which numbers.
use mathlib.Core.Path.{ap₂}
use native.Mathlib.Decide.{ℕ_discrete}
use dhound_agent.Base.{
  ℕ, zero, suc, ◌+◌, ◌<◌, ◌≤◌, List, [], ◌∷◌, ◌++◌, ◌≡◌, refl, sym, ap, ◌∙◌, ◌≢◌, some, Bool, arith,
  Bytes, All, append-nil, append_assoc, length, ltb, if◌then◌else◌, inl, inr, Bool-cases,
}
use dhound_agent.Events.{SecurityEvent}
use dhound_agent.Crawler.Lines.{End, Reader, Pass, advance, read_lines}
use dhound_agent.Crawler.Lines.Reading.{text_of, end_position, LacksNewline}
use dhound_agent.Crawler.Lines.Rounds.{drop_cr, stops, read_lines-line, read_lines-end}

-- A text as its complete lines, each without its newline, and what follows the last newline.
abbrev pub joined : List Bytes → Bytes → Bytes
joined [] rest = rest
joined (body ∷ bodies) rest = body ++ b'\n' ∷ joined bodies rest

-- The number after one more line; a position without a number stays so.
abbrev pub bump : ℕ → ℕ
bump n = if ltb 0 n then n + 1 else n

abbrev pub number_after : ℕ → List Bytes → ℕ
number_after n [] = n
number_after n (body ∷ bodies) = number_after (bump n) bodies

module _ (recent : Bool) (parse : ℕ → Bytes → List SecurityEvent) where
  abbrev pub events_of_line : ℕ → Bytes → List SecurityEvent
  events_of_line n line = if ltb 0 (length line) then parse n line else []

  -- The events of the complete lines, the first of which follows the number `n`.
  abbrev pub events_of : ℕ → List Bytes → List SecurityEvent
  events_of n [] = []
  events_of n (body ∷ bodies) = events_of_line (bump n) (drop_cr body) ++ events_of (bump n) bodies

  -- What the text after the last newline adds, after the number `n`.
  abbrev pub last_events : End → Bytes → ℕ → List SecurityEvent
  last_events end rest n = if stops recent end rest then [] else events_of_line (bump n) rest

  abbrev pub last_number : End → Bytes → ℕ → ℕ
  last_number end rest n = if stops recent end rest then n else bump n

  advance-events :
      (line : Bytes) (position : ℕ) (p : Pass)
      → (advance recent parse line position p).events
        ≡ p.events ++ events_of_line (bump p.line_position) line
  unfolding advance
  advance-events line position p = ground (arith, append-nil p.events)

  advance-line_position :
      (line : Bytes) (position : ℕ) (p : Pass)
      → (advance recent parse line position p).line_position ≡ bump p.line_position
  unfolding advance
  advance-line_position line position p = refl

  last-lem :
      (end : End) (rest : Bytes) (position : ℕ) (p : Pass)
      → let q = if stops recent end rest then p else advance recent parse rest position p in
        (q.events ≡ p.events ++ last_events end rest p.line_position)
        × (q.line_position ≡ last_number end rest p.line_position)
  last-lem end rest position p = elim (Bool-cases (stops recent end rest)) [
    | inl e ↦ rw e (sym (append-nil p.events), refl)
    | inr e ↦ rw e (advance-events rest position p, advance-line_position rest position p)
  ]

  -- However the reads cut the text of the file, with more fuel than complete lines the loop ends.
  -- The rules have seen the complete lines, in order and without line ends, each under its number,
  -- and then the text after the last newline, unless the file has ended there and is still written
  -- to. Empty lines are skipped, but counted.
  pub read_lines_lem :
      (fuel : ℕ) (bodies : List Bytes) (rest : Bytes) (r : Reader) (p : Pass)
      → length bodies < fuel
      → All LacksNewline bodies
      → LacksNewline rest
      → text_of r ≡ joined bodies rest
      → let n = number_after p.line_position bodies in
        (q : Pass) × (read_lines recent parse fuel r p ≡ some q)
        × (q.events ≡ p.events ++ (events_of p.line_position bodies ++ last_events r.end rest n))
        × (q.line_position ≡ last_number r.end rest n)
  unfolding advance
  read_lines_lem zero bodies rest r p f hb hr t = absurd (omega arith)
  read_lines_lem (suc fuel) [] rest r p f hb hr t =
      let (events, number) = last-lem r.end (text_of r) (end_position r) p in
      (
        _,
        read_lines-end recent parse fuel r p (rw t hr),
        events ∙ ap (λ x. p.events ++ last_events r.end x p.line_position) t,
        number ∙ ap (λ x. last_number r.end x p.line_position) t,
      )
  read_lines_lem (suc fuel) (body ∷ bodies) rest r p f hb hr t =
      let (r', _, t', end, position, step) =
        read_lines-line recent parse fuel r p body (joined bodies rest) hb.0 t in
      let p' = advance recent parse (drop_cr body) r'.position p in
      let m = bump p.line_position in
      let line = events_of_line m (drop_cr body) in
      let (q, done, events, number) =
        read_lines_lem fuel bodies rest r' p' (omega arith) hb.1 hr t' in
      (
        q,
        step ∙ done,
        events
            ∙ ap
                (λ e.
                  p'.events ++ (events_of m bodies ++ last_events e rest (number_after m bodies)))
                end
            ∙ ap (λ l. l ++ (events_of m bodies ++ last_events r.end rest (number_after m bodies)))
                (advance-events (drop_cr body) r'.position p)
            ∙ append_assoc p.events line
                (events_of m bodies ++ last_events r.end rest (number_after m bodies))
            ∙ ap (λ l. p.events ++ l)
                (sym (
                  append_assoc line (events_of m bodies)
                    (last_events r.end rest (number_after m bodies)))),
        number ∙ ap (λ e. last_number e rest (number_after m bodies)) end,
      )

longer :
    (c : ℕ) (s : Bytes)
    → c ≢ b'\n'
    → (bodies : List Bytes) (rest : Bytes) → joined bodies rest ≡ s
    → All LacksNewline bodies
    → LacksNewline rest
    → length bodies ≤ length s
    → (bodies' : List Bytes) × (rest' : Bytes) × (joined bodies' rest' ≡ c ∷ s)
      × All LacksNewline bodies'
      × LacksNewline rest'
      × (length bodies' ≤ suc (length s))
longer c s other [] rest e hb hr n = ([], c ∷ rest, ap (λ l. c ∷ l) e, tt, (other, hr), omega arith)
longer c s other (body ∷ bodies) rest e hb hr n =
    ((c ∷ body) ∷ bodies, rest, ap (λ l. c ∷ l) e, ((other, hb.0), hb.1), hr, omega arith)

-- Every text is a number of complete lines and what follows.
pub split_text :
    (s : Bytes)
    → (bodies : List Bytes) × (rest : Bytes) × (joined bodies rest ≡ s)
      × All LacksNewline bodies
      × LacksNewline rest
      × (length bodies ≤ length s)
split_text [] = ([], [], refl, tt, tt, omega arith)
split_text (c ∷ s) =
    let (bodies, rest, e, hb, hr, n) = split_text s in
    elim (ℕ_discrete c b'\n') [
      | yes newline ↦ ([] ∷ bodies, rest, ap₂ ◌∷◌ (sym newline) e, (tt, hb), hr, omega arith)
      | no other ↦ longer c s other bodies rest e hb hr n
    ]

module _ (recent : Bool) (parse : ℕ → Bytes → List SecurityEvent) where
  -- With more fuel than the text has bytes, the loop ends.
  pub read_lines_total :
      (fuel : ℕ) (r : Reader) (p : Pass)
      → length (text_of r) < fuel
      → (q : Pass) × (read_lines recent parse fuel r p ≡ some q)
  read_lines_total fuel r p h =
      let (bodies, rest, e, hb, hr, n) = split_text (text_of r) in
      let (q, done, _, _) =
        read_lines_lem recent parse fuel bodies rest r p (omega arith) hb hr (sym e) in
      (q, done)
