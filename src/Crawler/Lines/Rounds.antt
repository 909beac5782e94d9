-- ===== src/Crawler/Lines/Rounds.antt =====
-- crawler_files.go: one round of the loop over the lines, on a complete line and at the end.
use mathlib.Core.List.{reverse-append, reverse-cons}
use dhound_agent.Base.{
  ℕ, suc, List, [], ◌∷◌, ◌++◌, ◌≡◌, refl, sym, ap, ◌∙◌, subst, none, some, Bool, ◌&&◌, arith, Bytes,
  All-append, reverse, length, length-append, ltb, if◌then◌else◌, ◌==◌, inl, inr, lt→ltb,
  Bool-cases,
}
use dhound_agent.Events.{SecurityEvent}
use dhound_agent.Crawler.Lines.{
  End, Reader, Segment, cut_line, read_bytes, strip_backwards, is_eof, line_of_text, line_of, Pass,
  advance, after_segment, read_lines,
}
use dhound_agent.Crawler.Lines.Reading.{
  text_of, end_position, Reads, a_line, the_end, read_bytes-Reads, LacksNewline, cut_line-newline,
  cut_line-Lacks,
}

-- A line as the rules see it: without a `\r` at its end.
abbrev pub drop_cr : Bytes → Bytes
drop_cr body = elim (reverse body) [ [] ↦ [] | d ∷ r ↦ reverse (if d == b'\r' then r else d ∷ r) ]

strip-newline :
    (body : Bytes) → strip_backwards (reverse (body ++ b'\n' ∷ [])) ≡ some (drop_cr body)
unfolding strip_backwards
strip-newline body = rw (reverse-append body (b'\n' ∷ [])) (cases (reverse body))
  where
    cases :
        (r : Bytes)
        → strip_backwards (b'\n' ∷ r)
          ≡ some (elim r [ [] ↦ [] | d ∷ t ↦ reverse (if d == b'\r' then t else d ∷ t) ])
    cases [] = refl
    cases (d ∷ t) = refl

LacksNewline-reverse : (s : Bytes) → LacksNewline s → LacksNewline (reverse s)
LacksNewline-reverse [] h = tt
LacksNewline-reverse (c ∷ s) h =
    rw (reverse-cons c s) (All-append _ (reverse s) (c ∷ []) (LacksNewline-reverse s h.1) (h.0, tt))

strip_backwards-Lacks : (r : Bytes) → LacksNewline r → strip_backwards r ≡ none
unfolding strip_backwards
strip_backwards-Lacks [] h = refl
strip_backwards-Lacks (c ∷ []) h = ground (arith, h.0)
strip_backwards-Lacks (c ∷ d ∷ r) h = ground (arith, h.0)

-- Whether the loop leaves the text after the last newline alone.
abbrev pub stops : Bool → End → Bytes → Bool
stops recent end rest = ltb 0 (length rest) && (is_eof (some end) && recent)

module _ (recent : Bool) (parse : ℕ → Bytes → List SecurityEvent) where
  line_of-line :
      (s : Segment) (body : Bytes)
      → s.text ≡ body ++ b'\n' ∷ []
      → line_of recent s ≡ some (drop_cr body)
  unfolding line_of line_of_text
  line_of-line s body h = rw (
    h,
    lt→ltb 0 (length (body ++ b'\n' ∷ [])) (omega (arith, length-append body (b'\n' ∷ []))),
    line_of_text,
    strip-newline body,
  )

  line_of_text-end :
      (end : End) (text : Bytes)
      → LacksNewline text
      → line_of_text recent (some end) text
        ≡ (if is_eof (some end) && recent then none else some text)
  unfolding line_of_text
  line_of_text-end end text h =
      rw (line_of_text, strip_backwards-Lacks (reverse text) (LacksNewline-reverse text h))

  end_cases :
      (end : End) (text : Bytes)
      → LacksNewline text
      → (if ltb 0 (length text) then line_of_text recent (some end) text else some [])
        ≡ (if stops recent end text then none else some text)
  end_cases end [] h = refl
  end_cases end (c ∷ text) h =
      rw (lt→ltb 0 (suc (length text)) (omega arith)) (line_of_text-end end (c ∷ text) h)

  line_of-end :
      (s : Segment) (end : End)
      → s.error ≡ some end
      → LacksNewline s.text
      → line_of recent s ≡ (if stops recent end s.text then none else some s.text)
  unfolding line_of
  line_of-end s end h k = rw h (end_cases end s.text k)

  -- A round on a complete line goes on behind it.
  pub read_lines-line :
      (fuel : ℕ) (r : Reader) (p : Pass) (body more : Bytes)
      → LacksNewline body
      → text_of r ≡ body ++ b'\n' ∷ more
      → (r' : Reader) × (r' ≡ (read_bytes r).reader)
        × (text_of r' ≡ more)
        × (r'.end ≡ r.end)
        × (end_position r' ≡ end_position r)
        × (read_lines recent parse (suc fuel) r p
            ≡ read_lines recent parse fuel r' (advance recent parse (drop_cr body) r'.position p))
  unfolding read_lines after_segment
  read_lines-line fuel r p body more h t = go (read_bytes r) (read_bytes-Reads r)
    where
      cut : cut_line (text_of r) ≡ some (body ++ b'\n' ∷ [], more)
      cut = rw t (cut_line-newline body more h)

      go :
          (s : Segment)
          → Reads r s
          → (r' : Reader) × (r' ≡ s.reader)
            × (text_of r' ≡ more)
            × (r'.end ≡ r.end)
            × (end_position r' ≡ end_position r)
            × (after_segment recent parse (read_lines recent parse fuel) s p
                ≡ read_lines recent parse fuel r'
                    (advance recent parse (drop_cr body) r'.position p))
      go s (a_line rest e error text end position) =
          let same : (s.text ≡ body ++ b'\n' ∷ []) × (rest ≡ more) = (cc (e, cut), cc (e, cut)) in
          (
            s.reader,
            refl,
            text ∙ same.1,
            end,
            position,
            rw (line_of-line s body same.0, after_segment, error),
          )
      go s (the_end e text error position) = cc (e, cut)

  -- The round at the end stops, or takes what is left as the last line.
  pub read_lines-end :
      (fuel : ℕ) (r : Reader) (p : Pass)
      → LacksNewline (text_of r)
      → read_lines recent parse (suc fuel) r p
        ≡ some (
            if stops recent r.end (text_of r)
            then p
            else advance recent parse (text_of r) (end_position r) p)
  unfolding read_lines after_segment
  read_lines-end fuel r p h = go (read_bytes r) (read_bytes-Reads r)
    where
      go :
          (s : Segment)
          → Reads r s
          → after_segment recent parse (read_lines recent parse fuel) s p
            ≡ some (
                if stops recent r.end (text_of r)
                then p
                else advance recent parse (text_of r) (end_position r) p)
      go s (a_line rest e error text end position) = cc (e, cut_line-Lacks (text_of r) h)
      go s (the_end e text error position) =
          let line : line_of recent s
              ≡ (if stops recent r.end (text_of r) then none else some (text_of r)) =
            line_of-end s r.end error (subst LacksNewline (sym text) h)
            ∙ ap (λ t. if stops recent r.end t then none else some t) text in
          elim (Bool-cases (stops recent r.end (text_of r))) [
            | inl yes_stop ↦ rw (line, after_segment, yes_stop)
            | inr no_stop ↦ rw (line, after_segment, no_stop, error, position)
          ]
