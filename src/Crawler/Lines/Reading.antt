-- ===== src/Crawler/Lines/Reading.antt =====
-- crawler_files.go: what `ReadBytes` gives, however the reads cut the text.
use dhound_agent.Base.{
  ℕ, List, [], ◌∷◌, ◌++◌, ◌≡◌, refl, sym, ap, ◌∙◌, ◌≢◌, none, some, arith, Bytes, All, append-nil,
  append_assoc, Option-cases, inl, inr,
}
use dhound_agent.Crawler.Lines.{Chunk, End, Reader, Segment, cut_line, read_bytes_from, read_bytes}

abbrev pub text_of_chunks : List Chunk → Bytes
text_of_chunks [] = []
text_of_chunks (c ∷ cs) = c.text ++ text_of_chunks cs

-- All that the reader will still give.
abbrev pub text_of : Reader → Bytes
text_of r = r.buffer ++ text_of_chunks r.chunks

-- The position of the file once all is read.
abbrev pub end_position_from : ℕ → List Chunk → ℕ
end_position_from position [] = position
end_position_from position (c ∷ cs) = end_position_from c.position cs

abbrev pub end_position : Reader → ℕ
end_position r = end_position_from r.position r.chunks

cut_line-append :
    (s more line rest : Bytes)
    → cut_line s ≡ some (line, rest)
    → cut_line (s ++ more) ≡ some (line, rest ++ more)
unfolding cut_line
cut_line-append [] more line rest h = cc
cut_line-append (c ∷ s) more line rest h = elim (Option-cases (cut_line s)) [
  | inl e ↦ ground arith
  | inr ((l, t), e) ↦ ground (arith, cut_line-append s more l t e)
]

-- The two ways a call ends.
pub data Reads (r : Reader) (s : Segment) : Type 0 where
  a_line :
      (rest : Bytes)
      → cut_line (text_of r) ≡ some (s.text, rest)
      → s.error ≡ none
      → text_of s.reader ≡ rest
      → s.reader.end ≡ r.end
      → end_position s.reader ≡ end_position r
      → Reads r s
  the_end :
      cut_line (text_of r) ≡ none
      → s.text ≡ text_of r
      → s.error ≡ some r.end
      → s.reader.position ≡ end_position r
      → Reads r s

Reads-cong :
    {r r' : Reader} {s : Segment}
    → text_of r' ≡ text_of r
    → r'.end ≡ r.end
    → end_position r' ≡ end_position r
    → Reads r' s
    → Reads r s
Reads-cong t n p (a_line rest e error text end position) =
    a_line rest (rw (← t) e) error text (end ∙ n) (position ∙ p)
Reads-cong t n p (the_end e text error position) =
    the_end (rw (← t) e) (text ∙ t) (error ∙ ap some n) (position ∙ p)

read_bytes_from-Reads :
    (buffer : Bytes) (chunks : List Chunk) (end : End) (position : ℕ)
    → Reads
        (record { buffer = buffer; chunks = chunks; end = end; position = position })
        (read_bytes_from buffer chunks end position)
unfolding read_bytes_from
read_bytes_from-Reads buffer [] end position = elim (Option-cases (cut_line buffer)) [
  | inl e ↦ rw (e, read_bytes_from) (the_end (rw append-nil e) (sym (append-nil buffer)) refl refl)
  | inr ((line, rest), e) ↦
      rw (e, read_bytes_from) (a_line rest (rw append-nil e) refl (append-nil rest) refl refl)
]
read_bytes_from-Reads buffer (chunk ∷ chunks) end position = elim (Option-cases (cut_line buffer)) [
  | inl e ↦
      rw (e, read_bytes_from)
        (Reads-cong (append_assoc buffer chunk.text (text_of_chunks chunks)) refl refl
          (read_bytes_from-Reads (buffer ++ chunk.text) chunks end chunk.position))
  | inr ((line, rest), e) ↦
      rw (e, read_bytes_from)
        (a_line (rest ++ text_of_chunks (chunk ∷ chunks))
          (cut_line-append buffer (text_of_chunks (chunk ∷ chunks)) line rest e) refl refl refl
          refl)
]

-- However the reads cut the text: if it has a newline, `ReadBytes` gives the text up to the first
-- one and leaves the rest; if not, it gives all and the reason of the end, with the file at its end.
pub read_bytes-Reads : (r : Reader) → Reads r (read_bytes r)
unfolding read_bytes
read_bytes-Reads r = read_bytes_from-Reads r.buffer r.chunks r.end r.position

abbrev pub LacksNewline : Bytes → Type 0
LacksNewline = All (λ c. c ≢ b'\n')

pub cut_line-newline :
    (body rest : Bytes)
    → LacksNewline body
    → cut_line (body ++ b'\n' ∷ rest) ≡ some (body ++ b'\n' ∷ [], rest)
unfolding cut_line
cut_line-newline [] rest h = refl
cut_line-newline (c ∷ body) rest h = ground (arith, h.0, cut_line-newline body rest h.1)

pub cut_line-Lacks : (s : Bytes) → LacksNewline s → cut_line s ≡ none
unfolding cut_line
cut_line-Lacks [] h = refl
cut_line-Lacks (c ∷ s) h = ground (arith, h.0, cut_line-Lacks s h.1)
