-- ===== src/Crawler/RunOnce/Outcomes.antt =====
-- crawler_files.go: what a round over one file can do to the list of the sources.
use dhound_agent.Base.{
  ℕ, List, ◌≡◌, refl, Option, none, some, Bytes, ltb, length, modify, Bool-cases, Option-cases, inl,
  inr,
}
use dhound_agent.Events.{SourceState}
use dhound_agent.SystemState.{find}
use dhound_agent.Regexp.{Regexp}
use dhound_agent.Dates.{Time}
use dhound_agent.Config.{RuleConfig}
use dhound_agent.Crawler.Lines.{Pass}
use dhound_agent.Crawler.RunOnce.{
  second, FileView, start_of, max_file_dead_time, encoding_of, deliver, read_file, read_source,
  crawl_file,
}

-- What a pass writes through the pointer.
abbrev pub moved : ℕ → ℕ → SourceState → SourceState
moved line offset old = record old { line = line; offset = offset }

-- Nothing is written, or a line and an offset where the pointer shows.
pub data Writes (sources : List SourceState) (pointer : ℕ) (after : List SourceState) : Type 0 where
  kept : after ≡ sources → Writes sources pointer after
  written :
      (line offset : ℕ)
      → after ≡ modify sources pointer (moved line offset)
      → Writes sources pointer after

-- The file is left alone, or its state is looked for.
pub data Outcome (id : Bytes) (sources after : List SourceState) : Type 0 where
  skipped : after ≡ sources → Outcome id sources after
  looked_up : Writes (find id sources).0 (find id sources).1 after → Outcome id sources after

module _ (regexp : Regexp) (time : Time) where
  open regexp use {Regex}

  deliver-Writes :
      (path : Bytes) (sources : List SourceState) (pointer : ℕ) (s : SourceState) (o : Option Pass)
      → Writes sources pointer (deliver regexp time path sources pointer s o).0
  unfolding deliver
  deliver-Writes path sources pointer s none = kept refl
  deliver-Writes path sources pointer s (some q) = written q.state_line q.state_offset refl

  read_file-Writes :
      (path : Bytes) (rules : List (RuleConfig Regex)) (view : FileView)
      (sources : List SourceState) (pointer : ℕ) (s : SourceState) (from : ℕ × ℕ)
      → Writes sources pointer (read_file regexp time path rules view sources pointer s from).0
  unfolding read_file
  read_file-Writes path rules view sources pointer s (position, line) =
      elim (Bool-cases view.opens) [
        | inr e ↦ rw e (kept refl)
        | inl e ↦ elim (Option-cases (view.reader (encoding_of view.is_encoding rules) position)) [
          | inl f ↦ rw (e, f, read_file) (kept refl)
          | inr (r, f) ↦ rw (e, f, read_file) (deliver-Writes path sources pointer s _)
        ]
      ]

  read_source-Writes :
      (path : Bytes) (rules : List (RuleConfig Regex)) (view : FileView) (size : ℕ)
      (sources : List SourceState) (pointer : ℕ) (o : Option SourceState)
      → Writes sources pointer (read_source regexp time path rules view size sources pointer o).0
  unfolding read_source
  read_source-Writes path rules view size sources pointer none = kept refl
  read_source-Writes path rules view size sources pointer (some s) =
      elim (Option-cases (start_of s size)) [
        | inl e ↦ rw (e, read_source) (kept refl)
        | inr (from, e) ↦
            rw (e, read_source) (read_file-Writes path rules view sources pointer s from)
      ]

  pub crawl_file-Outcome :
      (path : Bytes) (rules : List (RuleConfig Regex)) (view : FileView)
      (sources : List SourceState)
      → Outcome view.file_id sources (crawl_file regexp time path rules view sources).0
  unfolding crawl_file
  crawl_file-Outcome path rules view sources = elim (Bool-cases (ltb (length view.file_id) 1)) [
    | inl e ↦ rw e (skipped refl)
    | inr e ↦ elim (Option-cases view.stat) [
      | inl f ↦ rw (e, f, crawl_file) (skipped refl)
      | inr (stat, f) ↦ elim (Bool-cases stat.is_dir) [
        | inl g ↦ rw (e, f, crawl_file, g) (skipped refl)
        | inr g ↦ elim (Bool-cases (ltb (max_file_dead_time second rules) stat.age)) [
          | inl old ↦ rw (e, f, crawl_file, g, old) (skipped refl)
          | inr recent ↦
              rw (e, f, crawl_file, g, recent)
                (looked_up (read_source-Writes path rules view stat.size _ _ _))
        ]
      ]
    ]
  ]
