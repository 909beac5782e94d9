-- ===== src/Crawler/RunOnce/Following/History.antt =====
-- crawler_files.go: which lines of a growing file the rules see over all rounds, and what is sent.
use dhound_agent.Base.{
  ℕ, ◌+◌, ◌<◌, List, [], ◌∷◌, ◌++◌, ◌≡◌, refl, sym, ap, ◌∙◌, subst, none, some, inl, inr, ltb,
  lt→ltb, Bool-cases, length, length-append, Bytes, str_eq_refl, All, All-append, append-nil, arith,
  modify,
}
use dhound_agent.Events.{SecurityEventsContainer, SourceState}
use dhound_agent.SystemState.{find}
use dhound_agent.SystemState.Lookup.{lookup_source, found_or_new, find_lem}
use dhound_agent.SystemState.Written.{lookup_source-modify-find}
use dhound_agent.Regexp.{Regexp}
use dhound_agent.Dates.{Time}
use dhound_agent.Config.{RuleConfig}
use dhound_agent.Crawler.Lines.Reading.{LacksNewline}
use dhound_agent.Crawler.Lines.Numbering.{joined}
use dhound_agent.Crawler.EventLog.Others.{lookup_source-crawl_path}
use dhound_agent.Crawler.RunOnce.{second, Stat, FileView, max_file_dead_time, crawl_file}
use dhound_agent.Crawler.RunOnce.Outcomes.{moved}
use dhound_agent.Crawler.RunOnce.Others.{lookup_source-crawl_file}
use dhound_agent.Crawler.RunOnce.Following.{
  Shows, IsReadTo, Part, IsProper, text_after, line_after, to_list, container_for, containers,
  Followed, start, other, too_old, event_log, grows,
}
use dhound_agent.Crawler.RunOnce.Following.Passes.{crawl_file_same, crawl_file_grown}

pub text_after-append :
    (text : Bytes) (xs ys : List Part)
    → text_after text (xs ++ ys) ≡ text_after (text_after text xs) ys
text_after-append text [] ys = refl
text_after-append text (x ∷ xs) ys = text_after-append (text ++ joined x.lines []) xs ys

pub line_after-append :
    (line : ℕ) (xs ys : List Part) → line_after line (xs ++ ys) ≡ line_after (line_after line xs) ys
line_after-append line [] ys = refl
line_after-append line (x ∷ xs) ys = line_after-append (line + length x.lines + 1) xs ys

-- What the state of a source is after its write.
moved-IsReadTo :
    (s : SourceState) (text : Bytes) (line count : ℕ)
    → 0 < length text
    → IsReadTo (moved (line + count + 1) (length text) s) text (line + count + 1)
moved-IsReadTo s text line count h = ground arith

module _ (regexp : Regexp) (path : Bytes) (rules : List (RuleConfig regexp.Regex))
    (id : Bytes) where
  pub containers-append :
      (text : Bytes) (line : ℕ) (xs ys : List Part)
      → containers regexp path rules id text line (xs ++ ys)
        ≡ containers regexp path rules id text line xs
          ++ containers regexp path rules id (text_after text xs) (line_after line xs) ys
  containers-append text line [] ys = refl
  containers-append text line (x ∷ xs) ys =
      ap (λ cs. container_for regexp path rules id text line x ∷ cs)
        (containers-append (text ++ joined x.lines []) (line + length x.lines + 1) xs ys)

  -- What is known of the file, the sources and the containers sent for it.
  abbrev pub IsCovered :
      Bytes → ℕ → Bytes → List SourceState → List SecurityEventsContainer → Type 0
  IsCovered first line text sources sent =
      (parts : List Part) × All IsProper parts
      × (text_after first parts ≡ text)
      × (sent ≡ containers regexp path rules id first line parts)
      × IsReadTo (found_or_new id (lookup_source id sources)) text (line_after line parts)

module _ (regexp : Regexp) (path : Bytes) (rules : List (RuleConfig regexp.Regex)) where
  crawl_file_too_old :
      (time : Time) (view : FileView) (stat : Stat) (sources : List SourceState)
      → view.stat ≡ some stat
      → max_file_dead_time second rules < stat.age
      → crawl_file regexp time path rules view sources ≡ (sources, none)
  unfolding crawl_file
  crawl_file_too_old time view stat sources e old =
      elim (Bool-cases (ltb (length view.file_id) 1)) [
        | inl missing ↦ rw missing refl
        | inr there ↦ elim (Bool-cases stat.is_dir) [
          | inl dir ↦ rw (there, crawl_file, e, dir) refl
          | inr file ↦
              rw (there, crawl_file, e, file, lt→ltb (max_file_dead_time second rules) stat.age old)
                refl
        ]
      ]

  grows-IsCovered :
      (first : Bytes) (line : ℕ) (text : Bytes) (sources : List SourceState)
      (sent : List SecurityEventsContainer) (time : Time) (lines : List Bytes) (view : FileView)
      → All LacksNewline lines
      → Shows rules view (text ++ joined lines [])
      → IsCovered regexp path rules view.file_id first line text sources sent
      → IsCovered regexp path rules view.file_id first line
          (text ++ joined lines [])
          (crawl_file regexp time path rules view sources).0
          (sent ++ to_list (crawl_file regexp time path rules view sources).1)
  grows-IsCovered first line text sources sent time [] view h shown
        (parts, proper, text_lem, sent_lem, at) =
      let id = view.file_id in
      let found : lookup_source id (find id sources).0
          ≡ some (found_or_new id (lookup_source id sources)) =
        (find_lem id id sources).1 ∙ rw (str_eq_refl id) in
      rw
        (
          crawl_file_same regexp time path rules view sources text (line_after line parts) at shown,
          append-nil text,
          append-nil sent,
          found,
        )
        (parts, proper, text_lem, sent_lem, at)
  grows-IsCovered first line text sources sent time (body ∷ bodies) view h shown
        (parts, proper, text_lem, sent_lem, at) =
      let id = view.file_id in
      let lines = body ∷ bodies in
      let n = line_after line parts in
      let part : Part = record { time = time; lines = lines } in
      let entry = found_or_new id (lookup_source id sources) in
      let write = moved (n + length lines + 1) (length (text ++ joined lines [])) in
      let found : lookup_source id (modify (find id sources).0 (find id sources).1 write)
          ≡ some (write entry) =
        lookup_source-modify-find write (λ old. refl) id id sources ∙ rw (str_eq_refl id) in
      rw
        (
          crawl_file_grown regexp time path rules view sources text n lines at h (omega arith)
              shown,
          found,
        )
        (
          parts ++ part ∷ [],
          All-append _ parts (part ∷ []) proper ((omega arith, h), tt),
          text_after-append first parts (part ∷ []) ∙ ap (λ t. t ++ joined lines []) text_lem,
          ap (λ cs. cs ++ container_for regexp path rules id text n part ∷ []) sent_lem
              ∙ ap
                  (λ t.
                    containers regexp path rules id first line parts
                    ++ container_for regexp path rules id t n part ∷ [])
                  (sym text_lem)
              ∙ sym (containers-append regexp path rules id first line parts (part ∷ [])),
          subst (IsReadTo (write entry) (text ++ joined lines []))
              (sym (line_after-append line parts (part ∷ [])))
              (moved-IsReadTo entry (text ++ joined lines []) n (length lines) (
                omega (
                  arith,
                  length-append text (joined lines []),
                  length-append body (b'\n' ∷ joined bodies []),
                ))),
        )

  -- A file is crawled round after round, with rounds over other files and event logs between. It was
  -- read up to the text `first` at the start, as its state says. In each round either it is older
  -- than the dead time of its rules, and is skipped; or it is recent enough, can be opened and read
  -- to its end, is UTF-8 without a byte order mark, and has grown by complete lines, or not at all,
  -- since it was last read. Then every line that it had got when it was last read was found in
  -- exactly one round: its text then is `first` and the lines of some parts, one after the other,
  -- each with at least one line. For each part, in order and for nothing else, one container was
  -- sent: with the events of these lines alone, under their numbers and without duplicates, and with
  -- the position behind them. The state of the file says the end of that text. The number goes one
  -- line too far with each part. What is written and then is too old is in none of this: it is not
  -- read while it is.
  pub every_line_once :
      (id first : Bytes) (line : ℕ) (origin : List SourceState) {text : Bytes}
      {sources : List SourceState} {sent : List SecurityEventsContainer}
      → IsReadTo (found_or_new id (lookup_source id origin)) first line
      → Followed regexp path rules id first origin text sources sent
      → (parts : List Part) × All IsProper parts
        × (text_after first parts ≡ text)
        × (sent ≡ containers regexp path rules id first line parts)
        × IsReadTo (found_or_new id (lookup_source id sources)) text (line_after line parts)
  every_line_once id first line origin at start = ([], tt, refl, refl, at)
  every_line_once id first line origin at (other {text} {sources} f time path' rules' view e) =
      rw (lookup_source-crawl_file regexp time path' rules' view sources id e)
        (every_line_once id first line origin at f)
  every_line_once id first line origin at
        (event_log {text} {sources} f fields parse_time uint_bits rule view log e) =
      rw (lookup_source-crawl_path regexp fields parse_time uint_bits rule view log sources id e)
        (every_line_once id first line origin at f)
  every_line_once id first line origin at (too_old {sources} {sent} f time view stat e old) =
      rw (crawl_file_too_old time view stat sources e old, append-nil sent)
        (every_line_once id first line origin at f)
  every_line_once id first line origin at (grows {text} {sources} {sent} f part view h same shown) =
      subst
        (λ i.
          IsCovered regexp path rules i first line text sources sent
          → IsCovered regexp path rules i first line (text ++ joined part.lines [])
              (crawl_file regexp part.time path rules view sources).0
              (sent ++ to_list (crawl_file regexp part.time path rules view sources).1))
        same (grows-IsCovered first line text sources sent part.time part.lines view h shown)
        (every_line_once id first line origin at f)
