-- ===== src/Crawler/RunOnce/Examples.antt =====
-- Rounds of the crawler over one file.
use dhound_agent.Base.{[], ◌∷◌, ◌≡◌, refl, none, some, true, false, arith, codes, str_eq}
use dhound_agent.Events.{SourceState}
use dhound_agent.SystemState.{update}
use dhound_agent.SystemState.Lookup.{lookup_source}
use dhound_agent.Regexp.{Regexp}
use dhound_agent.Dates.{Time}
use dhound_agent.Crawler.Lines.{Reader, Pass, eof, after_segment, read_bytes, line_of, advance}
use dhound_agent.Crawler.RunOnce.{second, FileView, read_file, pass_of, run_once}
use dhound_agent.Crawler.RunOnce.Resuming.{pass_of_total, unfinished_resets_offset, empty_container}

-- An expression that matches nothing.
abbrev nothing : Regexp
nothing = record {
  Regex = Unit;
  compile = λ s. some tt;
  match_string = λ r s. false;
  find_string_submatch = λ r s. none;
  find_all_string_submatch = λ r s. [];
  find_all_string_index = λ r s. [];
  subexp_names = λ r. [];
  submatch_width = λ r s. tt;
  index_ordered = λ r s. omega arith;
}

abbrev clock : Time
clock = record { year = 2018; parse_in_location = λ layout value. some 0 }

abbrev growing : Reader
growing = record {
  buffer = [];
  chunks = record { text = codes "half a li"; position = 49 } ∷ [];
  end = eof;
  position = 40;
}

abbrev view : FileView
view = record {
  file_id = codes "5_1";
  stat = some (record { is_dir = false; age = 0; size = 49 });
  opens = true;
  is_encoding = λ name. true;
  reader = λ encoding position. some growing;
  age_at_end = second;
}

abbrev known : SourceState
known = record {
  source_id = codes "5_1";
  source = codes "/var/log/auth.log";
  offset = 40;
  line = 3;
  last_updated_time_utc_number = 100;
}

abbrev at_end : SourceState
at_end = record known { offset = 49 }

pass_of_total_example :
    (q : Pass) × (pass_of nothing clock (codes "f") [] view known 3 growing ≡ some q)
pass_of_total_example = pass_of_total nothing clock (codes "f") [] view known 3 growing

unfinished_resets_offset_example :
    ((read_file nothing clock (codes "f") [] view (known ∷ []) 0 known (40, 3)).1
      ≡ some (empty_container (codes "f") known))
    × (lookup_source (codes "5_1") (
          update
            (record { container = empty_container (codes "f") known; time = 200 })
            (known ∷ []))
        ≡ some (record {
          source_id = codes "5_1";
          source = codes "f";
          offset = 0;
          line = 0;
          last_updated_time_utc_number = 200;
        }))
unfinished_resets_offset_example =
    unfinished_resets_offset nothing clock (codes "f") [] view (known ∷ []) (known ∷ []) 0 known 40
      3 200 growing refl refl (omega arith) (omega arith) refl (omega arith)

-- The round over the list of files comes to the same container, and leaves the source at offset 40.
whole_round :
    run_once nothing clock ((codes "f", [], view) ∷ []) (known ∷ [])
    ≡ (known ∷ [], empty_container (codes "f") known ∷ [])
unfolding run_once str_eq after_segment read_bytes line_of advance
whole_round = refl
