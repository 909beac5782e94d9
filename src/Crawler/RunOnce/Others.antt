-- ===== src/Crawler/RunOnce/Others.antt =====
-- crawler_files.go: a round over one file leaves the states of the other files alone.
use dhound_agent.Base.{List, ◌≡◌, refl, ap, ◌∙◌, false, Bytes, str_eq}
use dhound_agent.Events.{SourceState}
use dhound_agent.SystemState.Lookup.{lookup_source, find_lem}
use dhound_agent.SystemState.Written.{lookup_source-modify-find}
use dhound_agent.Regexp.{Regexp}
use dhound_agent.Dates.{Time}
use dhound_agent.Config.{RuleConfig}
use dhound_agent.Crawler.RunOnce.{FileView, crawl_file}
use dhound_agent.Crawler.RunOnce.Outcomes.{
  kept, written, moved, Outcome, skipped, looked_up, crawl_file-Outcome,
}

lookup_source-Outcome :
    {id : Bytes} {sources after : List SourceState} (other : Bytes)
    → Outcome id sources after
    → str_eq other id ≡ false
    → lookup_source other after ≡ lookup_source other sources
lookup_source-Outcome other (skipped e) h = ap (lookup_source other) e
lookup_source-Outcome {id} {sources} other (looked_up (kept e)) h =
    ap (lookup_source other) e ∙ (find_lem id other sources).1 ∙ rw h
lookup_source-Outcome {id} {sources} other (looked_up (written line offset e)) h =
    ap (lookup_source other) e
    ∙ lookup_source-modify-find (moved line offset) (λ old. refl) id other sources
    ∙ rw h

pub lookup_source-crawl_file :
    (regexp : Regexp) (time : Time) (path : Bytes) (rules : List (RuleConfig regexp.Regex))
    (view : FileView) (sources : List SourceState) (other : Bytes)
    → str_eq other view.file_id ≡ false
    → lookup_source other (crawl_file regexp time path rules view sources).0
      ≡ lookup_source other sources
lookup_source-crawl_file regexp time path rules view sources other h =
    lookup_source-Outcome other (crawl_file-Outcome regexp time path rules view sources) h
