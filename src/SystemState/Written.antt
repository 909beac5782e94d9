-- ===== src/SystemState/Written.antt =====
-- system_state.go: a write through the pointer that `Find` returns.
use dhound_agent.Base.{
  List, [], ◌∷◌, ◌≡◌, refl, some, arith, modify, Bytes, str_eq, str_eq_iff, if◌then◌else◌,
}
use dhound_agent.Events.{SourceState}
use dhound_agent.SystemState.{find, new_source}
use dhound_agent.SystemState.Lookup.{lookup_source, found_or_new, find_cons}
use dhound_agent.SystemState.Unique.{KeepsId}

-- It changes the entry of the id, and no other.
pub lookup_source-modify-find :
    (f : SourceState → SourceState)
    → KeepsId f
    → (id other : Bytes) (sources : List SourceState)
    → lookup_source other (modify (find id sources).0 (find id sources).1 f) ≡ (
        if str_eq other id
        then some (f (found_or_new id (lookup_source id sources)))
        else lookup_source other sources)
unfolding lookup_source
lookup_source-modify-find f k id other [] = unfold find in (rw (k (new_source id)) refl)
lookup_source-modify-find f k id other (s ∷ rest) = rw (find_cons id s rest) (
    ground (
      arith,
      str_eq_iff id s.source_id,
      str_eq_iff other s.source_id,
      str_eq_iff other id,
      k s,
      lookup_source-modify-find f k id other rest,
    ))
