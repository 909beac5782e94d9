-- ===== src/SystemState/Unique.antt =====
-- system_state.go: `Find`, and changes of other fields than the id, keep the ids distinct.
use dhound_agent.Base.{
  ℕ, zero, suc, List, [], ◌∷◌, ◌++◌, ◌≡◌, refl, none, false, arith, Bytes, modify, str_eq,
  str_eq_iff, Option-cases, inl, inr,
}
use dhound_agent.Events.{SourceState}
use dhound_agent.SystemState.{find, find_index, new_source}
use dhound_agent.SystemState.Lookup.{lookup_source}
use dhound_agent.SystemState.Expiry.{IsUnique}

-- A change that leaves the id alone.
abbrev pub KeepsId : (SourceState → SourceState) → Type 0
KeepsId f = (s : SourceState) → (f s).source_id ≡ s.source_id

lookup_source-modify-none :
    (f : SourceState → SourceState)
    → KeepsId f
    → (source_id : Bytes) (sources : List SourceState) (i : ℕ)
    → lookup_source source_id sources ≡ none
    → lookup_source source_id (modify sources i f) ≡ none
unfolding lookup_source
lookup_source-modify-none f k source_id [] i h = refl
lookup_source-modify-none f k source_id (s ∷ rest) zero h = ground (arith, k s)
lookup_source-modify-none f k source_id (s ∷ rest) (suc i) h =
    ground (arith, lookup_source-modify-none f k source_id rest i)

pub modify-IsUnique :
    (f : SourceState → SourceState)
    → KeepsId f
    → (sources : List SourceState) (i : ℕ) → IsUnique sources
    → IsUnique (modify sources i f)
modify-IsUnique f k [] i h = tt
modify-IsUnique f k (s ∷ rest) zero h = rw (k s) h
modify-IsUnique f k (s ∷ rest) (suc i) h =
    (lookup_source-modify-none f k s.source_id rest i h.0, modify-IsUnique f k rest i h.1)

lookup_source-snoc :
    (source_id : Bytes) (sources : List SourceState) (new : SourceState)
    → lookup_source source_id sources ≡ none
    → str_eq source_id new.source_id ≡ false
    → lookup_source source_id (sources ++ new ∷ []) ≡ none
unfolding lookup_source
lookup_source-snoc source_id [] new h k = ground arith
lookup_source-snoc source_id (s ∷ rest) new h k =
    ground (arith, lookup_source-snoc source_id rest new)

snoc-IsUnique :
    (sources : List SourceState) (new : SourceState)
    → IsUnique sources
    → lookup_source new.source_id sources ≡ none
    → IsUnique (sources ++ new ∷ [])
unfolding lookup_source
snoc-IsUnique [] new h k = (refl, tt)
snoc-IsUnique (s ∷ rest) new h k = ground (
  arith,
  str_eq_iff s.source_id new.source_id,
  str_eq_iff new.source_id s.source_id,
  lookup_source-snoc s.source_id rest new,
  snoc-IsUnique rest new h.1,
)

find_index-none :
    (source_id : Bytes) (sources : List SourceState)
    → find_index source_id sources ≡ none
    → lookup_source source_id sources ≡ none
unfolding find_index lookup_source
find_index-none source_id [] h = refl
find_index-none source_id (s ∷ rest) h = ground (arith, find_index-none source_id rest)

pub find-IsUnique :
    (source_id : Bytes) (sources : List SourceState)
    → IsUnique sources
    → IsUnique (find source_id sources).0
unfolding find
find-IsUnique source_id sources h = elim (Option-cases (find_index source_id sources)) [
  | inl e ↦
      rw (e, find)
        (snoc-IsUnique sources (new_source source_id) h (find_index-none source_id sources e))
  | inr (i, e) ↦ rw (e, find) h
]
