-- ===== src/SystemState/Grown.antt =====
-- system_state.go: what happens to the list of the sources leaves the states that it has where they are.
use dhound_agent.Base.{
  ℕ, zero, suc, List, [], ◌∷◌, ◌++◌, ◌≡◌, refl, ◌∙◌, ap, map, append-nil, append_assoc, map-append,
  Bytes, modify, Option-cases, inl, inr,
}
use dhound_agent.Events.{SourceState}
use dhound_agent.SystemState.{find, find_index, new_source}
use dhound_agent.SystemState.Expiry.{IsUnique}
use dhound_agent.SystemState.Unique.{KeepsId, find-IsUnique, modify-IsUnique}

abbrev pub ids : List SourceState → List Bytes
ids sources = map (λ s. s.source_id) sources

-- No id stands twice, and the ids begin with those of `first`, in their places.
abbrev pub IsGrown : List SourceState → List SourceState → Type 0
IsGrown first sources = IsUnique sources × (more : List Bytes) × (ids sources ≡ ids first ++ more)

ids-modify :
    (f : SourceState → SourceState)
    → KeepsId f
    → (sources : List SourceState) (i : ℕ) → ids (modify sources i f) ≡ ids sources
ids-modify f k [] i = refl
ids-modify f k (s ∷ rest) zero = rw (k s) refl
ids-modify f k (s ∷ rest) (suc i) = rw (ids-modify f k rest i) refl

pub modify-IsGrown :
    (first : List SourceState) (f : SourceState → SourceState)
    → KeepsId f
    → (sources : List SourceState) (i : ℕ) → IsGrown first sources
    → IsGrown first (modify sources i f)
modify-IsGrown first f k sources i (unique, more, e) =
    (modify-IsUnique f k sources i unique, more, ids-modify f k sources i ∙ e)

ids-find :
    (source_id : Bytes) (sources : List SourceState)
    → (more : List Bytes) × (ids (find source_id sources).0 ≡ ids sources ++ more)
unfolding find
ids-find source_id sources = elim (Option-cases (find_index source_id sources)) [
  | inl e ↦ (source_id ∷ [], rw (e, find) (map-append _ sources (new_source source_id ∷ [])))
  | inr (i, e) ↦ ([], rw (e, find, append-nil (ids sources)) refl)
]

pub find-IsGrown :
    (first : List SourceState) (source_id : Bytes) (sources : List SourceState)
    → IsGrown first sources
    → IsGrown first (find source_id sources).0
find-IsGrown first source_id sources (unique, more, e) =
    let (new, k) = ids-find source_id sources in
    (
      find-IsUnique source_id sources unique,
      more ++ new,
      k ∙ ap (λ xs. xs ++ new) e ∙ append_assoc (ids first) more new,
    )
