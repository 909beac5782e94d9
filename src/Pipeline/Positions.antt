-- ===== src/Pipeline/Positions.antt =====
-- Where the last container with an id stands.
use dhound_agent.Base.{
  ℕ, List, [], ◌∷◌, ◌++◌, ◌≡◌, refl, sym, Option, none, some, arith, map, Bytes, str_eq,
  if◌then◌else◌, Option-cases, Bool-cases, inl, inr,
}
use dhound_agent.Events.{SecurityEventsContainer, SourceState}
use dhound_agent.SystemState.{Timed}
use dhound_agent.SystemState.Lookup.{latest, after_batch}
use dhound_agent.Pipeline.Order.{as_crawled}

-- Where the last of some containers with this id stands: its offset and its line.
abbrev pub last_position : Bytes → List SecurityEventsContainer → Option (ℕ × ℕ)
last_position source_id [] = none
last_position source_id (c ∷ rest) = elim (last_position source_id rest) [
  | some later ↦ some later
  | none ↦ if str_eq source_id c.source_id then some (c.offset, c.line) else none
]

abbrev pub position_of : Option SourceState → Option (ℕ × ℕ)
position_of none = none
position_of (some s) = some (s.offset, s.line)

abbrev pub or_before : Option (ℕ × ℕ) → Option (ℕ × ℕ) → Option (ℕ × ℕ)
or_before none before = before
or_before (some p) before = some p

or_before-none : (p : Option (ℕ × ℕ)) → or_before p none ≡ p
or_before-none none = refl
or_before-none (some p) = refl

pub last_position-append :
    (source_id : Bytes) (xs ys : List SecurityEventsContainer)
    → last_position source_id (xs ++ ys)
      ≡ or_before (last_position source_id ys) (last_position source_id xs)
last_position-append source_id [] ys = sym (or_before-none (last_position source_id ys))
last_position-append source_id (x ∷ xs) ys = ground (arith, last_position-append source_id xs ys)

abbrev pub position_in : Option Timed → Option (ℕ × ℕ)
position_in none = none
position_in (some e) = some (e.container.offset, e.container.line)

pub last_position-latest :
    (source_id : Bytes) (batch : List Timed)
    → last_position source_id (map (λ e. e.container) batch) ≡ position_in (latest source_id batch)
last_position-latest source_id [] = refl
last_position-latest source_id (e ∷ rest) =
    rw (last_position-latest source_id rest) (elim (Option-cases (latest source_id rest)) [
      | inr (later, k) ↦ rw k refl
      | inl k ↦ elim (Bool-cases (str_eq source_id e.container.source_id)) [
        | inl same ↦ rw (k, same) refl
        | inr other ↦ rw (k, other) refl
      ]
    ])

pub position_of-after_batch :
    (o : Option Timed) (old : Option SourceState)
    → position_of (after_batch o old) ≡ or_before (position_in o) (position_of old)
position_of-after_batch none old = refl
position_of-after_batch (some e) old = refl

pub last_position-as_crawled :
    (source_id : Bytes) (cs : List SecurityEventsContainer)
    → last_position source_id (map as_crawled cs) ≡ last_position source_id cs
last_position-as_crawled source_id [] = refl
last_position-as_crawled source_id (c ∷ cs) = rw (last_position-as_crawled source_id cs) refl
