-- ===== src/SystemState.antt =====
-- system_state.go: the positions up to which the sources were read, in memory and in the state file.
-- A pointer to an element of `Sources` is its index: the slice only grows while pointers are in use.
-- Times are seconds since 1970, and the clock stands past the first thirty days of 1970.
pub mod Lookup
pub mod Expiry
pub mod Unique
pub mod Grown
pub mod Written
pub mod Resume
mod Examples
use dhound_agent.Base.{
  ℕ, suc, ◌+◌, ◌*◌, List, [], ◌∷◌, ◌++◌, Option, none, some, Bool, ltb, if◌then◌else◌, length,
  modify, Bytes, str_eq,
}
use dhound_agent.Events.{SecurityEventsContainer, SourceState}

-- The loop of `Find`: the index of the first element with this id.
pub find_index : Bytes → List SourceState → Option ℕ
find_index source_id [] = none
find_index source_id (s ∷ rest) =
    let later : Option ℕ = elim (find_index source_id rest) [
      | none ↦ none
      | some i ↦ some (suc i)
    ] in
    if str_eq source_id s.source_id then some 0 else later

abbrev pub new_source : Bytes → SourceState
new_source source_id = record {
  source_id = source_id;
  source = [];
  offset = 0;
  line = 0;
  last_updated_time_utc_number = 0;
}

-- The sources after `Find`, and the pointer that it returns.
unfoldable pub find : Bytes → List SourceState → List SourceState × ℕ
unfolding find_index
find source_id sources = elim (find_index source_id sources) [
  | some i ↦ (sources, i)
  | none ↦ (sources ++ new_source source_id ∷ [], length sources)
]

-- A container and the second at which `Sync` reaches it.
pub record Timed : Type 0 where
  pub container : SecurityEventsContainer
  pub time : ℕ

-- The body of the inner loop of `Sync`: the writes through the pointer.
pub update : Timed → List SourceState → List SourceState
unfolding find
update e sources =
    let (found, pointer) = find e.container.source_id sources in
    modify found pointer (λ s. record s {
      offset = e.container.offset;
      source = e.container.source;
      line = e.container.line;
      last_updated_time_utc_number = e.time;
    })

pub update_all : List Timed → List SourceState → List SourceState
unfolding update
update_all [] sources = sources
update_all (e ∷ rest) sources = update_all rest (update e sources)

abbrev pub thirty_days : ℕ
thirty_days = 30 * 24 * 3600

-- `LastUpdatedTimeUtcNumber > now - 30 days`, with no subtraction.
abbrev pub is_fresh : ℕ → SourceState → Bool
is_fresh now s = ltb now (s.last_updated_time_utc_number + thirty_days)

pub remove_expired_states : ℕ → List SourceState → List SourceState
remove_expired_states now [] = []
remove_expired_states now (s ∷ rest) =
    if is_fresh now s then s ∷ remove_expired_states now rest else remove_expired_states now rest

-- encoding/json, as far as the state file uses it. `unmarshal` gives the sources that the struct
-- holds afterwards, also when the content is refused and the error only logged.
pub record Codec : Type 1 where
  pub Content : Type 0
  pub marshal : List SourceState → Content
  pub unmarshal : Content → List SourceState

-- What stands at the path of the state file.
pub data StateFile (C : Type 0) : Type 0 where
  missing : StateFile C
  unreadable : StateFile C
  holds : C → StateFile C

-- How a write ends; one that fails may leave the file alone, or with some other content.
pub data WriteOutcome (C : Type 0) : Type 0 where
  written : WriteOutcome C
  refused : WriteOutcome C
  cut_short : C → WriteOutcome C

module _ (codec : Codec) where
  open codec use {Content, marshal, unmarshal}

  unfoldable pub read_original_state : ℕ → StateFile Content → List SourceState
  unfolding remove_expired_states
  read_original_state now missing = []
  read_original_state now unreadable = remove_expired_states now []
  read_original_state now (holds c) = remove_expired_states now (unmarshal c)

  -- The sources that the agent starts with.
  unfoldable pub restore : ℕ → StateFile Content → List SourceState
  unfolding read_original_state
  restore now file = read_original_state now file

  unfoldable pub save :
      WriteOutcome Content → List SourceState → StateFile Content → StateFile Content
  save written sources file = holds (marshal sources)
  save refused sources file = file
  save (cut_short c) sources file = holds c

  -- One round of `Sync`, for a batch that arrives at `now`.
  unfoldable pub sync :
      ℕ → WriteOutcome Content → List Timed → StateFile Content → StateFile Content
  unfolding read_original_state update_all save
  sync now outcome [] file = file
  sync now outcome (e ∷ rest) file =
      save outcome (update_all (e ∷ rest) (read_original_state now file)) file
