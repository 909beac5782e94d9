-- ===== src/SystemState/Expiry.antt =====
-- Which entries of the state file of system_state.go survive a restart.
use dhound_agent.Base.{
  ℕ, ◌+◌, ◌<◌, List, [], ◌∷◌, ◌≡◌, refl, Option, none, some, arith, Bytes, false, All, str_eq,
  str_eq_iff, if◌then◌else◌,
}
use dhound_agent.Events.{SourceState}
use dhound_agent.SystemState.{
  Timed, update, update_all, is_fresh, thirty_days, remove_expired_states, Codec, StateFile,
  missing, unreadable, holds, read_original_state,
}
use dhound_agent.SystemState.Lookup.{lookup_source, lookup_source-update, update_cons}

-- No id stands twice.
abbrev pub IsUnique : List SourceState → Type 0
IsUnique [] = Unit {0}
IsUnique (s ∷ rest) = (lookup_source s.source_id rest ≡ none) × IsUnique rest

lookup_source-update_ne :
    (e : Timed) (source_id : Bytes) (sources : List SourceState)
    → str_eq source_id e.container.source_id ≡ false
    → lookup_source source_id sources ≡ none
    → lookup_source source_id (update e sources) ≡ none
lookup_source-update_ne e source_id sources h k = rw (lookup_source-update e source_id sources, h) k

pub update-IsUnique :
    (e : Timed) (sources : List SourceState) → IsUnique sources → IsUnique (update e sources)
unfolding lookup_source
update-IsUnique e [] h = unfold update in (refl, tt)
update-IsUnique e (s ∷ rest) h = rw (update_cons e s rest) (
    ground (
      arith,
      str_eq_iff e.container.source_id s.source_id,
      str_eq_iff s.source_id e.container.source_id,
      lookup_source-update_ne e s.source_id rest,
      update-IsUnique e rest h.1,
    ))

pub update_all-IsUnique :
    (batch : List Timed) (sources : List SourceState)
    → IsUnique sources
    → IsUnique (update_all batch sources)
unfolding update_all
update_all-IsUnique [] sources h = h
update_all-IsUnique (e ∷ rest) sources h =
    update_all-IsUnique rest (update e sources) (update-IsUnique e sources h)

abbrev pub only_fresh : ℕ → Option SourceState → Option SourceState
only_fresh now none = none
only_fresh now (some s) = if is_fresh now s then some s else none

lookup_source-remove_expired_none :
    (now : ℕ) (source_id : Bytes) (sources : List SourceState)
    → lookup_source source_id sources ≡ none
    → lookup_source source_id (remove_expired_states now sources) ≡ none
unfolding lookup_source remove_expired_states
lookup_source-remove_expired_none now source_id [] h = refl
lookup_source-remove_expired_none now source_id (s ∷ rest) h =
    ground (arith, lookup_source-remove_expired_none now source_id rest)

-- Where no id stands twice, the expiry keeps of each id's entry exactly what is fresh.
pub lookup_source-remove_expired_states :
    (now : ℕ) (source_id : Bytes) (sources : List SourceState)
    → IsUnique sources
    → lookup_source source_id (remove_expired_states now sources)
      ≡ only_fresh now (lookup_source source_id sources)
unfolding lookup_source remove_expired_states
lookup_source-remove_expired_states now source_id [] h = refl
lookup_source-remove_expired_states now source_id (s ∷ rest) h = ground (
  arith,
  str_eq_iff source_id s.source_id,
  lookup_source-remove_expired_none now s.source_id rest h.0,
  lookup_source-remove_expired_states now source_id rest h.1,
)

pub remove_expired_states-IsUnique :
    (now : ℕ) (sources : List SourceState)
    → IsUnique sources
    → IsUnique (remove_expired_states now sources)
unfolding remove_expired_states
remove_expired_states-IsUnique now [] h = tt
remove_expired_states-IsUnique now (s ∷ rest) h = ground (
  arith,
  lookup_source-remove_expired_none now s.source_id rest h.0,
  remove_expired_states-IsUnique now rest h.1,
)

-- Updated less than thirty days before `now`.
abbrev pub IsRecent : ℕ → SourceState → Type 0
IsRecent now s = now < s.last_updated_time_utc_number + thirty_days

remove_expired_states-IsRecent :
    (now : ℕ) (sources : List SourceState) → All (IsRecent now) (remove_expired_states now sources)
unfolding remove_expired_states
remove_expired_states-IsRecent now [] = tt
remove_expired_states-IsRecent now (s ∷ rest) =
    ground (arith, remove_expired_states-IsRecent now rest)

module _ (codec : Codec) where
  -- Whatever the state file holds, every entry that is read from it was updated in the last thirty days.
  pub read_original_state-IsRecent :
      (now : ℕ) (file : StateFile codec.Content)
      → All (IsRecent now) (read_original_state codec now file)
  unfolding read_original_state
  read_original_state-IsRecent now missing = tt
  read_original_state-IsRecent now unreadable = tt
  read_original_state-IsRecent now (holds c) =
      remove_expired_states-IsRecent now (codec.unmarshal c)
