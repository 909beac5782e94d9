-- ===== src/SystemState/Lookup.antt =====
-- The sources of system_state.go seen as a map from ids to positions.
use dhound_agent.Base.{
  suc, List, [], ◌∷◌, ◌≡◌, refl, Option, none, some, arith, get_elem?, Bytes, str_eq, str_eq_iff,
  if◌then◌else◌,
}
use dhound_agent.Events.{SourceState}
use dhound_agent.SystemState.{find, new_source, Timed, update, update_all}

-- The entry that stands for an id: the first one.
unfoldable pub lookup_source : Bytes → List SourceState → Option SourceState
lookup_source source_id [] = none
lookup_source source_id (s ∷ rest) =
    if str_eq source_id s.source_id then some s else lookup_source source_id rest

-- The entry that a container leaves behind.
abbrev pub state_of : Timed → SourceState
state_of e = record {
  source_id = e.container.source_id;
  source = e.container.source;
  offset = e.container.offset;
  line = e.container.line;
  last_updated_time_utc_number = e.time;
}

pub update_cons :
    (e : Timed) (s : SourceState) (rest : List SourceState)
    → update e (s ∷ rest)
      ≡ (if str_eq e.container.source_id s.source_id then state_of e ∷ rest else s ∷ update e rest)
unfolding update
update_cons e s rest = ground (arith, str_eq_iff e.container.source_id s.source_id)

-- An update writes the entry of its own id, and leaves those of all others.
pub lookup_source-update :
    (e : Timed) (source_id : Bytes) (sources : List SourceState)
    → lookup_source source_id (update e sources) ≡ (
        if str_eq source_id e.container.source_id
        then some (state_of e)
        else lookup_source source_id sources)
unfolding lookup_source
lookup_source-update e source_id [] = unfold update in refl
lookup_source-update e source_id (s ∷ rest) = rw (update_cons e s rest) (
    ground (
      arith,
      str_eq_iff e.container.source_id s.source_id,
      str_eq_iff source_id s.source_id,
      str_eq_iff source_id e.container.source_id,
      lookup_source-update e source_id rest,
    ))

-- The last container of a batch with this id.
abbrev pub latest : Bytes → List Timed → Option Timed
latest source_id [] = none
latest source_id (e ∷ rest) = elim (latest source_id rest) [
  | some later ↦ some later
  | none ↦ if str_eq source_id e.container.source_id then some e else none
]

abbrev pub after_batch : Option Timed → Option SourceState → Option SourceState
after_batch none old = old
after_batch (some e) old = some (state_of e)

-- After the containers of a batch, in their order, the entry of an id is what the last container
-- with that id says, and the old entry if there is no such container.
pub lookup_source-update_all :
    (batch : List Timed) (source_id : Bytes) (sources : List SourceState)
    → lookup_source source_id (update_all batch sources)
      ≡ after_batch (latest source_id batch) (lookup_source source_id sources)
unfolding update_all
lookup_source-update_all [] source_id sources = refl
lookup_source-update_all (e ∷ rest) source_id sources = ground (
  arith,
  lookup_source-update_all rest source_id (update e sources),
  lookup_source-update e source_id sources,
)

-- The entry that `Find` points to: the old one, or a new one that stands at the start.
abbrev pub found_or_new : Bytes → Option SourceState → SourceState
found_or_new source_id none = new_source source_id
found_or_new source_id (some s) = s

pub find_cons :
    (source_id : Bytes) (s : SourceState) (rest : List SourceState)
    → find source_id (s ∷ rest) ≡ (
        if str_eq source_id s.source_id
        then (s ∷ rest, 0)
        else (s ∷ (find source_id rest).0, suc (find source_id rest).1))
unfolding find
find_cons source_id s rest = ground arith

-- `Find` points to the entry of the id, which it adds if there is none; what an id stands for
-- changes only for that id.
pub find_lem :
    (source_id other : Bytes) (sources : List SourceState)
    → let (found, pointer) = find source_id sources in
      let entry = found_or_new source_id (lookup_source source_id sources) in
      (get_elem? found pointer ≡ some entry)
      × (lookup_source other found
          ≡ (if str_eq other source_id then some entry else lookup_source other sources))
unfolding lookup_source
find_lem source_id other [] = unfold find in (refl, refl)
find_lem source_id other (s ∷ rest) = rw (find_cons source_id s rest) (
    ground (
      arith,
      str_eq_iff source_id s.source_id,
      str_eq_iff other s.source_id,
      str_eq_iff other source_id,
      find_lem source_id other rest,
    ))
