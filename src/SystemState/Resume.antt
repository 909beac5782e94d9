-- ===== src/SystemState/Resume.antt =====
-- What `Sync` of system_state.go saves, and what a restarted agent finds.
use dhound_agent.Base.{ℕ, ◌+◌, ◌<◌, List, [], ◌∷◌, ◌≡◌, ◌∙◌, ap, some, Bytes, lt→ltb, get_elem?}
use dhound_agent.Events.{SourceState}
use dhound_agent.SystemState.{
  find, Timed, update_all, thirty_days, Codec, StateFile, missing, unreadable, holds,
  read_original_state, written, sync,
}
use dhound_agent.SystemState.Lookup.{
  lookup_source, lookup_source-update_all, state_of, latest, after_batch, found_or_new, find_lem,
}
use dhound_agent.SystemState.Expiry.{
  IsUnique, only_fresh, update_all-IsUnique, remove_expired_states-IsUnique,
  lookup_source-remove_expired_states,
}

module _ (codec : Codec) where
  -- The file decodes to entries with distinct ids.
  abbrev pub IsSound : StateFile codec.Content → Type 0
  IsSound missing = Unit {0}
  IsSound unreadable = Unit {0}
  IsSound (holds c) = IsUnique (codec.unmarshal c)

  pub read_original_state-IsUnique :
      (now : ℕ) (file : StateFile codec.Content)
      → IsSound file
      → IsUnique (read_original_state codec now file)
  unfolding read_original_state
  read_original_state-IsUnique now missing h = tt
  read_original_state-IsUnique now unreadable h = tt
  read_original_state-IsUnique now (holds c) h =
      remove_expired_states-IsUnique now (codec.unmarshal c) h

  -- What `Sync` hands to the encoder.
  abbrev pub saved : ℕ → List Timed → StateFile codec.Content → List SourceState
  saved now batch file = update_all batch (read_original_state codec now file)

  saved-IsUnique :
      (now : ℕ) (batch : List Timed) (file : StateFile codec.Content)
      → IsSound file
      → IsUnique (saved now batch file)
  saved-IsUnique now batch file h =
      update_all-IsUnique batch _ (read_original_state-IsUnique now file h)

  -- What the decoder is relied on for: these sources come back as they were encoded.
  abbrev pub RoundTrips : List SourceState → Type 0
  RoundTrips sources = codec.unmarshal (codec.marshal sources) ≡ sources

  pub lookup_source-sync :
      (source_id : Bytes) (now later : ℕ) (e : Timed) (rest : List Timed)
      (file : StateFile codec.Content)
      → IsSound file
      → RoundTrips (saved now (e ∷ rest) file)
      → lookup_source source_id
          (read_original_state codec later (sync codec now written (e ∷ rest) file))
        ≡ only_fresh later (
            after_batch
              (latest source_id (e ∷ rest))
              (lookup_source source_id (read_original_state codec now file)))
  unfolding sync
  lookup_source-sync source_id now later e rest file h r = rw r (
      lookup_source-remove_expired_states later source_id _ (saved-IsUnique now (e ∷ rest) file h)
      ∙ ap (only_fresh later)
          (lookup_source-update_all (e ∷ rest) source_id (read_original_state codec now file)))

  -- A batch is written whole to a state file that decodes to distinct ids, in a form that is
  -- decoded as it was encoded, and the agent restarts. Then, for every id of the batch, until
  -- thirty days after the last container with that id was reached, `Find` points to the state that
  -- this container says, whatever the file said of it before.
  pub find-sync :
      (source_id : Bytes) (now later : ℕ) (e last : Timed) (rest : List Timed)
      (file : StateFile codec.Content)
      → IsSound file
      → RoundTrips (saved now (e ∷ rest) file)
      → latest source_id (e ∷ rest) ≡ some last
      → later < last.time + thirty_days
      → let restored = read_original_state codec later (sync codec now written (e ∷ rest) file) in
        let (found, pointer) = find source_id restored in
        get_elem? found pointer ≡ some (state_of last)
  find-sync source_id now later e last rest file h r k fresh =
      (find_lem source_id source_id _).0 ∙ ap (λ o. some (found_or_new source_id o)) kept
    where
      kept :
          lookup_source source_id
            (read_original_state codec later (sync codec now written (e ∷ rest) file))
          ≡ some (state_of last)
      kept =
          lookup_source-sync source_id now later e rest file h r
          ∙ (rw (k, lt→ltb later (last.time + thirty_days) fresh))

  -- A batch that is written whole, in a form that is decoded as it was encoded, keeps the ids of
  -- the state file distinct.
  pub sync-IsSound :
      (now : ℕ) (batch : List Timed) (file : StateFile codec.Content)
      → IsSound file
      → RoundTrips (saved now batch file)
      → IsSound (sync codec now written batch file)
  unfolding sync
  sync-IsSound now [] file h r = h
  sync-IsSound now (e ∷ rest) file h r = rw r (saved-IsUnique now (e ∷ rest) file h)
