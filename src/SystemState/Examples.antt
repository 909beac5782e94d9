-- ===== src/SystemState/Examples.antt =====
-- Runs of the state file's operations, with a codec that keeps the sources as they are.
use dhound_agent.Base.{ℕ, ◌+◌, List, [], ◌∷◌, ◌≡◌, refl, some, arith, codes, get_elem?, str_eq}
use dhound_agent.Events.{SourceState}
use dhound_agent.SystemState.{Timed, Codec, holds, read_original_state, sync, written, find}
use dhound_agent.SystemState.Lookup.{lookup_source, state_of}
use dhound_agent.SystemState.Resume.{find-sync}

abbrev plain : Codec
plain = record { Content = List SourceState; marshal = λ s. s; unmarshal = λ s. s }

abbrev read_to : ℕ → ℕ → Timed
read_to n time = record {
  container = record {
    source_id = codes "5_1";
    offset = n;
    line = n + 1;
    source = codes "/var/log/auth.log";
    ip_to_service_map = [];
    security_events = [];
  };
  time = time;
}

abbrev old_state : SourceState
old_state = record {
  source_id = codes "9_1";
  source = codes "/var/log/old.log";
  offset = 10;
  line = 2;
  last_updated_time_utc_number = 1_000_000;
}

abbrev batch : List Timed
batch = read_to 100 5_000_000 ∷ read_to 250 5_000_001 ∷ []

-- The entry of the old file is more than thirty days old when the batch is written.
find-sync_example :
    let restored =
      read_original_state plain 5_000_100
        (sync plain 5_000_000 written batch (holds (old_state ∷ []))) in
    let (found, pointer) = find (codes "5_1") restored in
    get_elem? found pointer ≡ some (state_of (read_to 250 5_000_001))
unfolding lookup_source str_eq
find-sync_example =
    find-sync plain (codes "5_1") 5_000_000 5_000_100 (read_to 100 5_000_000)
      (read_to 250 5_000_001) (read_to 250 5_000_001 ∷ []) (holds (old_state ∷ [])) (refl, tt) refl
      refl (omega arith)

expired_is_dropped : read_original_state plain 5_000_000 (holds (old_state ∷ [])) ≡ []
unfolding read_original_state
expired_is_dropped = refl
