-- ===== src/IpEnricher/Interleaving/Examples.antt =====
-- The race on the first question of a run.
use dhound_agent.Base.{List, Bytes, [], ◌∷◌, ◌≡◌, refl, ◌≢◌, some, All, get_elem?, codes}
use dhound_agent.Events.{SecurityEventsContainer}
use dhound_agent.IpEnricher.{learn_ips}
use dhound_agent.IpEnricher.Interleaving.{Shared, initial, Step, Steps}
use dhound_agent.IpEnricher.Interleaving.Told.{OnlyTold, every_name_was_asked}
use dhound_agent.IpEnricher.Interleaving.Lost.{after_race, names_are_lost}
use dhound_agent.IpEnricher.Interleaving.Pointers.{Holds}

abbrev container : SecurityEventsContainer
container = record {
  source_id = codes "1_2";
  offset = 10;
  line = 3;
  source = codes "/var/log/auth.log";
  ip_to_service_map = [];
  security_events = [];
}

names_are_lost_example :
    let t = after_race container (codes "example.org") (codes "10.0.0.1" ∷ []) initial in
    Steps initial t
    × (get_elem? t.heap 0 ≡ some (learn_ips (codes "example.org") (codes "10.0.0.1" ∷ []) []))
    × ((u : Shared) → Steps t u → All (λ out. Holds (λ p. p ≢ 0) out.1) u.passed_on)
names_are_lost_example =
    names_are_lost container (codes "example.org") (codes "10.0.0.1" ∷ []) Steps.stay refl refl refl
      (λ e. cc)

some_address : ◌≢◌ {A = List Bytes} (codes "10.0.0.1" ∷ []) []
some_address e = cc

-- Only this name of this address is told.
abbrev Told : Bytes → Bytes → Type 0
Told ip name = (ip ≡ codes "10.0.0.1") × (name ≡ codes "example.org")

abbrev asked : (s : Shared) × Steps initial s
asked = (
  _,
  Steps.later
      (Steps.later Steps.stay
        (Step.make_map (codes "example.org") (codes "10.0.0.1" ∷ []) refl some_address refl))
      (Step.fill (codes "example.org") (codes "10.0.0.1") [] 0 refl),
)

every_name_was_asked_example : All (OnlyTold Told) asked.0.heap
every_name_was_asked_example = every_name_was_asked Told asked.1 ((tt, ((refl, refl), tt)), tt)
