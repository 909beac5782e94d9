-- ===== src/IpEnricher/Interleaving/Turns.antt =====
-- ip_enricher_linux.go: the schedules of the two goroutines in which they do not overlap.
use dhound_agent.Base.{ℕ, ◌<◌, List, ◌≡◌, Option, none, true, All, Bytes, Dict, map}
use dhound_agent.Events.{SecurityEventsContainer}
use dhound_agent.IpEnricher.{IpEnricher}
use dhound_agent.IpEnricher.Interleaving.{Shared, Steps}
use dhound_agent.IpEnricher.Interleaving.Pointers.{Holds}
use dhound_agent.IpEnricher.Interleaving.Calm.{calm, delivered}

abbrev AreInside : ℕ → List (SecurityEventsContainer × Option ℕ) → Type 0
AreInside n passed = All (λ out. Holds (λ p. p < n) out.1) passed

-- What is reached by a schedule: the containers are delivered as `outs` says.
abbrev pub Reaches : Shared → List SecurityEventsContainer → Type 0
Reaches s outs =
    (front : List (Dict (List Bytes))) × (m : Option (Dict (List Bytes))) × (passed : List
      (SecurityEventsContainer × Option ℕ))
    × Steps s (calm front m passed)
    × (map (delivered front) passed ≡ outs)

abbrev pub tracking : IpEnricher
tracking = record { track_dns_traffic = true; ip_to_services_map = none }
