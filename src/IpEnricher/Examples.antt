-- ===== src/IpEnricher/Examples.antt =====
-- The enricher on a few packets and containers.
use dhound_agent.Base.{[], ◌∷◌, ◌≡◌, refl, none, some, true, codes, List, str_eq, get_key, put}
use dhound_agent.Events.{SecurityEventsContainer}
use dhound_agent.Utils.{contains}
use dhound_agent.IpEnricher.{IpEnricher, Dns, no_address, get_dns_by_ip}
unfoldable use dhound_agent.IpEnricher.Handover.{run_in_turns}
use dhound_agent.IpEnricher.Handover.{Turn, packet, container}

abbrev fresh : IpEnricher
fresh = record { track_dns_traffic = true; ip_to_services_map = none }

abbrev batch : SecurityEventsContainer
batch = record {
  source_id = codes "1:2";
  offset = 10;
  line = 3;
  source = codes "/var/log/auth.log";
  ip_to_service_map = [];
  security_events = [];
}

-- One address, and one answer without.
abbrev answer : Dns
answer = record {
  an_count = 2;
  questions = codes "example.org" ∷ [];
  answers = no_address ∷ codes "10.0.0.1" ∷ [];
}

abbrev history : List Turn
history = packet answer ∷ packet answer ∷ container batch ∷ container batch ∷ []

handed_over_once :
    run_in_turns history fresh
    ≡ record batch { ip_to_service_map = (codes "10.0.0.1", codes "example.org" ∷ []) ∷ [] }
      ∷ batch
      ∷ []
unfolding run_in_turns contains str_eq get_key put
handed_over_once = refl

names_of_address :
    get_dns_by_ip (codes "10.0.0.1") (record fresh {
      ip_to_services_map = some ((codes "10.0.0.1", codes "example.org" ∷ []) ∷ []);
    })
    ≡ codes "example.org" ∷ []
unfolding get_dns_by_ip str_eq get_key
names_of_address = refl
