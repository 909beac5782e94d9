-- ===== src/IpEnricher/DisplayDns/Examples.antt =====
-- The names of addresses on Windows, for small maps.
use dhound_agent.Base.{[], ◌∷◌, ◌≡◌, refl, true, some, Bytes, codes, get_key, put, str_eq}
use dhound_agent.Events.{SecurityEventsContainer}
use dhound_agent.Samples.{event_at}
use dhound_agent.Utils.{contains}
use dhound_agent.IpEnricher.{IpEnricher, get_dns_by_ip}
use dhound_agent.IpEnricher.DisplayDns.{Records, add_cname, merge, process_events_container}

abbrev lower : Bytes → Bytes
lower s = s

abbrev address : Bytes
address = codes "10.0.0.1"

abbrev enricher : IpEnricher
enricher = record {
  track_dns_traffic = true;
  ip_to_services_map = some ((address, codes "example.org" ∷ []) ∷ []);
}

abbrev batch : SecurityEventsContainer
batch = record {
  source_id = codes "1:2";
  offset = 10;
  line = 3;
  source = codes "Security";
  ip_to_service_map = [];
  security_events = event_at 1 (codes "login") ∷ [];
}

its_name :
    (process_events_container batch enricher).ip_to_service_map
    ≡ (address, codes "example.org" ∷ []) ∷ []
unfolding process_events_container get_dns_by_ip str_eq get_key put
its_name = refl

abbrev records : Records
records = record { a_records = (address, codes "host.org" ∷ []) ∷ []; cname_records = [] }

one_alias :
    merge
      (add_cname
        (codes "host.org")
        (codes "b.org")
        (add_cname (codes "host.org") (codes "a.org") records)).cname_records
      records.a_records
    ≡ (address, codes "host.org" ∷ codes "b.org" ∷ []) ∷ []
unfolding merge add_cname str_eq get_key put contains
one_alias = refl
