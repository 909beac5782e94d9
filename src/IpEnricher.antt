-- ===== src/IpEnricher.antt =====
-- ip_enricher.go and, for the systems but Windows, ip_enricher_linux.go. The packets that libpcap
-- reads and gopacket decodes are DNS layers. What the handling of one layer and of one container does
-- is here; how the statements of the two goroutines mix is in Interleaving.
pub mod Handover
pub mod DisplayDns
pub mod Interleaving
pub mod Listening
mod Examples
use dhound_agent.Base.{
  ℕ, List, [], ◌∷◌, ◌++◌, Option, none, some, Bool, ltb, if◌then◌else◌, length, Bytes, codes,
  str_eq, Dict, get_key, put, value_of,
}
use dhound_agent.Events.{SecurityEventsContainer}
unfoldable use dhound_agent.Utils.{contains}

-- The services of the map, where nil is none, and whether DNS traffic is tracked.
pub record IpEnricher : Type 0 where
  pub track_dns_traffic : Bool
  pub ip_to_services_map : Option (Dict (List Bytes))

-- The layer, as far as it is used: the count of answers in its header, the names of the questions,
-- and the addresses of the answers as `IP.String()` prints them.
pub record Dns : Type 0 where
  pub an_count : ℕ
  pub questions : List Bytes
  pub answers : List Bytes

abbrev pub no_address : Bytes
no_address = codes "<nil>"

-- The addresses of the answers that have one.
pub ips_of : List Bytes → List Bytes
unfolding str_eq
ips_of [] = []
ips_of (ip ∷ rest) = if str_eq ip no_address then ips_of rest else ip ∷ ips_of rest

pub learn_ip : Bytes → Bytes → Dict (List Bytes) → Dict (List Bytes)
unfolding contains put get_key
learn_ip dns_name ip m =
    if contains (value_of [] ip m) dns_name then m else put ip (value_of [] ip m ++ dns_name ∷ []) m

pub learn_ips : Bytes → List Bytes → Dict (List Bytes) → Dict (List Bytes)
unfolding learn_ip
learn_ips dns_name [] m = m
learn_ips dns_name (ip ∷ rest) m = learn_ips dns_name rest (learn_ip dns_name ip m)

-- The entries of a map that may be nil.
abbrev pub entries : Option (Dict (List Bytes)) → Dict (List Bytes)
entries none = []
entries (some m) = m

-- One round of the loop over the questions.
pub learn_question : List Bytes → Bytes → IpEnricher → IpEnricher
unfolding ips_of learn_ips
learn_question answers dns_name enricher =
    if ltb 0 (length (ips_of answers))
    then record enricher {
      ip_to_services_map =
          some (learn_ips dns_name (ips_of answers) (entries enricher.ip_to_services_map));
    }
    else enricher

pub learn_questions : List Bytes → List Bytes → IpEnricher → IpEnricher
unfolding learn_question
learn_questions answers [] enricher = enricher
learn_questions answers (dns_name ∷ rest) enricher =
    learn_questions answers rest (learn_question answers dns_name enricher)

-- The case of a DNS layer in `_InternalSync`.
pub see_dns : Dns → IpEnricher → IpEnricher
unfolding learn_questions
see_dns dns enricher =
    if ltb 0 dns.an_count then learn_questions dns.answers dns.questions enricher else enricher

pub process_events_container :
    SecurityEventsContainer → IpEnricher → SecurityEventsContainer × IpEnricher
process_events_container container enricher = (
  record container { ip_to_service_map = entries enricher.ip_to_services_map },
  record enricher { ip_to_services_map = none },
)

unfoldable pub get_dns_by_ip : Bytes → IpEnricher → List Bytes
unfolding get_key
get_dns_by_ip ip enricher = elim enricher.ip_to_services_map [
  | none ↦ []
  | some m ↦ value_of [] ip m
]

-- The body of the loop of `IpEnricher.Run`.
unfoldable pub enrich : SecurityEventsContainer → IpEnricher → SecurityEventsContainer × IpEnricher
unfolding process_events_container
enrich c enricher =
    if enricher.track_dns_traffic then process_events_container c enricher else (c, enricher)

-- What a packet does, where `IpEnricher.Sync` listens.
pub listen : Dns → IpEnricher → IpEnricher
unfolding see_dns
listen dns enricher = if enricher.track_dns_traffic then see_dns dns enricher else enricher
