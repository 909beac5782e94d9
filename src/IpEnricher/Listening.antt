-- ===== src/IpEnricher/Listening.antt =====
-- ip_enricher_linux.go: `_InternalSync` around the case of a DNS layer. What libpcap and gopacket say is
-- a parameter: whether the device and the filter can be set up, and the packets that are read.
pub mod Devices
mod Examples
use dhound_agent.Base.{
  List, [], ◌∷◌, ◌++◌, ◌≡◌, refl, ◌∙◌, Option, none, some, Bool, true, false, ltb, if◌then◌else◌,
  length, Bytes, codes,
}
use dhound_agent.Config.{InputConfig}
use dhound_agent.IpEnricher.{IpEnricher, Dns, see_dns}

pub record Capture : Type 0 where
  pub opens : Bytes → Bool
  pub sets_filter : Bool

-- A packet that cannot be read, or the layers that are decoded, also where decoding ends with an
-- error; `none` is a layer other than DNS.
pub data Packet : Type 0 where
  unread : Packet
  decoded : List (Option Dns) → Packet

pub device_name : {R : Type 0} → InputConfig R → Bytes
device_name input =
    if ltb 0 (length input.network_interface) then input.network_interface else codes "eth0"

pub see_layers : List (Option Dns) → IpEnricher → IpEnricher
see_layers [] enricher = enricher
see_layers (none ∷ rest) enricher = see_layers rest enricher
see_layers (some dns ∷ rest) enricher = see_layers rest (see_dns dns enricher)

-- The loop over the packets.
pub see_packets : List Packet → IpEnricher → IpEnricher
unfolding see_layers
see_packets [] enricher = enricher
see_packets (unread ∷ rest) enricher = see_packets rest enricher
see_packets (decoded layers ∷ rest) enricher = see_packets rest (see_layers layers enricher)

pub internal_sync :
    {R : Type 0} → Bool → InputConfig R → Capture → List Packet → IpEnricher → IpEnricher
unfolding see_packets device_name
internal_sync run_once input capture packets enricher =
    if run_once
    then enricher
    else if capture.opens (device_name input)
    then (if capture.sets_filter then see_packets packets enricher else enricher)
    else enricher

-- `Init`, which only makes the first, empty call, and `Sync`.
pub init : {R : Type 0} → InputConfig R → Capture → IpEnricher → IpEnricher
unfolding internal_sync
init input capture enricher =
    if input.track_dns_traffic then internal_sync true input capture [] enricher else enricher

pub sync : {R : Type 0} → InputConfig R → Capture → List Packet → IpEnricher → IpEnricher
unfolding internal_sync
sync input capture packets enricher =
    if input.track_dns_traffic then internal_sync false input capture packets enricher else enricher

-- The DNS layers of some packets, in order.
abbrev pub dns_layers : List (Option Dns) → List Dns
dns_layers [] = []
dns_layers (none ∷ rest) = dns_layers rest
dns_layers (some dns ∷ rest) = dns ∷ dns_layers rest

abbrev pub all_layers : List Packet → List Dns
all_layers [] = []
all_layers (unread ∷ rest) = all_layers rest
all_layers (decoded layers ∷ rest) = dns_layers layers ++ all_layers rest

abbrev pub see_all : List Dns → IpEnricher → IpEnricher
see_all [] enricher = enricher
see_all (dns ∷ rest) enricher = see_all rest (see_dns dns enricher)

see_all-append :
    (xs ys : List Dns) (e : IpEnricher) → see_all ys (see_all xs e) ≡ see_all (xs ++ ys) e
see_all-append [] ys e = refl
see_all-append (x ∷ xs) ys e = see_all-append xs ys (see_dns x e)

see_layers-see_all :
    (layers : List (Option Dns)) (e : IpEnricher)
    → see_layers layers e ≡ see_all (dns_layers layers) e
unfolding see_layers
see_layers-see_all [] e = refl
see_layers-see_all (none ∷ rest) e = see_layers-see_all rest e
see_layers-see_all (some dns ∷ rest) e = see_layers-see_all rest (see_dns dns e)

-- The packets count by their DNS layers alone, in order, whatever cannot be read between them.
pub see_packets-see_all :
    (packets : List Packet) (e : IpEnricher)
    → see_packets packets e ≡ see_all (all_layers packets) e
unfolding see_packets
see_packets-see_all [] e = refl
see_packets-see_all (unread ∷ rest) e = see_packets-see_all rest e
see_packets-see_all (decoded layers ∷ rest) e = rw (see_layers-see_all layers e) (
    see_packets-see_all rest (see_all (dns_layers layers) e)
    ∙ see_all-append (dns_layers layers) (all_layers rest) e)
