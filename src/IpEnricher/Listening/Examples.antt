-- ===== src/IpEnricher/Listening/Examples.antt =====
-- One packet that cannot be read and one with a DNS layer.
use dhound_agent.Base.{[], ◌∷◌, ◌≡◌, refl, none, some, true, Bytes}
use dhound_agent.Config.{InputConfig}
use dhound_agent.IpEnricher.{IpEnricher, Dns, see_dns}
use dhound_agent.IpEnricher.Listening.{
  Capture, unread, decoded, see_layers, see_packets, internal_sync, sync,
}

abbrev input : InputConfig Bytes
input = record {
  all_rules = true;
  rules = [];
  network_interface = [];
  track_dns_traffic = true;
  rule_configs = [];
}

abbrev capture : Capture
capture = record { opens = λ device. true; sets_filter = true }

abbrev layer : Dns
layer = record { an_count = 0; questions = []; answers = [] }

abbrev fresh : IpEnricher
fresh = record { track_dns_traffic = true; ip_to_services_map = none }

one_layer :
    sync input capture (unread ∷ decoded (none ∷ some layer ∷ []) ∷ []) fresh ≡ see_dns layer fresh
unfolding sync internal_sync see_packets see_layers
one_layer = refl
