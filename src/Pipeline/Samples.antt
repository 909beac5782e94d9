-- ===== src/Pipeline/Samples.antt =====
-- Parts of an agent whose server is down.
use dhound_agent.Base.{none, pos, List, [], some, false, codes}
use dhound_agent.Events.{SourceState}
use dhound_agent.IpEnricher.{IpEnricher}
use dhound_agent.HttpGateway
use dhound_agent.HttpGateway.{
  ServerRequestMessage, ServerResponseMessage, HttpGateway, Json, no_reply,
}
use dhound_agent.HttpGateway.Sending.{Outside}
use dhound_agent.SystemState.{Codec, written}

abbrev pub plain : Json
plain = record {
  Content = ServerRequestMessage;
  Body = ServerResponseMessage;
  marshal = λ m. m;
  unmarshal = λ b. some b;
}

abbrev pub down : Outside plain
down = record {
  server = λ posts content. no_reply;
  read_fails = λ name. false;
  remove_fails = λ name. false;
  write_outcome = λ name. written;
}

abbrev pub codec : Codec
codec = record { Content = List SourceState; marshal = λ s. s; unmarshal = λ s. s }

pub gate : HttpGateway
gate =
    HttpGateway.init
      (record { access_token = codes "t"; server_key = codes "k"; environment = []; proxy = [] })
      (pos 3600)

abbrev pub listener : IpEnricher
listener = record { track_dns_traffic = false; ip_to_services_map = none }
