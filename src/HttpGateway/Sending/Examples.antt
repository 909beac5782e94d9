-- ===== src/HttpGateway/Sending/Examples.antt =====
-- Runs of the gateway, with contents that are the messages themselves.
use dhound_agent.Base.{
  All, ℕ, pos, List, [], ◌∷◌, ◌++◌, ◌≡◌, refl, ◌≢◌, ◌⊎◌, none, some, true, false, arith, codes,
  get_key, str_eq, format_decimal,
}
use dhound_agent.Events.{SecurityEvent, SecurityEventsContainer}
use dhound_agent.SystemState.{written}
use dhound_agent.HttpGateway.{
  ServerRequestMessage, ServerResponseMessage, HttpGateway, Json, Reply, no_reply, World, Batch,
  init, message_of, version, sort_strings, keys, net_file,
}
use dhound_agent.HttpGateway.Sending.{Outside, resend, send_to_server, run}
use dhound_agent.HttpGateway.Sending.Delivery.{Takes, Refuses, IsFinal, send_to_server_cases}
use dhound_agent.HttpGateway.Sending.Repeats.{run_announces, same_second}
use dhound_agent.HttpGateway.Sending.Durable.{MessageIsSafe, run_accounts_for_messages}

abbrev plain : Json
plain = record {
  Content = ServerRequestMessage;
  Body = ServerResponseMessage;
  marshal = λ m. m;
  unmarshal = λ b. some b;
}

abbrev outside_with :
    (List ServerRequestMessage → ServerRequestMessage → Reply ServerResponseMessage) → Outside plain
outside_with server = record {
  server = server;
  read_fails = λ name. false;
  remove_fails = λ name. false;
  write_outcome = λ name. written;
}

abbrev down : Outside plain
down = outside_with (λ posts content. no_reply)

abbrev login : SecurityEvent
login = record {
  security_id = 7;
  security_group_id = 0;
  event_time_utc_number = 1_500_000_000;
  message = codes "login";
  ip_address = codes "10.0.0.1";
  additional_fields = [];
  critical = true;
  source = none;
}

abbrev container : SecurityEventsContainer
container = record {
  source_id = codes "1_2";
  offset = 40;
  line = 3;
  source = codes "/var/log/auth.log";
  ip_to_service_map = [];
  security_events = login ∷ [];
}

abbrev batch_at : ℕ → Batch
batch_at t = record { containers = container ∷ []; now = t; file_time = t }

abbrev gate : HttpGateway
unfolding init str_eq
gate =
    init (record { access_token = codes "t"; server_key = codes "k"; environment = []; proxy = [] })
      (pos 3600)

abbrev fresh : World ServerRequestMessage
fresh = record { files = []; posts = [] }

some_event : ◌≢◌ {A = List SecurityEvent} (login ∷ []) []
some_event e = cc

send_to_server_cases_example :
    let message = message_of gate 5 (container ∷ []) in
    let after = (send_to_server plain down gate (batch_at 5) fresh).1 in
    let earlier = resend plain down (sort_strings (keys fresh.files)) fresh in
    let reply = down.server earlier.posts message in
    (message.events ≡ login ∷ [])
    × (after.posts ≡ earlier.posts ++ message ∷ [])
    × (((Takes plain down reply ⊎ Refuses plain down reply) × (after.files ≡ earlier.files))
        ⊎ ((¬ IsFinal plain down reply) × (get_key (net_file 5) after.files ≡ some message)))
send_to_server_cases_example =
    send_to_server_cases plain down gate (batch_at 5) fresh some_event refl

run_announces_example :
    let message = message_of gate 9 (container ∷ []) in
    let before = (run plain down gate (batch_at 5 ∷ []) fresh).0 in
    ((run plain down gate (batch_at 5 ∷ batch_at 9 ∷ []) fresh).0.posts
      ≡ (resend plain down (sort_strings (keys before.files)) before).posts ++ message ∷ [])
    × (message.version ≡ version)
    × (message.local_time_utc_offset_number ≡ gate.time_offset_in_seconds)
unfolding gate
run_announces_example = run_announces plain down gate (batch_at 5 ∷ []) (batch_at 9) fresh refl

same_second_example :
    (run plain down gate (batch_at 5 ∷ batch_at 5 ∷ []) fresh).0.files
    ≡ (net_file 5, message_of gate 5 (container ∷ [])) ∷ []
same_second_example =
    same_second plain down (λ posts content. refl) gate (batch_at 5) (batch_at 5) some_event
      some_event refl refl

net_file_runs : net_file 1_500_000_000 ≡ codes ".state/.net_1500000000"
unfolding format_decimal
net_file_runs = refl

-- Two batches of two seconds, while the server is down.
run_accounts_for_messages_example :
    All
      (MessageIsSafe plain down gate (run plain down gate (batch_at 2 ∷ batch_at 3 ∷ []) fresh).0)
      (batch_at 2 ∷ batch_at 3 ∷ [])
run_accounts_for_messages_example =
    run_accounts_for_messages plain down gate (batch_at 2 ∷ batch_at 3 ∷ []) fresh
      (((λ e. absurd (omega (arith, e))), tt), (tt, tt)) (refl, (refl, tt))
