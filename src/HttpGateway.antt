-- ===== src/HttpGateway.antt =====
-- http_gateway.go. The world is the directory of the `.state/.net_*` files and the posts made so far;
-- the server and the faults of the file system are parameters. A batch holds no nil container, since
-- queue.go keeps none.
pub mod Sending
pub mod Client
use dhound_agent.Base.{
  ℕ, ℤ, pos, List, [], ◌∷◌, ◌++◌, Option, Bool, true, false, ◌&&◌, ◌||◌, ◌==◌, ltb, if◌then◌else◌,
  length, Bytes, codes, str_eq, Dict, put, format_decimal,
}
use dhound_agent.Events.{SecurityEvent, SecurityEventsContainer}

pub record ServerRequestMessage : Type 0 where
  pub access_token : Bytes
  pub server_key : Bytes
  pub local_time_utc_number : ℕ
  pub local_time_utc_offset_number : ℤ
  pub version : Bytes
  pub events : List SecurityEvent
  pub ip_services : Dict (List Bytes)

pub record ServerResponseMessage : Type 0 where
  pub success : Bool
  pub error_message : Bytes
  pub error_code : ℕ

pub record OutputConfig : Type 0 where
  pub access_token : Bytes
  pub server_key : Bytes
  pub environment : Bytes
  pub proxy : Bytes

pub record HttpGateway : Type 0 where
  pub output : OutputConfig
  pub server_url : Bytes
  pub time_offset_in_seconds : ℤ
  pub first_message_sent : Bool

-- version.go
abbrev pub version : Bytes
version = codes "1.1.139"

-- `Init`, without the HTTP client that it makes from the proxy, which is `make_client`'s.
pub init : OutputConfig → ℤ → HttpGateway
init config time_offset_in_seconds = record {
  output = config;
  server_url =
      if str_eq config.environment (codes "DEV")
      then codes "http://localhost:5000/collect"
      else if str_eq config.environment (codes "TEST")
      then codes "https://gate-test.dhound.io/collect"
      else codes "https://gate.dhound.io/collect";
  time_offset_in_seconds = time_offset_in_seconds;
  first_message_sent = false;
}

abbrev pub all_events : List SecurityEventsContainer → List SecurityEvent
all_events [] = []
all_events (container ∷ rest) = container.security_events ++ all_events rest

put_all {ℓ} : {V : Type ℓ} → Dict V → Dict V → Dict V
put_all [] m = m
put_all ((key, value) ∷ rest) m = put_all rest (put key value m)

-- The loop that collects the events and the services of the containers.
collect :
    List SecurityEventsContainer
    → List SecurityEvent × Dict (List Bytes)
    → List SecurityEvent × Dict (List Bytes)
unfolding put_all put
collect [] (events, services) = (events, services)
collect (container ∷ rest) (events, services) = collect rest (
  if ltb 0 (length container.security_events) then events ++ container.security_events else events,
  put_all container.ip_to_service_map services,
)

pub message_of : HttpGateway → ℕ → List SecurityEventsContainer → ServerRequestMessage
unfolding collect
message_of gate now containers =
    let (events, services) = collect containers ([], []) in
    record {
      access_token = gate.output.access_token;
      server_key = gate.output.server_key;
      local_time_utc_number = now;
      local_time_utc_offset_number =
          if gate.first_message_sent then pos 0 else gate.time_offset_in_seconds;
      version = if gate.first_message_sent then [] else version;
      events = events;
      ip_services = services;
    }

-- encoding/json, as far as the gateway uses it; `none` is an error.
pub record Json : Type 1 where
  pub Content : Type 0
  pub Body : Type 0
  pub marshal : ServerRequestMessage → Content
  pub unmarshal : Body → Option ServerResponseMessage

pub data Reply (B : Type 0) : Type 0 where
  no_reply : Reply B
  replied : ℕ → B → Reply B

-- `sort.Strings`, for distinct names.
str_le : Bytes → Bytes → Bool
str_le [] t = true
str_le (c ∷ s) [] = false
str_le (c ∷ s) (d ∷ t) = ltb c d || ((c == d) && str_le s t)

insert_sorted : Bytes → List Bytes → List Bytes
insert_sorted s [] = s ∷ []
insert_sorted s (t ∷ rest) = if str_le s t then s ∷ t ∷ rest else t ∷ insert_sorted s rest

pub sort_strings : List Bytes → List Bytes
unfolding insert_sorted str_le
sort_strings [] = []
sort_strings (s ∷ rest) = insert_sorted s (sort_strings rest)

pub delete {ℓ} : {V : Type ℓ} → Bytes → Dict V → Dict V
delete name [] = []
delete name ((other, value) ∷ rest) =
    if str_eq other name then delete name rest else (other, value) ∷ delete name rest

abbrev pub keys {ℓ} : {V : Type ℓ} → Dict V → List Bytes
keys [] = []
keys ((name, value) ∷ rest) = name ∷ keys rest

abbrev pub net_file : ℕ → Bytes
net_file unix_time = codes ".state/.net_" ++ format_decimal unix_time

-- A batch, the second of the message, and the second in the name of the file.
pub record Batch : Type 0 where
  pub containers : List SecurityEventsContainer
  pub now : ℕ
  pub file_time : ℕ

pub record World (C : Type 0) : Type 0 where
  pub files : Dict C
  pub posts : List C
