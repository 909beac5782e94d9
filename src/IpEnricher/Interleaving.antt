-- ===== src/IpEnricher/Interleaving.antt =====
-- ip_enricher_linux.go, statement by statement: the goroutine that listens and the one that handles
-- the containers share the pointer `_ipToServicesMap` without a lock. The maps stand in a heap, and a
-- pointer is the index of one.
pub mod Pointers
pub mod Lost
pub mod Told
pub mod Calm
pub mod Turns
mod Examples
use dhound_agent.Base.{
  ℕ, List, [], ◌∷◌, ◌++◌, ◌≡◌, ◌≢◌, Option, none, some, length, modify, Bytes, Dict,
}
use dhound_agent.Events.{SecurityEventsContainer}
use dhound_agent.IpEnricher.{learn_ip}

-- Between questions, or in the loop over the addresses: the name, those to come, and `ipMap`.
pub data Listener : Type 0 where
  waiting : Listener
  filling : Bytes → List Bytes → ℕ → Listener

-- Between containers, or between the two statements, with the pointer that the container has got.
pub data Handler : Type 0 where
  ready : Handler
  handed : SecurityEventsContainer → Option ℕ → Handler

pub record Shared : Type 0 where
  pub heap : List (Dict (List Bytes))
  pub ip_to_services_map : Option ℕ
  pub listener : Listener
  pub handler : Handler
  pub passed_on : List (SecurityEventsContainer × Option ℕ)

abbrev pub initial : Shared
initial = record {
  heap = [];
  ip_to_services_map = none;
  listener = waiting;
  handler = ready;
  passed_on = [];
}

pub data Step (s : Shared) : Shared → Type 0 where
  -- `ipMap := enricher._ipToServicesMap`, where that is a map.
  use_map :
      (dns_name : Bytes) (ips : List Bytes) (pointer : ℕ)
      → s.listener ≡ waiting
      → ips ≢ []
      → s.ip_to_services_map ≡ some pointer
      → Step s (record s { listener = filling dns_name ips pointer })
  -- The same where it is nil, with the map that is made.
  make_map :
      (dns_name : Bytes) (ips : List Bytes)
      → s.listener ≡ waiting
      → ips ≢ []
      → s.ip_to_services_map ≡ none
      → Step s
          (record s { heap = s.heap ++ [] ∷ []; listener = filling dns_name ips (length s.heap) })
  -- One round of the loop over the addresses.
  fill :
      (dns_name ip : Bytes) (ips : List Bytes) (pointer : ℕ)
      → s.listener ≡ filling dns_name (ip ∷ ips) pointer
      → Step s (record s {
        heap = modify s.heap pointer (learn_ip dns_name ip);
        listener = filling dns_name ips pointer;
      })
  -- `enricher._ipToServicesMap = ipMap`
  store :
      (dns_name : Bytes) (pointer : ℕ)
      → s.listener ≡ filling dns_name [] pointer
      → Step s (record s { ip_to_services_map = some pointer; listener = waiting })
  -- `eventsContainer.IpToServiceMap = enricher._ipToServicesMap`
  hand :
      (container : SecurityEventsContainer)
      → s.handler ≡ ready
      → Step s (record s { handler = handed container s.ip_to_services_map })
  -- `enricher._ipToServicesMap = nil`, and the container goes to the next channel.
  clear :
      (container : SecurityEventsContainer) (pointer : Option ℕ)
      → s.handler ≡ handed container pointer
      → Step s (record s {
        ip_to_services_map = none;
        handler = ready;
        passed_on = s.passed_on ++ (container, pointer) ∷ [];
      })

pub data Steps (s : Shared) : Shared → Type 0 where
  stay : Steps s s
  later : {t u : Shared} → Steps s t → Step t u → Steps s u
