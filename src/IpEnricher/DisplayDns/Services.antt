-- ===== src/IpEnricher/DisplayDns/Services.antt =====
-- ip_enricher_windows.go: the services of a container, and the aliases of a canonical name.
use dhound_agent.Base.{
  List, [], ◌∷◌, ◌++◌, ◌≡◌, refl, ◌∙◌, none, some, Bool, false, ◌&&◌, ltb, length, arith, any,
  if◌then◌else◌, Bytes, str_eq, str_eq_iff, str_eq_refl, Dict, get_key, put, get_key-put, value_of,
}
use dhound_agent.Events.{SecurityEvent, SecurityEventsContainer}
use dhound_agent.Utils.{contains}
use dhound_agent.IpEnricher.{IpEnricher, get_dns_by_ip}
use dhound_agent.IpEnricher.DisplayDns.{Records, add_cname, add_services, process_events_container}

-- Whether some event has this address.
abbrev pub has_address : Bytes → List SecurityEvent → Bool
has_address ip = any (λ event. str_eq event.ip_address ip)

get_key-add_services :
    (ip : Bytes) (e : IpEnricher) (events : List SecurityEvent) (m : Dict (List Bytes))
    → get_key ip (add_services e events m) ≡ (
        if has_address ip events && ltb 0 (length (get_dns_by_ip ip e))
        then some (get_dns_by_ip ip e)
        else get_key ip m)
unfolding add_services
get_key-add_services ip e [] m = refl
get_key-add_services ip e (event ∷ rest) m = ground (
  arith,
  str_eq_iff event.ip_address ip,
  get_key-put event.ip_address ip (get_dns_by_ip event.ip_address e) m,
  get_key-add_services ip e rest m,
  get_key-add_services ip e rest (put event.ip_address (get_dns_by_ip event.ip_address e) m),
)

-- The map of a container after the enricher on Windows: an address with names that some event of the
-- container has stands there with all its names, and of every other address what stood there
-- before.
pub get_key-process_events_container :
    (ip : Bytes) (e : IpEnricher) (c : SecurityEventsContainer)
    → get_key ip (process_events_container c e).ip_to_service_map ≡ (
        if has_address ip c.security_events && ltb 0 (length (get_dns_by_ip ip e))
        then some (get_dns_by_ip ip e)
        else get_key ip c.ip_to_service_map)
unfolding process_events_container
get_key-process_events_container ip e c =
    get_key-add_services ip e c.security_events c.ip_to_service_map

get_key-add_cname :
    (cname name : Bytes) (r : Records)
    → contains (value_of [] cname r.cname_records) name ≡ false
    → get_key cname (add_cname cname name r).cname_records
      ≡ some (value_of [] cname r.a_records ++ name ∷ [])
unfolding add_cname
get_key-add_cname cname name r h = rw h (
    get_key-put cname cname (value_of [] cname r.a_records ++ name ∷ []) r.cname_records
    ∙ rw (str_eq_refl cname) refl)

add_cname-a_records :
    (cname name : Bytes) (r : Records) → (add_cname cname name r).a_records ≡ r.a_records
unfolding add_cname
add_cname-a_records cname name r = ground arith

-- Two names are met under one canonical name that is not the text of an address. The second does
-- not join the first but takes its place.
pub alias_is_overwritten :
    (cname first second : Bytes) (r : Records)
    → get_key cname r.cname_records ≡ none
    → get_key cname r.a_records ≡ none
    → str_eq first second ≡ false
    → get_key cname (add_cname cname second (add_cname cname first r)).cname_records
      ≡ some (second ∷ [])
unfolding contains
alias_is_overwritten cname first second r h k different =
    get_key-add_cname cname second r₁ (rw (first_there, value_of) (ground (arith, different)))
    ∙ rw (add_cname-a_records cname first r, k, value_of) refl
  where
    r₁ : Records
    r₁ = add_cname cname first r

    first_there : get_key cname r₁.cname_records ≡ some (first ∷ [])
    first_there = get_key-add_cname cname first r (rw (h, value_of) refl) ∙ rw (k, value_of) refl
