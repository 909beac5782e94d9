-- ===== src/IpEnricher/DisplayDns.antt =====
-- ip_enricher_windows.go: the names of addresses from the output of `ipconfig /displaydns`. The four
-- expressions of `_InternalSync` are parameters, as they come from `regexp.Compile`, and so is
-- `strings.ToLower`.
pub mod Services
pub mod Loop
pub mod Expressions
mod Examples
use dhound_agent.Base.{
  List, [], ◌∷◌, ◌++◌, Option, none, some, ltb, if◌then◌else◌, length, Bytes, codes, Dict, get_key,
  put, value_of,
}
use dhound_agent.Events.{SecurityEvent, SecurityEventsContainer}
use dhound_agent.Regexp.{Regexp}
unfoldable use dhound_agent.Utils.{contains}
unfoldable use dhound_agent.Utils.Matching.{regex_find_all_submatches, regex_split}
use dhound_agent.IpEnricher.{IpEnricher, learn_ip, get_dns_by_ip}

-- The two maps that the loop over the sections fills.
pub record Records : Type 0 where
  pub a_records : Dict (List Bytes)
  pub cname_records : Dict (List Bytes)

-- A name under a canonical name, as the source has it: the list that is extended is the one of the
-- other map.
pub add_cname : Bytes → Bytes → Records → Records
unfolding contains get_key put
add_cname cname name r = if contains (value_of [] cname r.cname_records) name then r else record r {
  cname_records = put cname (value_of [] cname r.a_records ++ name ∷ []) r.cname_records;
}

-- The names behind one name, to the names of an address; `names` are those before the loop.
pub add_second_names : List Bytes → List Bytes → List Bytes → List Bytes
unfolding contains
add_second_names names [] all = all
add_second_names names (second_name ∷ rest) all =
    add_second_names names rest
      (if contains names second_name then all else all ++ second_name ∷ [])

pub add_aliases : List Bytes → Dict (List Bytes) → List Bytes → List Bytes → List Bytes
unfolding add_second_names get_key
add_aliases names cname_records [] all = all
add_aliases names cname_records (name ∷ rest) all =
    add_aliases names cname_records rest
      (add_second_names names (value_of [] name cname_records) all)

-- The loop that merges the maps.
pub merge : Dict (List Bytes) → Dict (List Bytes) → Dict (List Bytes)
unfolding add_aliases
merge cname_records [] = []
merge cname_records ((ip, names) ∷ rest) =
    (ip, add_aliases names cname_records names names) ∷ merge cname_records rest

module _ (regexp : Regexp) (to_lower : Bytes → Bytes)
    (a_records_regex cname_records_regex delimiter_regex internal_ip_regex : regexp.Regex) where
  open regexp use {match_string}

  pub read_cname : Dict Bytes → Records → Records
  unfolding add_cname
  read_cname fields r =
      if ltb 0 (length (value_of [] (codes "cname") fields))
      then add_cname (to_lower (value_of [] (codes "cname") fields))
          (to_lower (value_of [] (codes "name") fields)) r
      else r

  pub read_address : Bytes → Bytes → Records → Records
  unfolding learn_ip
  read_address ip name r =
      if match_string internal_ip_regex ip
      then r
      else if ltb 0 (length name)
      then record r { a_records = learn_ip (to_lower name) ip r.a_records }
      else r

  -- One round of the loop over the sections.
  pub read_section : Bytes → Records → Records
  unfolding read_address read_cname regex_find_all_submatches
  read_section section r =
      let fields = regex_find_all_submatches regexp section a_records_regex [] in
      if ltb 0 (length (value_of [] (codes "ip") fields))
      then read_address (value_of [] (codes "ip") fields) (value_of [] (codes "name") fields) r
      else read_cname (regex_find_all_submatches regexp section cname_records_regex fields) r

  pub read_sections : List Bytes → Records → Records
  unfolding read_section
  read_sections [] r = r
  read_sections (section ∷ rest) r = read_sections rest (read_section section r)

  pub names_of_output : Bytes → Dict (List Bytes)
  unfolding read_sections merge regex_split
  names_of_output output =
      let r =
        read_sections (regex_split regexp output delimiter_regex)
          (record { a_records = []; cname_records = [] }) in
      merge r.cname_records r.a_records

  -- One round of `_InternalSync`, with the output of the command unless that failed.
  pub internal_sync : Option Bytes → IpEnricher → IpEnricher
  unfolding names_of_output
  internal_sync none enricher = enricher
  internal_sync (some output) enricher = record enricher {
    ip_to_services_map = some (names_of_output output);
  }

-- The loop over the events.
pub add_services : IpEnricher → List SecurityEvent → Dict (List Bytes) → Dict (List Bytes)
unfolding get_dns_by_ip put
add_services enricher [] m = m
add_services enricher (event ∷ rest) m =
    let services = get_dns_by_ip event.ip_address enricher in
    add_services enricher rest
      (if ltb 0 (length services) then put event.ip_address services m else m)

pub process_events_container : SecurityEventsContainer → IpEnricher → SecurityEventsContainer
unfolding add_services
process_events_container container enricher = record container {
  ip_to_service_map = add_services enricher container.security_events container.ip_to_service_map;
}
