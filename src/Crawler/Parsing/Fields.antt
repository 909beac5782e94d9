-- ===== src/Crawler/Parsing/Fields.antt =====
-- crawler_files.go: the additional fields of an event.
use dhound_agent.Base.{
  [], ◌∷◌, ◌≡◌, none, ◌||◌, if◌then◌else◌, Bytes, codes, str_eq, str_eq_iff, Dict, get_key, arith,
}
use dhound_agent.Crawler.Parsing.{additional_fields_of}

-- The additional fields are the result map without the address and the time: every other field is
-- there with its value, and no other.
pub get_key-additional_fields :
    (name : Bytes) (m : Dict Bytes)
    → get_key name (additional_fields_of m) ≡ (
        if str_eq name (codes "ip") || str_eq name (codes "eventTime")
        then none
        else get_key name m)
unfolding get_key additional_fields_of
get_key-additional_fields name [] = ground arith
get_key-additional_fields name ((key, value) ∷ rest) = ground (
  arith,
  str_eq_iff key (codes "ip"),
  str_eq_iff key (codes "eventTime"),
  str_eq_iff name (codes "ip"),
  str_eq_iff name (codes "eventTime"),
  str_eq_iff key name,
  get_key-additional_fields name rest,
)
