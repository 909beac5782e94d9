-- ===== src/Utils.antt =====
-- utils.go
pub mod Duplicates
pub mod Matching
mod Examples
use dhound_agent.Base.{
  ℕ, List, [], ◌∷◌, ◌++◌, Bool, false, ◌&&◌, ◌||◌, ◌==◌, if◌then◌else◌, length, any, Bytes, str_eq,
  ltb,
}
use dhound_agent.Events.{SecurityEvent}

unfoldable pub contains : List Bytes → Bytes → Bool
contains [] e = false
contains (a ∷ rest) e = str_eq a e || contains rest e

unfoldable pub contains_uint : List ℕ → ℕ → Bool
contains_uint [] e = false
contains_uint (a ∷ rest) e = (a == e) || contains_uint rest e

pub is_duplicate : SecurityEvent → SecurityEvent → Bool
is_duplicate base target =
    (base.security_id == target.security_id)
    && str_eq base.ip_address target.ip_address
    && (base.event_time_utc_number == target.event_time_utc_number)

-- The outer loop of `CleanSecurityEventsFromDublicates`, over what is left, with its target list.
clean_loop : List SecurityEvent → List SecurityEvent → List SecurityEvent
clean_loop [] targets = targets
clean_loop (base ∷ rest) targets =
    clean_loop rest (if any (is_duplicate base) targets then targets else targets ++ base ∷ [])

unfoldable pub clean_security_events_from_dublicates : List SecurityEvent → List SecurityEvent
unfolding clean_loop is_duplicate
clean_security_events_from_dublicates events =
    if ltb (length events) 2 then events else clean_loop events []
