-- ===== src/EventLogs/Properties.antt =====
-- typedef_windows.go: the numbers of the system properties of an event, and their names.
use dhound_agent.Base.{
  ℕ, zero, suc, ◌<◌, ◌≤◌, ◌⊎◌, All, ltb→lt, List, [], ◌∷◌, ◌≡◌, refl, ap, sym, Option, none, some,
  Bool, true, false, ◌&&◌, ◌==◌, ==_iff, ltb, if◌then◌else◌, Bytes, codes, str_eq, arith,
  Bool-cases, inl, inr,
}

-- The type `EvtSystemPropertyID` is uint32, and the constants count from 0.
abbrev evt_system_provider_name : ℕ
evt_system_provider_name = 0

abbrev evt_system_provider_guid : ℕ
evt_system_provider_guid = 1

abbrev evt_system_event_id : ℕ
evt_system_event_id = 2

abbrev evt_system_qualifiers : ℕ
evt_system_qualifiers = 3

abbrev evt_system_level : ℕ
evt_system_level = 4

abbrev evt_system_task : ℕ
evt_system_task = 5

abbrev evt_system_opcode : ℕ
evt_system_opcode = 6

abbrev evt_system_keywords : ℕ
evt_system_keywords = 7

abbrev evt_system_time_created : ℕ
evt_system_time_created = 8

abbrev evt_system_event_record_id : ℕ
evt_system_event_record_id = 9

abbrev evt_system_activity_id : ℕ
evt_system_activity_id = 10

abbrev evt_system_related_activity_id : ℕ
evt_system_related_activity_id = 11

abbrev evt_system_process_id : ℕ
evt_system_process_id = 12

abbrev evt_system_thread_id : ℕ
evt_system_thread_id = 13

abbrev evt_system_channel : ℕ
evt_system_channel = 14

abbrev evt_system_computer : ℕ
evt_system_computer = 15

abbrev evt_system_user_id : ℕ
evt_system_user_id = 16

abbrev evt_system_version : ℕ
evt_system_version = 17

abbrev evt_system_property_id_end : ℕ
evt_system_property_id_end = 18

evt_system_map : List (ℕ × Bytes)
evt_system_map =
    (evt_system_provider_name, codes "Provider Name")
    ∷ (evt_system_provider_guid, codes "Provider GUID")
    ∷ (evt_system_event_id, codes "Event ID")
    ∷ (evt_system_qualifiers, codes "Qualifiers")
    ∷ (evt_system_level, codes "Level")
    ∷ (evt_system_task, codes "Task")
    ∷ (evt_system_opcode, codes "Opcode")
    ∷ (evt_system_keywords, codes "Keywords")
    ∷ (evt_system_time_created, codes "Time Created")
    ∷ (evt_system_event_record_id, codes "Record ID")
    ∷ (evt_system_activity_id, codes "Activity ID")
    ∷ (evt_system_related_activity_id, codes "Related Activity ID")
    ∷ (evt_system_process_id, codes "Process ID")
    ∷ (evt_system_thread_id, codes "Thread ID")
    ∷ (evt_system_channel, codes "Channel")
    ∷ (evt_system_computer, codes "Computer")
    ∷ (evt_system_user_id, codes "User ID")
    ∷ (evt_system_version, codes "Version")
    ∷ []

-- The value of a key in a map of Go.
found : ℕ → List (ℕ × Bytes) → Option Bytes
found e [] = none
found e ((id, name) ∷ rest) = let s = found e rest in if e == id then some name else s

string : ℕ → Bytes
unfolding found evt_system_map
string e = elim (found e evt_system_map) [ some s ↦ s | none ↦ codes "Unknown" ]

-- The number of the first property with this name.
abbrev id_of : Bytes → List (ℕ × Bytes) → Option ℕ
id_of name [] = none
id_of name ((id, s) ∷ rest) = if str_eq name s then some id else id_of name rest

abbrev all_below : (ℕ → Bool) → ℕ → Bool
all_below p zero = true
all_below p (suc n) = all_below p n && p n

is_id : ℕ → Option ℕ → Bool
is_id e none = false
is_id e (some id) = e == id

abbrev has_name : ℕ → Bool
has_name e = is_id e (id_of (string e) evt_system_map)

evt_system_map-All : All (λ p. p.0 < evt_system_property_id_end) evt_system_map
unfolding evt_system_map
evt_system_map-All = ground arith

all_named : all_below has_name evt_system_property_id_end ≡ true
unfolding string is_id str_eq
all_named = refl

and_first : (a b : Bool) → (a && b) ≡ true → a ≡ true
and_first true b h = refl
and_first false b h = absurd cc

and_last : (a b : Bool) → (a && b) ≡ true → b ≡ true
and_last true b h = h
and_last false b h = absurd cc

all_below-true : (p : ℕ → Bool) (n e : ℕ) → all_below p n ≡ true → e < n → p e ≡ true
all_below-true p zero e h l = absurd (omega (arith, l))
all_below-true p (suc n) e h l = elim (Bool-cases (e == n)) [
  | inl k ↦ rw ((==_iff e n).0 k) (and_last (all_below p n) (p n) h)
  | inr k ↦ all_below-true p n e (and_first (all_below p n) (p n) h) (ground (arith, k))
]

is_id-true : (e : ℕ) (o : Option ℕ) → is_id e o ≡ true → o ≡ some e
unfolding is_id
is_id-true e none h = absurd cc
is_id-true e (some id) h = ap some (sym ((==_iff e id).0 h))

found-none : (e n : ℕ) (m : List (ℕ × Bytes)) → All (λ p. p.0 < n) m → n ≤ e → found e m ≡ none
unfolding found
found-none e n [] h l = refl
found-none e n ((id, name) ∷ rest) h l = elim (Bool-cases (e == id)) [
  | inl k ↦ absurd (let same = (==_iff e id).0 k in let small = h.0 in omega (arith, same, small))
  | inr k ↦ rw k (found-none e n rest h.1 l)
]

string-unknown : (e : ℕ) → found e evt_system_map ≡ none → string e ≡ codes "Unknown"
unfolding string
string-unknown e h = rw (h, string) refl

-- The properties are told apart by their names, and a number that is none of theirs is "Unknown".
string_lem :
    (e : ℕ)
    → ((e < evt_system_property_id_end) × (id_of (string e) evt_system_map ≡ some e))
      ⊎ ((evt_system_property_id_end ≤ e) × (string e ≡ codes "Unknown"))
string_lem e = elim (Bool-cases (ltb e evt_system_property_id_end)) [
  | inl l ↦
      let small = ltb→lt e evt_system_property_id_end l in
      inl (
        small,
        is_id-true e _ (all_below-true has_name evt_system_property_id_end e all_named small),
      )
  | inr l ↦
      let large : evt_system_property_id_end ≤ e = ground (arith, l) in
      inr (
        large,
        string-unknown e
            (found-none e evt_system_property_id_end evt_system_map evt_system_map-All large),
      )
]
