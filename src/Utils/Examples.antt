-- ===== src/Utils/Examples.antt =====
-- The functions of utils.go on small inputs.
use mathlib.Core.List.{Sublist}
use dhound_agent.Base.{List, [], ◌∷◌, ◌≡◌, refl, Option, none, some, arith, codes, Bytes, str_eq}
use dhound_agent.Events.{SecurityEvent}
use dhound_agent.Samples.{event_at}
use dhound_agent.Utils.{clean_security_events_from_dublicates}
use dhound_agent.Utils.Duplicates.{IsDistinct, first_like, clean_lem}
use dhound_agent.Utils.Matching.{apply_filter_to_security_message}
use dhound_agent.Utils.Matching.Message.{apply_filter-eq-substitute, substitute, message_order}

abbrev three : List SecurityEvent
three = event_at 1 (codes "a") ∷ event_at 1 (codes "b") ∷ event_at 2 (codes "c") ∷ []

clean_lem_example :
    IsDistinct (clean_security_events_from_dublicates three)
    × Sublist (clean_security_events_from_dublicates three) three
    × (first_like (event_at 1 []) (clean_security_events_from_dublicates three)
        ≡ first_like (event_at 1 []) three)
clean_lem_example = clean_lem three (event_at 1 [])

three_are_two :
    clean_security_events_from_dublicates three
    ≡ event_at 1 (codes "a") ∷ event_at 2 (codes "c") ∷ []
unfolding clean_security_events_from_dublicates str_eq
three_are_two = refl

abbrev filter : List (Bytes × Option Bytes)
filter = (codes "user", none) ∷ (codes "ip", some (codes "10.0.0.1")) ∷ []

abbrev fields : List (Bytes × Bytes)
fields = (codes "ip", codes "10.0.0.1") ∷ []

abbrev swapped : List (Bytes × Option Bytes)
swapped = (codes "ip", some (codes "10.0.0.1")) ∷ (codes "user", none) ∷ []

apply_filter-eq-substitute_example :
    apply_filter_to_security_message (codes "from #ip") fields
    ≡ substitute fields (codes "from #ip")
apply_filter-eq-substitute_example = apply_filter-eq-substitute (codes "from #ip") fields

-- The fields `user` and `username`.
message_order_example :
    let message = codes "#username" in
    (apply_filter_to_security_message message
        ((codes "user", codes "root") ∷ (codes "username", codes "Bob") ∷ [])
      ≡ codes "rootname")
    × (apply_filter_to_security_message message
          ((codes "username", codes "Bob") ∷ (codes "user", codes "root") ∷ [])
        ≡ codes "Bob")
message_order_example =
    message_order (codes "user") (codes "name") (codes "root") (codes "Bob") (omega arith)
      (omega arith) (omega arith)
