-- ===== src/Utils/Duplicates.antt =====
-- What `CleanSecurityEventsFromDublicates` of utils.go keeps.
use mathlib.Core.List.{Sublist}
use mathlib.Core.List.Sublist
use dhound_agent.Base.{
  subst, List, [], ◌∷◌, ◌++◌, ◌≡◌, refl, sym, ◌∙◌, true, false, if◌then◌else◌, any, any-append, All,
  All-append, ltb, length, arith, str_eq_iff, Option, none, some, append_assoc, append-nil,
  Bool-cases, inl, inr,
}
use dhound_agent.Events.{SecurityEvent}
use dhound_agent.Utils.{is_duplicate, clean_loop, clean_security_events_from_dublicates}

-- Events with one id, address and time are duplicates of the same events.
is_duplicate_cong :
    (a b c : SecurityEvent) → is_duplicate a b ≡ true → is_duplicate c a ≡ is_duplicate c b
unfolding is_duplicate
is_duplicate_cong a b c h = ground (
  arith,
  str_eq_iff a.ip_address b.ip_address,
  str_eq_iff c.ip_address a.ip_address,
  str_eq_iff c.ip_address b.ip_address,
)

is_duplicate_refl : (a : SecurityEvent) → is_duplicate a a ≡ true
unfolding is_duplicate
is_duplicate_refl a = ground (arith, str_eq_iff a.ip_address a.ip_address)

is_duplicate_sym : (a b : SecurityEvent) → is_duplicate a b ≡ is_duplicate b a
unfolding is_duplicate
is_duplicate_sym a b =
    ground (arith, str_eq_iff a.ip_address b.ip_address, str_eq_iff b.ip_address a.ip_address)

-- The first event of a list that is a duplicate of this one.
abbrev pub first_like : SecurityEvent → List SecurityEvent → Option SecurityEvent
first_like e [] = none
first_like e (x ∷ xs) = if is_duplicate e x then some x else first_like e xs

-- No two events of the list are duplicates.
abbrev pub IsDistinct : List SecurityEvent → Type 0
IsDistinct [] = Unit {0}
IsDistinct (x ∷ xs) = (any (λ y. is_duplicate y x) xs ≡ false) × IsDistinct xs

-- The reference: an event is kept if none of the kept ones before it is a duplicate.
abbrev pub keep_new : List SecurityEvent → SecurityEvent → List SecurityEvent
keep_new targets base = if any (is_duplicate base) targets then targets else targets ++ base ∷ []

first_like-append :
    (e : SecurityEvent) (xs ys : List SecurityEvent)
    → first_like e (xs ++ ys)
      ≡ (if any (is_duplicate e) xs then first_like e xs else first_like e ys)
first_like-append e [] ys = refl
first_like-append e (x ∷ xs) ys = ground (arith, first_like-append e xs ys)

any_cong :
    (a b : SecurityEvent) (xs : List SecurityEvent)
    → is_duplicate a b ≡ true
    → any (is_duplicate a) xs ≡ any (is_duplicate b) xs
any_cong a b [] h = refl
any_cong a b (x ∷ xs) h = ground (
  arith,
  any_cong a b xs h,
  is_duplicate_cong a b x h,
  is_duplicate_sym a x,
  is_duplicate_sym b x,
)

first_like-clean_loop :
    (e : SecurityEvent) (events targets : List SecurityEvent)
    → first_like e (clean_loop events targets) ≡ first_like e (targets ++ events)
unfolding clean_loop
first_like-clean_loop e [] targets = rw append-nil
first_like-clean_loop e (base ∷ rest) targets = ground (
  arith,
  first_like-clean_loop e rest targets,
  first_like-clean_loop e rest (targets ++ base ∷ []),
  append_assoc targets (base ∷ []) rest,
  first_like-append e targets rest,
  first_like-append e targets (base ∷ rest),
  any_cong e base targets,
)

IsDistinct-concat :
    (base : SecurityEvent) (targets : List SecurityEvent)
    → IsDistinct targets
    → any (is_duplicate base) targets ≡ false
    → IsDistinct (targets ++ base ∷ [])
IsDistinct-concat base [] h k = (refl, tt)
IsDistinct-concat base (x ∷ xs) h k =
    ground (arith, any-append (λ y. is_duplicate y x) xs (base ∷ []), IsDistinct-concat base xs h.1)

clean_loop-IsDistinct :
    (events targets : List SecurityEvent)
    → IsDistinct targets
    → IsDistinct (clean_loop events targets)
unfolding clean_loop
clean_loop-IsDistinct [] targets h = h
clean_loop-IsDistinct (base ∷ rest) targets h =
    elim (Bool-cases (any (is_duplicate base) targets)) [
      | inl e ↦ rw e (clean_loop-IsDistinct rest targets h)
      | inr e ↦
          rw e
            (clean_loop-IsDistinct rest (targets ++ base ∷ []) (IsDistinct-concat base targets h e))
    ]

clean_eq_loop :
    (events : List SecurityEvent)
    → clean_security_events_from_dublicates events ≡ clean_loop events []
unfolding clean_security_events_from_dublicates
clean_eq_loop [] = refl
clean_eq_loop (a ∷ []) = refl
clean_eq_loop (a ∷ b ∷ rest) = ground arith

shorter :
    (base : SecurityEvent) (targets rest : List SecurityEvent)
    → Sublist (targets ++ rest) (targets ++ base ∷ rest)
shorter base targets rest =
    Sublist.append (Sublist.refl targets) (Sublist.cons base (Sublist.refl rest))

clean_loop-Sublist :
    (events targets : List SecurityEvent) → Sublist (clean_loop events targets) (targets ++ events)
unfolding clean_loop
clean_loop-Sublist [] targets = rw append-nil (Sublist.refl targets)
clean_loop-Sublist (base ∷ rest) targets = elim (Bool-cases (any (is_duplicate base) targets)) [
  | inl e ↦ rw e (Sublist.trans (clean_loop-Sublist rest targets) (shorter base targets rest))
  | inr e ↦ rw e (
      subst (Sublist _) (append_assoc targets (base ∷ []) rest)
        (clean_loop-Sublist rest (targets ++ base ∷ [])))
]

-- Two events are duplicates if they agree in id, address and time. The cleaned list has no two
-- duplicates, its events stand in the order of the given list, and for every event the first
-- duplicate of it in the cleaned list is the first one in the given list: of each group the first
-- event is kept, and no group is lost.
pub clean_lem :
    (events : List SecurityEvent) (e : SecurityEvent)
    → let cleaned = clean_security_events_from_dublicates events in
      IsDistinct cleaned × Sublist cleaned events × (first_like e cleaned ≡ first_like e events)
clean_lem events e = rw (clean_eq_loop events) (
  clean_loop-IsDistinct events [] tt,
  clean_loop-Sublist events [],
  first_like-clean_loop e events [],
)

IsDistinct-middle :
    (base : SecurityEvent) (targets rest : List SecurityEvent)
    → IsDistinct (targets ++ base ∷ rest)
    → any (is_duplicate base) targets ≡ false
IsDistinct-middle base [] rest h = refl
IsDistinct-middle base (x ∷ xs) rest h =
    ground (
      arith,
      any-append (λ y. is_duplicate y x) xs (base ∷ rest),
      IsDistinct-middle base xs rest h.1,
    )

clean_loop_of_IsDistinct :
    (events targets : List SecurityEvent)
    → IsDistinct (targets ++ events)
    → clean_loop events targets ≡ targets ++ events
unfolding clean_loop
clean_loop_of_IsDistinct [] targets h = sym (append-nil targets)
clean_loop_of_IsDistinct (base ∷ rest) targets h =
    let e : targets ++ base ∷ rest ≡ (targets ++ base ∷ []) ++ rest =
      sym (append_assoc targets (base ∷ []) rest) in
    rw (IsDistinct-middle base targets rest h)
      (clean_loop_of_IsDistinct rest (targets ++ base ∷ []) (subst IsDistinct e h) ∙ sym e)

-- A list without duplicates is left as it is, so a second cleaning changes nothing.
pub clean_idem :
    (events : List SecurityEvent)
    → clean_security_events_from_dublicates (clean_security_events_from_dublicates events)
      ≡ clean_security_events_from_dublicates events
clean_idem events =
    rw (clean_eq_loop events, clean_eq_loop (clean_loop events []))
      (clean_loop_of_IsDistinct (clean_loop events []) [] (clean_loop-IsDistinct events [] tt))

clean_loop-All {κ} :
    (P : SecurityEvent → Type κ) (events targets : List SecurityEvent)
    → All P events
    → All P targets
    → All P (clean_loop events targets)
unfolding clean_loop
clean_loop-All P [] targets h k = k
clean_loop-All P (base ∷ rest) targets h k = elim (Bool-cases (any (is_duplicate base) targets)) [
  | inl e ↦ rw e (clean_loop-All P rest targets h.1 k)
  | inr e ↦ rw e (
      clean_loop-All P rest (targets ++ base ∷ []) h.1
        (All-append P targets (base ∷ []) k (h.0, tt)))
]

pub clean-All {κ} :
    (P : SecurityEvent → Type κ) (events : List SecurityEvent)
    → All P events
    → All P (clean_security_events_from_dublicates events)
unfolding clean_security_events_from_dublicates
clean-All P events h = elim (Bool-cases (ltb (length events) 2)) [
  | inl e ↦ rw e h
  | inr e ↦ rw e (clean_loop-All P events [] h tt)
]
