-- ===== src/IpEnricher/Interleaving/Lost.antt =====
-- ip_enricher_linux.go: a map that no container gets.
use dhound_agent.Base.{
  ℕ, ◌<◌, List, [], ◌∷◌, ◌++◌, ◌≡◌, refl, ◌≢◌, ap, sym, subst, none, some, arith, All, All-append,
  length, length-append, length-modify, modify-twice, modify-nothing, modify-last, modify,
  get_elem?, Bytes,
}
use dhound_agent.Events.{SecurityEventsContainer}
use dhound_agent.IpEnricher.{learn_ip, learn_ips}
use dhound_agent.IpEnricher.Interleaving.{
  waiting, filling, ready, handed, Shared, initial, Step, Steps,
}
use dhound_agent.IpEnricher.Interleaving.Pointers.{
  Holds, IsBounded, IsLost, All-weaker, steps-IsBounded, steps-IsLost,
}

pub append_steps : {s t u : Shared} → Steps s t → Steps t u → Steps s u
append_steps first Steps.stay = first
append_steps first (Steps.later more step) = Steps.later (append_steps first more) step

-- The loop over the addresses, with no other step between.
pub fill_all :
    (dns_name : Bytes) (ips : List Bytes) (p : ℕ) (s : Shared)
    → s.listener ≡ filling dns_name ips p
    → Steps s (record s {
      heap = modify s.heap p (learn_ips dns_name ips);
      listener = filling dns_name [] p;
    })
unfolding learn_ips
fill_all dns_name [] p s h =
    subst (Steps s) (λ i. record s { heap = sym (modify-nothing s.heap p) i; listener = h i })
      Steps.stay
fill_all dns_name (ip ∷ ips) p s h =
    let s' : Shared = record s {
      heap = modify s.heap p (learn_ip dns_name ip);
      listener = filling dns_name ips p;
    } in
    append_steps (Steps.later Steps.stay (Step.fill dns_name ip ips p h)) (
      subst (Steps s')
        (λ i. record s {
          heap = modify-twice s.heap p (learn_ip dns_name ip) (learn_ips dns_name ips) i;
          listener = filling dns_name [] p;
        })
        (fill_all dns_name ips p s' refl))

-- The state after the two statements for a container, between which the listener, from a nil
-- pointer, handled a question as a whole.
abbrev pub after_race : SecurityEventsContainer → Bytes → List Bytes → Shared → Shared
after_race c dns_name ips s = record s {
  heap = modify (s.heap ++ [] ∷ []) (length s.heap) (learn_ips dns_name ips);
  ip_to_services_map = none;
  listener = waiting;
  handler = ready;
  passed_on = s.passed_on ++ (c, none) ∷ [];
}

race :
    (c : SecurityEventsContainer) (dns_name : Bytes) (ips : List Bytes) (s : Shared)
    → s.listener ≡ waiting
    → s.handler ≡ ready
    → s.ip_to_services_map ≡ none
    → ips ≢ []
    → Steps s (after_race c dns_name ips s)
race c dns_name ips s l h m some_ip =
    let handing = Step.hand c h in
    let making = Step.make_map dns_name ips l some_ip m in
    let filled = fill_all dns_name ips (length s.heap) _ refl in
    Steps.later
      (Steps.later (append_steps (Steps.later (Steps.later Steps.stay handing) making) filled)
        (Step.store dns_name (length s.heap) refl))
      (Step.clear c none (ap (handed c) m))

after_race-IsLost :
    (c : SecurityEventsContainer) (dns_name : Bytes) (ips : List Bytes) (s : Shared)
    → IsBounded s
    → IsLost (length s.heap) (after_race c dns_name ips s)
after_race-IsLost c dns_name ips s (m, (l, (d, o))) = (
  omega (
    arith,
    length-modify (s.heap ++ [] ∷ []) (length s.heap) (learn_ips dns_name ips),
    length-append s.heap ([] ∷ []),
  ),
  (
    tt,
    (
      tt,
      (
        tt,
        All-append (λ out. Holds (λ q. q ≢ length s.heap) out.1) s.passed_on ((c, none) ∷ [])
            (All-weaker (λ q. q < length s.heap) (λ q. q ≢ length s.heap)
              (λ q k e. absurd (omega arith)) s.passed_on o)
            (tt, tt),
      ),
    ),
  ),
)

-- Names are lost: in every state that the goroutines can reach in which both are between rounds and
-- no map is set, they can take turns so that the listener handles a question with some address
-- between the two statements for a container. That container then goes on without a map, the names
-- of the question stand in a new map, and in no later state has any container been given it.
pub names_are_lost :
    {s : Shared} (c : SecurityEventsContainer) (dns_name : Bytes) (ips : List Bytes)
    → Steps initial s
    → s.listener ≡ waiting
    → s.handler ≡ ready
    → s.ip_to_services_map ≡ none
    → ips ≢ []
    → let t = after_race c dns_name ips s in
      let lost = length s.heap in
      Steps s t
      × (get_elem? t.heap lost ≡ some (learn_ips dns_name ips []))
      × ((u : Shared) → Steps t u → All (λ out. Holds (λ p. p ≢ lost) out.1) u.passed_on)
names_are_lost {s} c dns_name ips reached l h m some_ip = (
  race c dns_name ips s l h m some_ip,
  modify-last s.heap [] (learn_ips dns_name ips),
  λ u steps.
      (steps-IsLost (length s.heap) steps (
        after_race-IsLost c dns_name ips s (steps-IsBounded reached (tt, (tt, (tt, tt)))))).1.1.1.1,
)
