-- ===== src/IpEnricher/Interleaving/Pointers.antt =====
-- ip_enricher_linux.go: who has a pointer to which map.
use dhound_agent.Base.{
  ℕ, ◌<◌, ◌≤◌, List, [], ◌∷◌, ◌≢◌, subst, Option, none, some, arith, All, All-append, length,
  length-append, length-modify,
}
use dhound_agent.Events.{SecurityEventsContainer}
use dhound_agent.IpEnricher.{learn_ip}
use dhound_agent.IpEnricher.Interleaving.{
  Listener, waiting, filling, Handler, ready, handed, Shared, Step, Steps,
}

abbrev pub Holds : (ℕ → Type 0) → Option ℕ → Type 0
Holds P none = Unit {0}
Holds P (some p) = P p

abbrev pub OfListener : (ℕ → Type 0) → Listener → Type 0
OfListener P waiting = Unit {0}
OfListener P (filling dns_name ips p) = P p

abbrev pub OfHandler : (ℕ → Type 0) → Handler → Type 0
OfHandler P ready = Unit {0}
OfHandler P (handed c p) = Holds P p

-- All pointers that anyone has.
abbrev pub AllPointers : (ℕ → Type 0) → Shared → Type 0
AllPointers P s =
    Holds P s.ip_to_services_map
    × (OfListener P s.listener × (OfHandler P s.handler × All (λ out. Holds P out.1) s.passed_on))

-- The only pointer that a step brings in is the one of a map that it makes.
pub step-AllPointers :
    (P : ℕ → Type 0) {s t : Shared}
    → Step s t
    → (length s.heap < length t.heap → P (length s.heap))
    → AllPointers P s
    → AllPointers P t
step-AllPointers P (Step.use_map n ips p h some_ip k) new (m, (l, (d, o))) =
    (m, (subst (Holds P) k m, (d, o)))
step-AllPointers P {s} (Step.make_map n ips h some_ip k) new (m, (l, (d, o))) =
    (m, (new (omega (arith, length-append s.heap ([] ∷ []))), (d, o)))
step-AllPointers P (Step.fill n ip ips p h) new (m, (l, (d, o))) =
    (m, (subst (OfListener P) h l, (d, o)))
step-AllPointers P (Step.store n p h) new (m, (l, (d, o))) =
    (subst (OfListener P) h l, (tt, (d, o)))
step-AllPointers P (Step.hand c h) new (m, (l, (d, o))) = (m, (l, (m, o)))
step-AllPointers P {s} (Step.clear c p h) new (m, (l, (d, o))) = (
  tt,
  (
    l,
    (
      tt,
      All-append (λ out. Holds P out.1) s.passed_on ((c, p) ∷ []) o (subst (OfHandler P) h d, tt),
    ),
  ),
)

pub step_grows : {s t : Shared} → Step s t → length s.heap ≤ length t.heap
step_grows (Step.use_map n ips p h some_ip k) = omega arith
step_grows {s} (Step.make_map n ips h some_ip k) = omega (arith, length-append s.heap ([] ∷ []))
step_grows {s} (Step.fill n ip ips p h) = omega (arith, length-modify s.heap p (learn_ip n ip))
step_grows (Step.store n p h) = omega arith
step_grows (Step.hand c h) = omega arith
step_grows (Step.clear c p h) = omega arith

module _ (P Q : ℕ → Type 0) (weaker : (p : ℕ) → P p → Q p) where
  pub Holds-weaker : (o : Option ℕ) → Holds P o → Holds Q o
  Holds-weaker none h = tt
  Holds-weaker (some p) h = weaker p h

  pub All-weaker :
      (outs : List (SecurityEventsContainer × Option ℕ))
      → All (λ out. Holds P out.1) outs
      → All (λ out. Holds Q out.1) outs
  All-weaker [] h = tt
  All-weaker ((c, o) ∷ outs) h = (Holds-weaker o h.0, All-weaker outs h.1)

  pub AllPointers-weaker : (s : Shared) → AllPointers P s → AllPointers Q s
  AllPointers-weaker s (m, (l, (d, o))) =
      (Holds-weaker _ m, (of_listener s.listener l, (of_handler s.handler d, All-weaker _ o)))
    where
      of_listener : (l : Listener) → OfListener P l → OfListener Q l
      of_listener waiting h = tt
      of_listener (filling n ips p) h = weaker p h

      of_handler : (d : Handler) → OfHandler P d → OfHandler Q d
      of_handler ready h = tt
      of_handler (handed c o) h = Holds-weaker o h

-- Every pointer is one of a map in the heap.
abbrev pub IsBounded : Shared → Type 0
IsBounded s = AllPointers (λ p. p < length s.heap) s

step-IsBounded : {s t : Shared} → Step s t → IsBounded s → IsBounded t
step-IsBounded {s} {t} step h =
    step-AllPointers (λ p. p < length t.heap) step (λ grows. grows)
      (AllPointers-weaker (λ p. p < length s.heap) (λ p. p < length t.heap)
        (λ p k. omega (arith, step_grows step)) s h)

pub steps-IsBounded : {s t : Shared} → Steps s t → IsBounded s → IsBounded t
steps-IsBounded Steps.stay h = h
steps-IsBounded (Steps.later steps step) h = step-IsBounded step (steps-IsBounded steps h)

-- A map of the heap that nobody has a pointer to.
abbrev pub IsLost : ℕ → Shared → Type 0
IsLost p s = (p < length s.heap) × AllPointers (λ q. q ≢ p) s

pub steps-IsLost : {s t : Shared} (p : ℕ) → Steps s t → IsLost p s → IsLost p t
steps-IsLost p Steps.stay h = h
steps-IsLost p (Steps.later steps step) h =
    let (inside, avoided) = steps-IsLost p steps h in
    (
      omega (arith, step_grows step),
      step-AllPointers (λ q. q ≢ p) step (λ grows e. absurd (omega arith)) avoided,
    )
