-- ===== src/IpEnricher/Interleaving/Told.antt =====
-- ip_enricher_linux.go: which names the maps can have, in every interleaving.
use dhound_agent.Base.{
  ℕ, zero, suc, List, [], ◌∷◌, ◌≡◌, ◌∙◌, sym, subst, Bool, true, false, ◌&&◌, ◌||◌, arith, All,
  All-append, modify, Bytes, Dict, str_eq, str_eq_iff, get_key, Bool-cases, inl, inr,
}
use dhound_agent.Utils.{contains}
use dhound_agent.IpEnricher.{learn_ip}
use dhound_agent.IpEnricher.Handover.{has_name, has_name-learn_ip}
use dhound_agent.IpEnricher.Interleaving.{Listener, waiting, filling, Shared, initial, Step, Steps}

module _ (Told : Bytes → Bytes → Type 0) where
  -- A map in which every name of an address was told.
  abbrev pub OnlyTold : Dict (List Bytes) → Type 0
  OnlyTold m = (ip name : Bytes) → has_name ip name m ≡ true → Told ip name

  abbrev pub IsTold : {s t : Shared} → Step s t → Type 0
  IsTold (Step.use_map dns_name ips pointer l some_ip m) = All (λ ip. Told ip dns_name) ips
  IsTold (Step.make_map dns_name ips l some_ip m) = All (λ ip. Told ip dns_name) ips
  IsTold (Step.fill dns_name ip ips pointer l) = Unit {0}
  IsTold (Step.store dns_name pointer l) = Unit {0}
  IsTold (Step.hand c h) = Unit {0}
  IsTold (Step.clear c pointer h) = Unit {0}

  -- The questions that the listener starts to handle tell their name of each of their addresses.
  abbrev pub AreTold : {s t : Shared} → Steps s t → Type 0
  AreTold Steps.stay = Unit {0}
  AreTold (Steps.later steps step) = AreTold steps × IsTold step

  abbrev StillTold : Listener → Type 0
  StillTold waiting = Unit {0}
  StillTold (filling dns_name ips pointer) = All (λ ip. Told ip dns_name) ips

  abbrev IsSound : Shared → Type 0
  IsSound s = All OnlyTold s.heap × StillTold s.listener

  All-modify :
      (ms : List (Dict (List Bytes))) (i : ℕ) (f : Dict (List Bytes) → Dict (List Bytes))
      → ((m : Dict (List Bytes)) → OnlyTold m → OnlyTold (f m))
      → All OnlyTold ms
      → All OnlyTold (modify ms i f)
  All-modify [] i f k h = tt
  All-modify (m ∷ ms) zero f k h = (k m h.0, h.1)
  All-modify (m ∷ ms) (suc i) f k h = (h.0, All-modify ms i f k h.1)

  learned :
      (dns_name j : Bytes) (m : Dict (List Bytes)) (ip name : Bytes)
      → Told j dns_name
      → has_name ip name m ≡ false
      → has_name ip name (learn_ip dns_name j m) ≡ true
      → Told ip name
  learned dns_name j m ip name told new h =
      let e = sym (has_name-learn_ip ip name dns_name j m) ∙ h in
      let (same_ip, same_name) = matching j ip dns_name name (has_name ip name m) new e in
      subst (λ i. Told i name) same_ip (subst (Told j) same_name told)
    where
      matching :
          (j ip dns_name name : Bytes) (known : Bool)
          → known ≡ false
          → (known || (str_eq j ip && str_eq dns_name name)) ≡ true
          → (j ≡ ip) × (dns_name ≡ name)
      matching j ip dns_name name known k e =
          ground (arith, str_eq_iff j ip, str_eq_iff dns_name name)

  learn_ip-OnlyTold :
      (dns_name j : Bytes) (m : Dict (List Bytes))
      → Told j dns_name
      → OnlyTold m
      → OnlyTold (learn_ip dns_name j m)
  learn_ip-OnlyTold dns_name j m told only ip name h = elim (Bool-cases (has_name ip name m)) [
    | inl old ↦ only ip name old
    | inr new ↦ learned dns_name j m ip name told new h
  ]

  empty-OnlyTold : OnlyTold []
  unfolding contains get_key
  empty-OnlyTold ip name h = absurd cc

  step-IsSound : {s t : Shared} (step : Step s t) → IsTold step → IsSound s → IsSound t
  step-IsSound (Step.use_map n ips p l some_ip m) told (heap, still) = (heap, told)
  step-IsSound {s} (Step.make_map n ips l some_ip m) told (heap, still) =
      (All-append OnlyTold s.heap ([] ∷ []) heap (empty-OnlyTold, tt), told)
  step-IsSound {s} (Step.fill n ip ips p l) told (heap, still) =
      let (first, rest) = subst StillTold l still in
      (All-modify s.heap p (learn_ip n ip) (λ m. learn_ip-OnlyTold n ip m first) heap, rest)
  step-IsSound (Step.store n p l) told (heap, still) = (heap, tt)
  step-IsSound (Step.hand c h) told i = i
  step-IsSound (Step.clear c p h) told i = i

  steps-IsSound : {s t : Shared} (steps : Steps s t) → AreTold steps → IsSound s → IsSound t
  steps-IsSound Steps.stay told i = i
  steps-IsSound (Steps.later steps step) (told, last) i =
      step-IsSound step last (steps-IsSound steps told i)

  -- Whatever the turns of the two goroutines, no name is made up or put to a wrong address: in every
  -- map, given to a container or not, each name of an address was told, if every question that the
  -- listener started on tells its name of all its addresses.
  pub every_name_was_asked :
      {s : Shared} (steps : Steps initial s) → AreTold steps → All OnlyTold s.heap
  every_name_was_asked steps told = (steps-IsSound steps told (tt, tt)).0
