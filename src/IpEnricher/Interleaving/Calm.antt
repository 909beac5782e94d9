-- ===== src/IpEnricher/Interleaving/Calm.antt =====
-- ip_enricher_linux.go: the states between rounds, and a round of the listener without another step.
use dhound_agent.Base.{
  ℕ, zero, suc, ◌<◌, List, [], ◌∷◌, ◌++◌, ◌≡◌, refl, ◌≢◌, ap, subst, Option, none, some, true,
  arith, length, modify, get_elem?, Bytes, Dict, ltb, Bool-cases, inl, inr,
}
use dhound_agent.Events.{SecurityEventsContainer}
use dhound_agent.IpEnricher.{
  IpEnricher, Dns, ips_of, learn_ips, entries, learn_question, learn_questions, see_dns,
}
use dhound_agent.IpEnricher.Interleaving.{waiting, ready, Shared, Step, Steps}
use dhound_agent.IpEnricher.Interleaving.Lost.{append_steps, fill_all}

modify-end {ℓ} :
    {A : Type ℓ} (xs : List A) (x : A) (f : A → A)
    → modify (xs ++ x ∷ []) (length xs) f ≡ xs ++ f x ∷ []
modify-end [] x f = refl
modify-end (y ∷ xs) x f = ap (λ l. y ∷ l) (modify-end xs x f)

pub get_elem?-end {ℓ} :
    {A : Type ℓ} (xs : List A) (x : A) → get_elem? (xs ++ x ∷ []) (length xs) ≡ some x
get_elem?-end [] x = refl
get_elem?-end (y ∷ xs) x = get_elem?-end xs x

pub get_elem?-front {ℓ} :
    {A : Type ℓ} (xs ys : List A) (i : ℕ) → i < length xs → get_elem? (xs ++ ys) i ≡ get_elem? xs i
get_elem?-front [] ys i h = absurd (omega (arith, h))
get_elem?-front (x ∷ xs) ys zero h = refl
get_elem?-front (x ∷ xs) ys (suc i) h = get_elem?-front xs ys i (omega (arith, h))

-- Both goroutines are between rounds: the maps that were handed over, and the one that is filled.
abbrev pub calm :
    List (Dict (List Bytes))
    → Option (Dict (List Bytes))
    → List (SecurityEventsContainer × Option ℕ)
    → Shared
calm front none passed = record {
  heap = front;
  ip_to_services_map = none;
  listener = waiting;
  handler = ready;
  passed_on = passed;
}
calm front (some m) passed = record {
  heap = front ++ m ∷ [];
  ip_to_services_map = some (length front);
  listener = waiting;
  handler = ready;
  passed_on = passed;
}

-- The containers with the maps that their pointers lead to.
abbrev pub delivered :
    List (Dict (List Bytes)) → SecurityEventsContainer × Option ℕ → SecurityEventsContainer
delivered heap (c, none) = record c { ip_to_service_map = [] }
delivered heap (c, some p) = record c { ip_to_service_map = entries (get_elem? heap p) }

ips_steps :
    (dns_name : Bytes) (ips : List Bytes) (front : List (Dict (List Bytes)))
    (m : Option (Dict (List Bytes))) (passed : List (SecurityEventsContainer × Option ℕ))
    → ips ≢ []
    → Steps (calm front m passed) (calm front (some (learn_ips dns_name ips (entries m))) passed)
ips_steps dns_name ips front none passed h =
    subst
      (λ heap.
        Steps (calm front none passed) (record (calm front (some []) passed) { heap = heap }))
      (modify-end front [] (learn_ips dns_name ips))
      (Steps.later
        (append_steps (Steps.later Steps.stay (Step.make_map dns_name ips refl h refl))
          (fill_all dns_name ips (length front) _ refl))
        (Step.store dns_name (length front) refl))
ips_steps dns_name ips front (some m) passed h =
    subst
      (λ heap.
        Steps (calm front (some m) passed) (record (calm front (some m) passed) { heap = heap }))
      (modify-end front m (learn_ips dns_name ips))
      (Steps.later
        (append_steps
          (Steps.later Steps.stay (Step.use_map dns_name ips (length front) refl h refl))
          (fill_all dns_name ips (length front) _ refl))
        (Step.store dns_name (length front) refl))

some_ips : (ips : List Bytes) → ltb 0 (length ips) ≡ true → ips ≢ []
some_ips [] h = cc
some_ips (ip ∷ ips) h = λ e. cc

module _ (front : List (Dict (List Bytes)))
    (passed : List (SecurityEventsContainer × Option ℕ)) where
  abbrev At : IpEnricher → Shared
  At e = calm front e.ip_to_services_map passed

  question_steps :
      (answers : List Bytes) (dns_name : Bytes) (e : IpEnricher)
      → Steps (At e) (At (learn_question answers dns_name e))
  unfolding learn_question
  question_steps answers dns_name e = elim (Bool-cases (ltb 0 (length (ips_of answers)))) [
    | inl h ↦
        rw (learn_question, h)
          (ips_steps dns_name (ips_of answers) front e.ip_to_services_map passed
            (some_ips (ips_of answers) h))
    | inr h ↦ rw (learn_question, h) Steps.stay
  ]

  questions_steps :
      (answers questions : List Bytes) (e : IpEnricher)
      → Steps (At e) (At (learn_questions answers questions e))
  unfolding learn_questions
  questions_steps answers [] e = Steps.stay
  questions_steps answers (q ∷ questions) e =
      append_steps (question_steps answers q e)
        (questions_steps answers questions (learn_question answers q e))

  pub dns_steps : (dns : Dns) (e : IpEnricher) → Steps (At e) (At (see_dns dns e))
  unfolding see_dns
  dns_steps dns e = elim (Bool-cases (ltb 0 dns.an_count)) [
    | inl h ↦ rw (see_dns, h) (questions_steps dns.answers dns.questions e)
    | inr h ↦ rw (see_dns, h) Steps.stay
  ]
