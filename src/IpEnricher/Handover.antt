-- ===== src/IpEnricher/Handover.antt =====
-- ip_enricher.go: which names the containers carry where the two goroutines do not overlap. In the code
-- nothing keeps them apart: Interleaving has what may then happen.
use dhound_agent.Base.{
  List, [], ◌∷◌, ◌++◌, ◌≡◌, refl, ◌∙◌, ap, sym, subst, Bool, true, false, not, ◌&&◌, ◌||◌, arith,
  ltb, length, any, any-append, or-false, Bool-cases, inl, inr, Bytes, str_eq, str_eq_iff, Dict,
  get_key, put, get_key-put, value_of,
}
use dhound_agent.Events.{SecurityEventsContainer}
use dhound_agent.Utils.{contains}
use dhound_agent.IpEnricher.{
  IpEnricher, Dns, no_address, ips_of, learn_ip, learn_ips, entries, learn_question,
  learn_questions, see_dns, process_events_container, listen, enrich,
}

contains-snoc :
    (xs : List Bytes) (y e : Bytes) → contains (xs ++ y ∷ []) e ≡ contains xs e || str_eq y e
unfolding contains
contains-snoc [] y e = ground arith
contains-snoc (x ∷ xs) y e = ground (arith, contains-snoc xs y e)

-- Whether a map has a name for an address.
abbrev pub has_name : Bytes → Bytes → Dict (List Bytes) → Bool
has_name ip name m = contains (value_of [] ip m) name

new_name :
    (ip name dns_name j : Bytes) (m : Dict (List Bytes))
    → has_name ip name (put j (value_of [] j m ++ dns_name ∷ []) m)
      ≡ (has_name ip name m || (str_eq j ip && str_eq dns_name name))
new_name ip name dns_name j m =
    rw (get_key-put j ip (value_of [] j m ++ dns_name ∷ []) m, value_of)
      (elim (Bool-cases (str_eq j ip)) [
        | inl same ↦
            rw (same, (str_eq_iff j ip).0 same) (contains-snoc (value_of [] ip m) dns_name name)
        | inr other ↦ rw other (sym (or-false (has_name ip name m)))
      ])

pub has_name-learn_ip :
    (ip name dns_name j : Bytes) (m : Dict (List Bytes))
    → has_name ip name (learn_ip dns_name j m)
      ≡ (has_name ip name m || (str_eq j ip && str_eq dns_name name))
unfolding learn_ip
has_name-learn_ip ip name dns_name j m = elim (Bool-cases (contains (value_of [] j m) dns_name)) [
  | inl known ↦ rw known (ground (arith, str_eq_iff j ip, str_eq_iff dns_name name))
  | inr e ↦ rw e (new_name ip name dns_name j m)
]

has_name-learn_ips :
    (ip name dns_name : Bytes) (ips : List Bytes) (m : Dict (List Bytes))
    → has_name ip name (learn_ips dns_name ips m)
      ≡ (has_name ip name m || (contains ips ip && str_eq dns_name name))
unfolding learn_ips contains
has_name-learn_ips ip name dns_name [] m = ground arith
has_name-learn_ips ip name dns_name (j ∷ ips) m = ground (
  arith,
  has_name-learn_ips ip name dns_name ips (learn_ip dns_name j m),
  has_name-learn_ip ip name dns_name j m,
)

contains-ips_of :
    (answers : List Bytes) (ip : Bytes)
    → contains (ips_of answers) ip ≡ (contains answers ip && not (str_eq ip no_address))
unfolding ips_of contains
contains-ips_of [] ip = refl
contains-ips_of (a ∷ answers) ip = ground (
  arith,
  contains-ips_of answers ip,
  str_eq_iff a ip,
  str_eq_iff a no_address,
  str_eq_iff ip no_address,
)

-- Whether a layer tells that an address has a name.
abbrev pub tells : Bytes → Bytes → Dns → Bool
tells ip name dns =
    ltb 0 dns.an_count
    && (contains dns.questions name && (contains dns.answers ip && not (str_eq ip no_address)))

no_ips_lem :
    (answers : List Bytes) (ip : Bytes)
    → ltb 0 (length (ips_of answers)) ≡ false
    → (contains answers ip && not (str_eq ip no_address)) ≡ false
unfolding contains
no_ips_lem answers ip h = sym (contains-ips_of answers ip) ∙ empty (ips_of answers) h
  where
    empty : (ips : List Bytes) → ltb 0 (length ips) ≡ false → contains ips ip ≡ false
    empty [] h = refl
    empty (i ∷ ips) h = ground arith

has_name-learn_question :
    (ip name dns_name : Bytes) (answers : List Bytes) (e : IpEnricher)
    → has_name ip name (entries (learn_question answers dns_name e).ip_to_services_map) ≡ (
        has_name ip name (entries e.ip_to_services_map)
        || (str_eq dns_name name && (contains answers ip && not (str_eq ip no_address))))
unfolding learn_question
has_name-learn_question ip name dns_name answers e =
    elim (Bool-cases (ltb 0 (length (ips_of answers)))) [
      | inl some_ips ↦ rw some_ips (
          has_name-learn_ips ip name dns_name (ips_of answers) (entries e.ip_to_services_map)
          ∙ ground (arith, contains-ips_of answers ip))
      | inr no_ips ↦ rw no_ips (ground (arith, no_ips_lem answers ip no_ips))
    ]

has_name-learn_questions :
    (ip name : Bytes) (answers questions : List Bytes) (e : IpEnricher)
    → has_name ip name (entries (learn_questions answers questions e).ip_to_services_map) ≡ (
        has_name ip name (entries e.ip_to_services_map)
        || (contains questions name && (contains answers ip && not (str_eq ip no_address))))
unfolding learn_questions contains
has_name-learn_questions ip name answers [] e = ground arith
has_name-learn_questions ip name answers (q ∷ questions) e = ground (
  arith,
  has_name-learn_questions ip name answers questions (learn_question answers q e),
  has_name-learn_question ip name q answers e,
)

has_name-see_dns :
    (ip name : Bytes) (dns : Dns) (e : IpEnricher)
    → has_name ip name (entries (see_dns dns e).ip_to_services_map)
      ≡ (has_name ip name (entries e.ip_to_services_map) || tells ip name dns)
unfolding see_dns learn_questions learn_question
has_name-see_dns ip name dns e =
    ground (arith, has_name-learn_questions ip name dns.answers dns.questions e)

-- What one goroutine does while the other rests.
pub data Turn : Type 0 where
  packet : Dns → Turn
  container : SecurityEventsContainer → Turn

-- The containers that go to the next channel, where each turn ends before the next one begins.
unfoldable pub run_in_turns : List Turn → IpEnricher → List SecurityEventsContainer
unfolding listen enrich
run_in_turns [] enricher = []
run_in_turns (packet dns ∷ rest) enricher = run_in_turns rest (listen dns enricher)
run_in_turns (container c ∷ rest) enricher =
    let (enriched, after) = enrich c enricher in enriched ∷ run_in_turns rest after

-- The containers of a sequence of turns, each with the layers seen since the one before.
abbrev pub told : List Dns → List Turn → List (SecurityEventsContainer × List Dns)
told seen [] = []
told seen (packet dns ∷ rest) = told (seen ++ dns ∷ []) rest
told seen (container c ∷ rest) = (c, seen) ∷ told [] rest

-- The enricher holds exactly the names that these layers tell.
abbrev pub Knows : List Dns → IpEnricher → Type 0
Knows seen e =
    (ip name : Bytes) → has_name ip name (entries e.ip_to_services_map) ≡ any (tells ip name) seen

-- A container as it came in, but with exactly the names that these layers tell.
abbrev pub IsEnriched : SecurityEventsContainer × List Dns → SecurityEventsContainer → Type 0
IsEnriched (c, seen) out =
    (out ≡ record c { ip_to_service_map = out.ip_to_service_map })
    × ((ip name : Bytes) → has_name ip name out.ip_to_service_map ≡ any (tells ip name) seen)

abbrev pub AreEnriched :
    List (SecurityEventsContainer × List Dns) → List SecurityEventsContainer → Type 0
AreEnriched [] [] = Unit {0}
AreEnriched [] (out ∷ outs) = ⊥
AreEnriched (c ∷ cs) [] = ⊥
AreEnriched (c ∷ cs) (out ∷ outs) = IsEnriched c out × AreEnriched cs outs

pub see_dns-track :
    (dns : Dns) (e : IpEnricher) → (see_dns dns e).track_dns_traffic ≡ e.track_dns_traffic
unfolding see_dns learn_questions learn_question
see_dns-track dns e = elim (Bool-cases (ltb 0 dns.an_count)) [
  | inl answered ↦ rw answered (questions_track dns.questions e)
  | inr empty ↦ rw empty refl
]
  where
    questions_track :
        (questions : List Bytes) (e : IpEnricher)
        → (learn_questions dns.answers questions e).track_dns_traffic ≡ e.track_dns_traffic
    questions_track [] e = refl
    questions_track (q ∷ questions) e =
        questions_track questions (learn_question dns.answers q e) ∙ ground arith

-- What the enricher does to a container leaves all but its names.
pub enrich_same :
    (c : SecurityEventsContainer) (e : IpEnricher)
    → (enrich c e).0 ≡ record c { ip_to_service_map = (enrich c e).0.ip_to_service_map }
unfolding enrich process_events_container
enrich_same c e = ground arith

pub run_in_turns-nil : (e : IpEnricher) → run_in_turns [] e ≡ []
unfolding run_in_turns
run_in_turns-nil e = refl

pub run_in_turns-packet :
    (dns : Dns) (rest : List Turn) (e : IpEnricher)
    → e.track_dns_traffic ≡ true
    → run_in_turns (packet dns ∷ rest) e ≡ run_in_turns rest (see_dns dns e)
unfolding run_in_turns listen
run_in_turns-packet dns rest e h = simp h

pub run_in_turns-container :
    (c : SecurityEventsContainer) (rest : List Turn) (e : IpEnricher)
    → e.track_dns_traffic ≡ true
    → run_in_turns (container c ∷ rest) e
      ≡ (process_events_container c e).0 ∷ run_in_turns rest (process_events_container c e).1
unfolding run_in_turns enrich
run_in_turns-container c rest e h = simp h

one_more :
    (p : Dns → Bool) (seen : List Dns) (dns : Dns)
    → (any p seen || p dns) ≡ any p (seen ++ dns ∷ [])
one_more p seen dns = ground (arith, any-append p seen (dns ∷ []), or-false (p dns))

-- Where the two goroutines do not overlap, so that each DNS layer and each container is handled as a
-- whole: if DNS traffic is tracked and the enricher holds exactly what the layers `seen` tell, the
-- containers leave in their order and otherwise unchanged. An address has a name in the map of a
-- container exactly if some DNS layer since the container before, or for the first container of
-- `seen` or since the start, with a positive count of answers, has that name among its questions
-- and that address, unless it prints as none, among its answers.
pub run_in_turns-AreEnriched :
    (turns : List Turn) (seen : List Dns) (e : IpEnricher)
    → e.track_dns_traffic ≡ true
    → Knows seen e
    → AreEnriched (told seen turns) (run_in_turns turns e)
unfolding process_events_container contains get_key
run_in_turns-AreEnriched [] seen e h k = rw (run_in_turns-nil e) tt
run_in_turns-AreEnriched (packet dns ∷ rest) seen e h k =
    subst (AreEnriched (told (seen ++ dns ∷ []) rest)) (sym (run_in_turns-packet dns rest e h)) (
      run_in_turns-AreEnriched rest (seen ++ dns ∷ []) (see_dns dns e) (see_dns-track dns e ∙ h)
        (λ ip name.
          has_name-see_dns ip name dns e
          ∙ ap (λ b. b || tells ip name dns) (k ip name)
          ∙ one_more (tells ip name) seen dns))
run_in_turns-AreEnriched (container c ∷ rest) seen e h k =
    subst (AreEnriched ((c, seen) ∷ told [] rest)) (sym (run_in_turns-container c rest e h)) (
      (refl, k),
      run_in_turns-AreEnriched rest [] (process_events_container c e).1 h (λ ip name. refl),
    )
