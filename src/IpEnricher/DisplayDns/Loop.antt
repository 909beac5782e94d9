-- ===== src/IpEnricher/DisplayDns/Loop.antt =====
-- ip_enricher_windows.go and ip_enricher.go: the loop of `_InternalSync`, and `Init` and `Sync` on it.
use dhound_agent.Base.{
  List, [], ◌∷◌, ◌++◌, ◌≡◌, refl, ◌≢◌, ◌∙◌, ap, sym, append-nil, Option, none, some, Bool, true,
  false, if◌then◌else◌, Bytes, All,
}
use dhound_agent.Regexp.{Regexp}
use dhound_agent.IpEnricher.{IpEnricher}
use dhound_agent.IpEnricher.DisplayDns.{internal_sync, names_of_output}

-- One round: the command is not found, it fails, or it prints something.
pub data Attempt : Type 0 where
  no_command : Attempt
  failed : Attempt
  printed : Bytes → Attempt

if_tracked {ℓ} : {A : Type ℓ} {b : Bool} → b ≡ true → (x y : A) → (if b then x else y) ≡ x
if_tracked h x y = rw h refl

module _ (regexp : Regexp) (to_lower : Bytes → Bytes)
    (a_records_regex cname_records_regex delimiter_regex internal_ip_regex : regexp.Regex) where
  one_round : Option Bytes → IpEnricher → IpEnricher
  one_round output enricher =
      internal_sync regexp to_lower a_records_regex cname_records_regex delimiter_regex
        internal_ip_regex output enricher

  pub names : Bytes → IpEnricher → IpEnricher
  names output enricher = record enricher {
    ip_to_services_map = some (
        names_of_output regexp to_lower a_records_regex cname_records_regex delimiter_regex
          internal_ip_regex output);
  }

  -- The rounds of `_InternalSync`, and whether it has returned after them.
  unfoldable pub sync_rounds : Bool → List Attempt → IpEnricher → IpEnricher × Bool
  unfolding one_round
  sync_rounds run_once [] enricher = (enricher, false)
  sync_rounds run_once (no_command ∷ rest) enricher = (enricher, true)
  sync_rounds run_once (failed ∷ rest) enricher =
      sync_rounds run_once rest (one_round none enricher)
  sync_rounds run_once (printed output ∷ rest) enricher =
      let more = sync_rounds run_once rest (one_round (some output) enricher) in
      if run_once then (one_round (some output) enricher, true) else more

  -- `Init`, with the rounds that it waits for.
  pub init : List Attempt → IpEnricher → IpEnricher × Bool
  unfolding sync_rounds
  init attempts enricher =
      if enricher.track_dns_traffic then sync_rounds true attempts enricher else (enricher, true)

  -- `Sync`, in its goroutine.
  pub run_sync : List Attempt → IpEnricher → IpEnricher × Bool
  unfolding sync_rounds
  run_sync attempts enricher =
      if enricher.track_dns_traffic then sync_rounds false attempts enricher else (enricher, true)

  rounds_failed :
      (run_once : Bool) (front rest : List Attempt) (enricher : IpEnricher)
      → All (λ a. a ≡ failed) front
      → sync_rounds run_once (front ++ rest) enricher ≡ sync_rounds run_once rest enricher
  unfolding sync_rounds one_round internal_sync
  rounds_failed run_once [] rest enricher h = refl
  rounds_failed run_once (a ∷ front) rest enricher h =
      rw h.0 (rounds_failed run_once front rest enricher h.1)

  -- Where DNS traffic is tracked, `Init`, on which the start of the agent waits, returns after no
  -- number of failed rounds, and then leaves all as it was; the first round that prints something
  -- ends it, with the names of that output.
  pub init_waits :
      (front rest : List Attempt) (output : Bytes) (enricher : IpEnricher)
      → enricher.track_dns_traffic ≡ true
      → All (λ a. a ≡ failed) front
      → (init front enricher ≡ (enricher, false))
        × (init (front ++ printed output ∷ rest) enricher ≡ (names output enricher, true))
  unfolding init sync_rounds one_round internal_sync names
  init_waits front rest output enricher track h = (
    if_tracked track _ (enricher, true)
        ∙ ap (λ l. sync_rounds true l enricher) (sym (append-nil front))
        ∙ rounds_failed true front [] enricher h,
    if_tracked track _ (enricher, true)
        ∙ rounds_failed true front (printed output ∷ rest) enricher h,
  )

  abbrev pub IsFound : Attempt → Type 0
  IsFound a = a ≢ no_command

  -- Where DNS traffic is tracked and the command is always found, the rounds of `Sync` never end, and
  -- what they leave are the names of the last output alone: those of all outputs before it are gone.
  pub last_output_counts :
      (front back : List Attempt) (output : Bytes) (enricher : IpEnricher)
      → enricher.track_dns_traffic ≡ true
      → All IsFound front
      → All (λ a. a ≡ failed) back
      → run_sync (front ++ printed output ∷ back) enricher ≡ (names output enricher, false)
  unfolding run_sync sync_rounds one_round internal_sync names
  last_output_counts front back output enricher track h k =
      if_tracked track _ (enricher, true) ∙ go front enricher h
    where
      go :
          (front : List Attempt) (e : IpEnricher)
          → All IsFound front
          → sync_rounds false (front ++ printed output ∷ back) e ≡ (names output e, false)
      go [] e h =
          ap (λ l. sync_rounds false l (names output e)) (sym (append-nil back))
          ∙ rounds_failed false back [] (names output e) k
      go (no_command ∷ front) e h = absurd (h.0 refl)
      go (failed ∷ front) e h = go front e h.1
      go (printed o ∷ front) e h = go front (names o e) h.1
