-- ===== src/Pipeline/Finish.antt =====
-- The parts of the agent never wait for one another in a circle.
use dhound_agent.Base.{
  ◌+◌, List, [], ◌∷◌, ◌≡◌, refl, ◌∙◌, ap, sym, none, some, map, append-nil, arith, Option-cases,
  inl, inr,
}
use dhound_agent.Events.{SecurityEventsContainer}
use dhound_agent.Queue.Sending.{late_tick}
use dhound_agent.HttpGateway.{HttpGateway, Json}
use dhound_agent.HttpGateway.Sending.{Outside}
use dhound_agent.SystemState.{Codec, Timed, written}
use dhound_agent.Pipeline.{Agent, take_message, Step, Steps}
use dhound_agent.Pipeline.Order.{as_crawled, held, all_of, steps_order}

at_once : List SecurityEventsContainer → List Timed
at_once cs = map (λ c. record { container = c; time = 0 }) cs

at_once-containers : (cs : List SecurityEventsContainer) → map (λ e. e.container) (at_once cs) ≡ cs
unfolding at_once
at_once-containers [] = refl
at_once-containers (c ∷ cs) = ap (◌∷◌ c) (at_once-containers cs)

module _ (json : Json) (outside : Outside json) (codec : Codec) (gate : HttpGateway) where
  abbrev S : Type 0
  S = Agent json outside codec gate

  append_steps :
      {s t u : S}
      → Steps json outside codec gate s t
      → Steps json outside codec gate t u
      → Steps json outside codec gate s u
  append_steps first Steps.stay = first
  append_steps first (Steps.later more step) = Steps.later (append_steps first more) step

  -- A state that can come after another one, with some property.
  abbrev CanReach : S → (S → Type 0) → Type 0
  CanReach s P = (t : S) × Steps json outside codec gate s t × P t

  abbrev IsSameBehind : S → S → Type 0
  IsSameBehind s t = (t.to_queue ≡ s.to_queue) × (t.crawled ≡ s.crawled) × (t.queue ≡ s.queue)

  clear_state :
      (s : S) → CanReach s (λ t. (t.to_state ≡ none) × (t.to_gate ≡ s.to_gate) × IsSameBehind s t)
  clear_state s = elim (Option-cases s.to_state) [
    | inl e ↦ (s, Steps.stay, (e, refl, (refl, refl, refl)))
    | inr (b, e) ↦
        let sync = Step.synced (at_once b) 0 written (e ∙ ap some (sym (at_once-containers b))) in
        (_, Steps.later Steps.stay sync, (refl, refl, (refl, refl, refl)))
  ]

  clear_gate :
      (s : S) → CanReach s (λ t. (t.to_state ≡ none) × (t.to_gate ≡ none) × IsSameBehind s t)
  clear_gate s =
      let (t, to_t, (state, gate_same, same)) = clear_state s in
      elim (Option-cases t.to_gate) [
        | inl e ↦ (t, to_t, (state, e, same))
        | inr (b, e) ↦
            let post = Step.posted (record { containers = b; now = 0; file_time = 0 }) state e in
            let (v, to_v, (state', gate', same')) = clear_state _ in
            let (a, b, c) = same in
            let (a', b', c') = same' in
            (
              v,
              append_steps (Steps.later to_t post) to_v,
              (state', gate', (a' ∙ a, b' ∙ b, c' ∙ c)),
            )
      ]

  abbrev IsEmptyHanded : S → Type 0
  IsEmptyHanded t = (t.to_state ≡ none) × (t.to_gate ≡ none) × (t.to_queue ≡ none)

  clear_queue : (s : S) → CanReach s (λ t. IsEmptyHanded t × (t.crawled ≡ s.crawled))
  unfolding take_message
  clear_queue s =
      let (t, to_t, (state, gate_none, (queue_same, crawled_same, _))) = clear_gate s in
      elim (Option-cases t.to_queue) [
        | inl e ↦ (t, to_t, ((state, gate_none, e), crawled_same))
        | inr (c, e) ↦
            let (v, to_v, (state', gate', (queue', crawled', _))) = clear_gate _ in
            (
              v,
              append_steps (Steps.later to_t (Step.queued c 0 0 gate_none e)) to_v,
              ((state', gate', queue'), crawled' ∙ crawled_same),
            )
      ]

  clear_crawled :
      (cs : List SecurityEventsContainer) (s : S)
      → s.crawled ≡ cs
      → CanReach s (λ t. IsEmptyHanded t × (t.crawled ≡ []))
  clear_crawled [] s h =
      let (t, to_t, (empty, same)) = clear_queue s in (t, to_t, (empty, same ∙ h))
  clear_crawled (c ∷ rest) s h =
      let (t, to_t, (empty, same)) = clear_queue s in
      let (v, to_v, done) = clear_crawled rest _ refl in
      (v, append_steps (Steps.later to_t (Step.enriched c rest empty.2 (same ∙ h))) to_v, done)

  clear_items : (s : S) → CanReach s (λ t. (held t ≡ []) × (t.crawled ≡ []))
  unfolding take_message
  clear_items s =
      let (t, to_t, (empty, crawled_none)) = clear_crawled s.crawled s refl in
      let late = t.queue.last_run + t.queue.idle_timeout + 1 in
      let (v, to_v, (state, gate_none, (queue_same, crawled_same, same))) = clear_gate _ in
      (
        v,
        append_steps (Steps.later to_t (Step.ticked late 0 empty.1)) to_v,
        (
          rw (state, gate_none, queue_same ∙ empty.2, ap (λ q. q.items) same)
              (append-nil _ ∙ late_tick late 0 t.queue (omega arith)),
          crawled_same ∙ crawled_none,
        ),
      )

  -- From any state whatever, reached or not, the goroutines can take turns so that all that is held
  -- or still to be sent arrives: `Sync` has then taken all containers, in order and but for their
  -- names as they were, and no part holds anything.
  pub can_finish :
      (s : Agent json outside codec gate)
      → (t : Agent json outside codec gate) × Steps json outside codec gate s t
        × (held t ≡ [])
        × (t.crawled ≡ [])
        × (map as_crawled t.synced ≡ all_of s)
  can_finish s =
      let (t, to_t, (none_held, none_left)) = clear_items s in
      (
        t,
        to_t,
        none_held,
        none_left,
        ap (map as_crawled) (rw (none_held, none_left) (simp append-nil))
            ∙ steps_order json outside codec gate to_t,
      )
