-- ===== src/Queue/Critical.antt =====
-- When the queue of queue.go sends its batch, said of the items alone and not of the flag.
use dhound_agent.Base.{
  ℕ, ◌-◌, ◌*◌, ◌<◌, ◌≤◌, List, [], ◌∷◌, ◌++◌, ◌≡◌, refl, ◌⊎◌, inl, inr, ◌↔◌, Bool, true, false,
  Option, none, some, arith, length, any, any-append, or-false, append-nil, Bool-cases,
}
use dhound_agent.Events.{SecurityEventsContainer}
use dhound_agent.Queue.{
  Queue, Message, init, receive, flushes, settle, step, run, to_list, total_events, has_critical,
  second,
}

abbrev pub any_critical : List SecurityEventsContainer → Bool
any_critical = any (λ container. has_critical container.security_events)

-- The constants of `Init`, and the flag that summarises the items.
pub record IsFlagged (q : Queue) : Type 0 where
  pub ten : q.max_items ≡ 10
  pub thousand : q.max_security_events ≡ 1000
  pub twenty : q.idle_timeout_for_critical ≡ 20 * second
  pub flag : q.contains_critical_event ≡ any_critical q.items

pub init-IsFlagged : (idle_timeout now : ℕ) → IsFlagged (init idle_timeout now)
unfolding init
init-IsFlagged idle_timeout now = record { ten = refl; thousand = refl; twenty = refl; flag = refl }

receive-IsFlagged :
    (c : Option SecurityEventsContainer) {q : Queue} → IsFlagged q → IsFlagged (receive c q)
unfolding receive
receive-IsFlagged none h = h
receive-IsFlagged (some c) {q} h = record {
  ten = h.ten;
  thousand = h.thousand;
  twenty = h.twenty;
  flag = ground (
    arith,
    h.flag,
    any-append (λ k. has_critical k.security_events) q.items (c ∷ []),
    or-false (has_critical c.security_events),
  );
}

step-IsFlagged : (m : Message) {q : Queue} → IsFlagged q → IsFlagged (step m q).0
unfolding step settle
step-IsFlagged m {q} h = ground (arith, receive-IsFlagged m.container h)

-- From a queue with the constants of `Init` and a flag that tells exactly whether a critical event
-- waits, every sequence of messages leads to such a queue.
pub run-IsFlagged : (ms : List Message) {q : Queue} → IsFlagged q → IsFlagged (run ms q).0
unfolding run
run-IsFlagged [] h = h
run-IsFlagged (m ∷ ms) h = run-IsFlagged ms (step-IsFlagged m h)

-- The reasons to send `items` at time `now`, when the last batch went at `last`.
abbrev pub IsDue : ℕ → Bool → ℕ → ℕ → List SecurityEventsContainer → Type 0
IsDue idle_timeout first last now items =
    (idle_timeout < now - last)
    ⊎ (10 ≤ length items)
    ⊎ (any_critical items ≡ true) × (20 * second < now - last)
    ⊎ (first ≡ true)
    ⊎ (1000 ≤ total_events items)

flushes_iff :
    (now : ℕ) {q : Queue}
    → IsFlagged q
    → (flushes now q ≡ true) ↔ IsDue q.idle_timeout q.first_run q.last_run now q.items
unfolding flushes
flushes_iff now h = ground arith

-- What handling a container does to a queue with these items.
abbrev pub Settles :
    ℕ
    → ℕ
    → Queue
    → List SecurityEventsContainer
    → Queue × Option (List SecurityEventsContainer)
    → Type 0
Settles now flush_time q items (after, sent) =
    (IsDue q.idle_timeout q.first_run q.last_run now items
      × (sent ≡ some items)
      × (after.items ≡ [])
      × (after.last_run ≡ flush_time)
      × (after.first_run ≡ false))
    ⊎ ((¬ IsDue q.idle_timeout q.first_run q.last_run now items)
        × (sent ≡ none)
        × (after.items ≡ items)
        × (after.last_run ≡ q.last_run)
        × (after.first_run ≡ q.first_run))

settle_lem :
    (now flush_time : ℕ) {q : Queue}
    → IsFlagged q
    → Settles now flush_time q q.items (settle now flush_time q)
unfolding settle
settle_lem now flush_time {q} h = elim (Bool-cases (flushes now q)) [
  | inl e ↦ rw e (inl ((flushes_iff now h).0 e, refl, refl, refl, refl))
  | inr e ↦ rw e (inr (λ due. cc ((flushes_iff now h).1 due), refl, refl, refl, refl))
]

receive-Settles :
    (now flush_time : ℕ) (c : Option SecurityEventsContainer) {q : Queue}
    → IsFlagged q
    → Settles now flush_time q (q.items ++ to_list c) (settle now flush_time (receive c q))
unfolding receive
receive-Settles now flush_time none {q} h = rw (append-nil q.items) (settle_lem now flush_time h)
receive-Settles now flush_time (some c) h = settle_lem now flush_time (receive-IsFlagged (some c) h)

-- For a queue with the constants of `Init` and a flag that tells exactly whether a critical event
-- waits, a message is handled in one of two ways. Either one of the five reasons holds of the
-- items with the new container: the last batch is longer ago than the idle timeout, ten
-- containers, a critical event among them and more than twenty seconds gone, nothing sent yet, or
-- a thousand events. Then all of them are sent as one batch, none is kept, and the queue takes the
-- time of the flush. Or none of the reasons holds, and the container is only added.
pub step_lem :
    (m : Message) {q : Queue}
    → IsFlagged q
    → Settles m.now m.flush_time q (q.items ++ to_list m.container) (step m q)
unfolding step
step_lem m h = receive-Settles m.now m.flush_time m.container h
