-- ===== src/Queue/Timely.antt =====
-- queue.go: how long the batches of the queue can be apart, given that its timer is served in time.
use dhound_agent.Base.{
  ℕ, ◌+◌, ◌≤◌, List, [], ◌∷◌, ◌++◌, ◌≡◌, Option, none, some, arith, Bool-cases, inl, inr, ◌⊎◌, ap,
  ◌∙◌,
}
use dhound_agent.Events.{SecurityEventsContainer}
use dhound_agent.Queue.{Queue, Message, receive, flushes, flush, settle, step, run}
use dhound_agent.Queue.Sending.{receive_same, flushes_late, settle_flushed, settle_waiting}

-- The time by which the next tick has to be handled, where they are at most `gap` apart.
abbrev pub next_deadline : ℕ → ℕ → Message → ℕ
next_deadline gap deadline m = elim m.container [ none ↦ m.now + gap | some c ↦ deadline ]

-- The messages up to each tick are handled by its deadline, and the clock does not go back: `last` is
-- its last reading.
abbrev pub AreTimely : ℕ → ℕ → ℕ → List Message → Type 0
AreTimely gap deadline last [] = Unit {0}
AreTimely gap deadline last (m ∷ ms) =
    (m.now ≤ deadline)
    × (last ≤ m.now)
    × (m.now ≤ m.flush_time)
    × AreTimely gap (next_deadline gap deadline m) m.flush_time ms

-- The next deadline is not too far behind the last batch.
abbrev IsNear : ℕ → ℕ → ℕ → Queue → Type 0
IsNear gap deadline last q = (deadline ≤ q.last_run + q.idle_timeout + gap) × (q.last_run ≤ last)

settle_timeout :
    (now flush_time : ℕ) (q : Queue) → (settle now flush_time q).0.idle_timeout ≡ q.idle_timeout
unfolding settle flush
settle_timeout now flush_time q = ground arith

-- The queue takes the time of the flush, or the message came within the idle timeout.
settle_batch :
    (now flush_time : ℕ) (q : Queue)
    → let last_run = (settle now flush_time q).0.last_run in
      (last_run ≡ flush_time) ⊎ (last_run ≡ q.last_run) × (now ≤ q.last_run + q.idle_timeout)
unfolding flush
settle_batch now flush_time q = elim (Bool-cases (flushes now q)) [
  | inl e ↦ inl (ap (λ r. r.0.last_run) (settle_flushed now flush_time q e))
  | inr e ↦ inr (
    ap (λ r. r.0.last_run) (settle_waiting now flush_time q e),
    ground (arith, flushes_late now q),
  )
]

settle-IsNear :
    (gap deadline last now flush_time : ℕ) (q : Queue)
    → last ≤ now
    → now ≤ flush_time
    → IsNear gap deadline last q
    → IsNear gap deadline flush_time (settle now flush_time q).0
      × IsNear gap (now + gap) flush_time (settle now flush_time q).0
settle-IsNear gap deadline last now flush_time q h k near = elim (settle_batch now flush_time q) [
  | inl e ↦ omega (arith, settle_timeout now flush_time q)
  | inr e ↦ omega (arith, settle_timeout now flush_time q)
]

step-IsNear :
    (gap deadline last : ℕ) (m : Message) (q : Queue)
    → last ≤ m.now
    → m.now ≤ m.flush_time
    → IsNear gap deadline last q
    → IsNear gap (next_deadline gap deadline m) m.flush_time (step m q).0
unfolding step receive
step-IsNear gap deadline last m q h k near = go m.container
  where
    go :
        (c : Option SecurityEventsContainer)
        → IsNear gap
            (elim c [ none ↦ m.now + gap | some _ ↦ deadline ])
            m.flush_time
            (settle m.now m.flush_time (receive c q)).0
    go none = (settle-IsNear gap deadline last m.now m.flush_time q h k near).1
    go (some c) =
        (settle-IsNear gap deadline last m.now m.flush_time (receive (some c) q) h k near).0

step_timeout : (m : Message) (q : Queue) → (step m q).0.idle_timeout ≡ q.idle_timeout
unfolding step
step_timeout m q =
    settle_timeout m.now m.flush_time (receive m.container q) ∙ (receive_same m.container q).1

-- Ticks are handled at most `gap` apart, and the first of them by `deadline`, which is at most the idle
-- timeout and `gap` behind the last batch; the clock does not go back. Then every message is handled at
-- most the idle timeout and `gap` after the last batch before it.
pub batches_are_near :
    (gap deadline last : ℕ) (ms : List Message) (m : Message) (q : Queue)
    → deadline ≤ q.last_run + q.idle_timeout + gap
    → q.last_run ≤ last
    → AreTimely gap deadline last (ms ++ m ∷ [])
    → m.now ≤ (run ms q).0.last_run + q.idle_timeout + gap
unfolding run
batches_are_near gap deadline last [] m q near behind timely = omega arith
batches_are_near gap deadline last (first ∷ ms) m q near behind timely =
    let (near', behind') = step-IsNear gap deadline last first q timely.1 timely.2 (near, behind) in
    omega (
      arith,
      step_timeout first q,
      batches_are_near gap (next_deadline gap deadline first) first.flush_time ms m (step first q).0
          near' behind' timely.3,
    )
