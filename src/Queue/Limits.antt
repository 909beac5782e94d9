-- ===== src/Queue/Limits.antt =====
-- How much the queue of queue.go holds between two messages, and how much it sends at once.
use dhound_agent.Base.{
  ℕ, ◌<◌, ◌≤◌, List, [], ◌∷◌, ◌≡◌, Option, none, some, arith, length, length-append, All,
  All-append,
}
use dhound_agent.Events.{SecurityEventsContainer}
use dhound_agent.Queue.{Queue, Message, init, receive, settle, step, run, to_list, total_events}

pub record IsWithinLimits (q : Queue) : Type 0 where
  pub ten : q.max_items ≡ 10
  pub thousand : q.max_security_events ≡ 1000
  pub few_items : length q.items < 10
  pub few_events : total_events q.items < 1000

pub init-IsWithinLimits : (idle_timeout now : ℕ) → IsWithinLimits (init idle_timeout now)
unfolding init
init-IsWithinLimits idle_timeout now = omega arith

step-IsWithinLimits : (m : Message) {q : Queue} → IsWithinLimits q → IsWithinLimits (step m q).0
unfolding step settle receive
step-IsWithinLimits m h = ground arith

-- A batch of at most ten containers.
abbrev pub IsSmall : List SecurityEventsContainer → Type 0
IsSmall batch = length batch ≤ 10

settle-IsSmall :
    (now flush_time : ℕ) (q : Queue)
    → length q.items ≤ 10
    → All IsSmall (to_list (settle now flush_time q).1)
unfolding settle
settle-IsSmall now flush_time q h = ground arith

length-receive :
    (c : Option SecurityEventsContainer) {q : Queue}
    → IsWithinLimits q
    → length (receive c q).items ≤ 10
unfolding receive
length-receive none h = omega arith
length-receive (some c) {q} h = omega (arith, length-append q.items (c ∷ []))

step-IsSmall : (m : Message) {q : Queue} → IsWithinLimits q → All IsSmall (to_list (step m q).1)
unfolding step
step-IsSmall m {q} h = settle-IsSmall m.now m.flush_time _ (length-receive m.container h)

-- From a queue within the limits, every sequence of messages leaves fewer than ten containers and
-- fewer than a thousand events waiting, and sends no batch of more than ten containers.
pub run-IsWithinLimits :
    (ms : List Message) {q : Queue}
    → IsWithinLimits q
    → IsWithinLimits (run ms q).0 × All IsSmall (run ms q).1
unfolding run
run-IsWithinLimits [] h = (h, tt)
run-IsWithinLimits (m ∷ ms) {q} h =
    let (within, small) = run-IsWithinLimits ms (step-IsWithinLimits m h) in
    (within, All-append IsSmall (to_list (step m q).1) _ (step-IsSmall m h) small)
