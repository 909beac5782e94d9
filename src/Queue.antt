-- ===== src/Queue.antt =====
-- queue.go. The goroutine's loop body is `step`; its two readings of the clock, for the tests and in
-- `Flush`, are arguments. Times and durations are nanoseconds of the monotonic clock.
pub mod Fifo
pub mod Limits
pub mod Critical
pub mod Sending
pub mod Timely
mod Examples
use dhound_agent.Base.{
  ℕ, ◌+◌, ◌-◌, ◌*◌, List, [], ◌∷◌, ◌++◌, Option, none, some, Bool, true, false, ◌&&◌, ltb, leb,
  if◌then◌else◌, length, any,
}
use dhound_agent.Events.{SecurityEvent, SecurityEventsContainer}

pub record Queue : Type 0 where
  pub items : List SecurityEventsContainer
  pub last_run : ℕ
  pub max_items : ℕ
  pub max_security_events : ℕ
  pub contains_critical_event : Bool
  pub idle_timeout : ℕ
  pub idle_timeout_for_critical : ℕ
  pub first_run : Bool

abbrev pub second : ℕ
second = 1_000_000_000

unfoldable pub init : ℕ → ℕ → Queue
init idle_timeout now = record {
  items = [];
  last_run = now;
  max_items = 10;
  max_security_events = 1000;
  contains_critical_event = false;
  idle_timeout = idle_timeout;
  idle_timeout_for_critical = 20 * second;
  first_run = true;
}

-- The new queue, and the batch that goes to the next channel.
pub flush : ℕ → Queue → Queue × List SecurityEventsContainer
flush now q = (
  record q { items = []; contains_critical_event = false; last_run = now; first_run = false },
  q.items,
)

abbrev pub has_critical : List SecurityEvent → Bool
has_critical = any (λ event. event.critical)

-- The first half of the loop body; `none` is the nil that the timers push.
pub receive : Option SecurityEventsContainer → Queue → Queue
receive none q = q
receive (some container) q = record q {
  items = q.items ++ container ∷ [];
  contains_critical_event =
      if q.contains_critical_event then true else has_critical container.security_events;
}

abbrev pub total_events : List SecurityEventsContainer → ℕ
total_events [] = 0
total_events (container ∷ rest) = length container.security_events + total_events rest

abbrev pub elapsed : ℕ → Queue → ℕ
elapsed now q = now - q.last_run

-- The cascade of tests of the second half.
pub flushes : ℕ → Queue → Bool
flushes now q =
    if ltb q.idle_timeout (elapsed now q)
    then true
    else if leb q.max_items (length q.items)
    then true
    else if q.contains_critical_event && ltb q.idle_timeout_for_critical (elapsed now q)
    then true
    else if q.first_run
    then true
    else leb q.max_security_events (total_events q.items)

pub settle : ℕ → ℕ → Queue → Queue × Option (List SecurityEventsContainer)
unfolding flushes flush
settle now flush_time q =
    if flushes now q then ((flush flush_time q).0, some (flush flush_time q).1) else (q, none)

-- One message from the input channel, and the clock's readings while it is handled.
pub record Message : Type 0 where
  pub container : Option SecurityEventsContainer
  pub now : ℕ
  pub flush_time : ℕ

unfoldable pub step : Message → Queue → Queue × Option (List SecurityEventsContainer)
unfolding settle receive
step m q = settle m.now m.flush_time (receive m.container q)

abbrev pub to_list {ℓ} : {A : Type ℓ} → Option A → List A
to_list none = []
to_list (some a) = a ∷ []

-- The queue after a sequence of messages, and the batches sent, in order.
pub run : List Message → Queue → Queue × List (List SecurityEventsContainer)
unfolding step
run [] q = (q, [])
run (m ∷ ms) q =
    let (q', sent) = step m q in let (q'', more) = run ms q' in (q'', to_list sent ++ more)
