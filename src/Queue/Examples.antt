-- ===== src/Queue/Examples.antt =====
-- Runs of the queue on small inputs.
use dhound_agent.Base.{
  arith, inl, inr, false, ℕ, ◌*◌, List, [], ◌∷◌, ◌≡◌, refl, none, some, true, codes, All, ◌++◌, ◌+◌,
  ◌≤◌,
}
use dhound_agent.Events.{SecurityEvent, SecurityEventsContainer}
use dhound_agent.Queue.{Queue, Message, init, second, run, step}
use dhound_agent.Queue.Fifo
use dhound_agent.Queue.Limits
use dhound_agent.Queue.Critical
use dhound_agent.Queue.Sending
use dhound_agent.Queue.Timely

abbrev login : SecurityEvent
login = record {
  security_id = 7;
  security_group_id = 0;
  event_time_utc_number = 1_500_000_000;
  message = codes "login";
  ip_address = codes "10.0.0.1";
  additional_fields = [];
  critical = true;
  source = none;
}

abbrev batch : SecurityEventsContainer
batch = record {
  source_id = codes "1_2";
  offset = 40;
  line = 3;
  source = codes "/var/log/auth.log";
  ip_to_service_map = [];
  security_events = login ∷ [];
}

abbrev at : ℕ → SecurityEventsContainer → Message
at s c = record { container = some c; now = s * second; flush_time = s * second }

abbrev tick : ℕ → Message
tick s = record { container = none; now = s * second; flush_time = s * second }

-- The first message is sent at once; a critical event waits for twenty seconds.
abbrev history : List Message
history = at 1 batch ∷ at 2 batch ∷ tick 20 ∷ tick 22 ∷ at 23 batch ∷ []

history_batches : (run history (init (60 * second) 0)).1 ≡ (batch ∷ []) ∷ (batch ∷ []) ∷ []
unfolding run init
history_batches = refl

run-IsWithinLimits_example :
    Limits.IsWithinLimits (run history (init (60 * second) 0)).0
    × All Limits.IsSmall (run history (init (60 * second) 0)).1
run-IsWithinLimits_example =
    Limits.run-IsWithinLimits history (Limits.init-IsWithinLimits (60 * second) 0)

run_order_example :
    Fifo.concat (run history (init (60 * second) 0)).1
      ++ (run history (init (60 * second) 0)).0.items
    ≡ (init (60 * second) 0).items ++ Fifo.received history
run_order_example = Fifo.run_order history (init (60 * second) 0)

-- After the second message a critical event waits; twenty-two seconds are enough.
waiting : Queue
unfolding run init
waiting = (run (at 1 batch ∷ at 2 batch ∷ []) (init (60 * second) 0)).0

waiting-IsFlagged : Critical.IsFlagged waiting
unfolding waiting
waiting-IsFlagged =
    Critical.run-IsFlagged (at 1 batch ∷ at 2 batch ∷ []) (Critical.init-IsFlagged (60 * second) 0)

step_lem_example :
    Critical.Settles
      (22 * second)
      (22 * second)
      waiting
      (waiting.items ++ [])
      (step (tick 22) waiting)
step_lem_example = Critical.step_lem (tick 22) waiting-IsFlagged

waiting_is_sent : (step (tick 22) waiting).1 ≡ some (batch ∷ [])
unfolding waiting step
waiting_is_sent = refl

-- One container waits from second 2 on; the timer's message of second 63 sends it.
abbrev held : Queue
held = record (init (60 * second) (2 * second)) { items = batch ∷ []; first_run = false }

waiting_is_sent_example :
    Sending.StartsWith (Fifo.concat (run (tick 50 ∷ at 63 batch ∷ []) held).1) held.items
unfolding init
waiting_is_sent_example =
    Sending.waiting_is_sent (tick 50 ∷ at 63 batch ∷ []) held (inr (inl (omega arith)))

-- A tick a minute after the start, and the next message before the tick after it.
batches_are_near_example :
    let m = at 130 batch in
    m.now ≤ (run (at 63 batch ∷ tick 64 ∷ []) held).0.last_run + held.idle_timeout + 70 * second
unfolding init
batches_are_near_example =
    Timely.batches_are_near (70 * second) (70 * second) (2 * second) (at 63 batch ∷ tick 64 ∷ [])
      (at 130 batch) held (omega arith) (omega arith) (omega arith)
