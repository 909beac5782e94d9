-- ===== src/Program/Lifecycle/Examples.antt =====
-- A stop that comes while the agent still starts.
use dhound_agent.Base.{◌≡◌, refl, true}
use dhound_agent.Program.Lifecycle.{
  waits_for_quit, done, waits_for_group, returned, Program, initial, Step, Steps,
}
use dhound_agent.Program.Lifecycle.Stopping.{stop_waits}

abbrev early_stop : Program
early_stop = record {
  quit_closed = true;
  wait_group = 1;
  goroutine = waits_for_quit;
  stop = waits_for_group;
}

early : Steps initial early_stop
early =
    Steps.later
      (Steps.later (Steps.later Steps.stay (Step.start refl))
        (Step.call_stop refl (λ e. absurd (cc e))))
      (Step.run_returns refl)

stop_waits_example :
    (early_stop.stop ≡ returned → early_stop.goroutine ≡ done)
    × (early_stop.stop ≡ waits_for_group
        → early_stop.goroutine ≡ waits_for_quit
        → (q : Program) × Steps early_stop q × (q.stop ≡ returned))
stop_waits_example = stop_waits early
