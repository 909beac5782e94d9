-- ===== src/Program/Lifecycle.antt =====
-- program.go: `Start` and `Stop`, which go-svc calls once each, in this order, and the goroutine
-- between them, in any interleaving.
pub mod Stopping
mod Examples
use dhound_agent.Base.{ℕ, suc, ◌-◌, ◌≡◌, Bool, true, false}

-- The goroutine of `Start`: before it, in `InternalRun`, before the channel `Quit`, and at its end.
pub data Goroutine : Type 0 where
  not_started in_internal_run waits_for_quit done : Goroutine

-- `Stop`: not called, in `Wg.Wait`, and returned.
pub data Stop : Type 0 where
  not_called waits_for_group returned : Stop

pub record Program : Type 0 where
  pub quit_closed : Bool
  pub wait_group : ℕ
  pub goroutine : Goroutine
  pub stop : Stop

abbrev pub initial : Program
initial = record { quit_closed = false; wait_group = 0; goroutine = not_started; stop = not_called }

pub data Step (p : Program) : Program → Type 0 where
  start :
      p.goroutine ≡ not_started
      → Step p (record p {
        quit_closed = false;
        wait_group = suc p.wait_group;
        goroutine = in_internal_run;
      })
  run_returns : p.goroutine ≡ in_internal_run → Step p (record p { goroutine = waits_for_quit })
  quit :
      p.goroutine ≡ waits_for_quit
      → p.quit_closed ≡ true
      → Step p (record p { wait_group = p.wait_group - 1; goroutine = done })
  call_stop :
      p.stop ≡ not_called
      → ¬ (p.goroutine ≡ not_started)
      → Step p (record p { quit_closed = true; stop = waits_for_group })
  stop_returns : p.stop ≡ waits_for_group → p.wait_group ≡ 0 → Step p (record p { stop = returned })

pub data Steps (p : Program) : Program → Type 0 where
  stay : Steps p p
  later : {q r : Program} → Steps p q → Step q r → Steps p r
