-- ===== src/Program/Lifecycle/Stopping.antt =====
-- program.go: what `Stop` waits for.
use dhound_agent.Base.{ℕ, suc, ◌-◌, ◌≡◌, refl, ◌∙◌, ap, sym, subst, Bool, true, false, arith}
use dhound_agent.Program.Lifecycle.{
  Goroutine, not_started, in_internal_run, waits_for_quit, done, Stop, not_called, waits_for_group,
  returned, Program, initial, Step, Steps,
}

-- What the group counts for the goroutine.
abbrev counted : Goroutine → ℕ
counted not_started = 0
counted in_internal_run = 1
counted waits_for_quit = 1
counted done = 0

-- Which `Stop` goes with a goroutine, and with the channel.
abbrev Fits : Goroutine → Stop → Bool → Type 0
Fits g not_called closed = Unit {0}
Fits not_started waits_for_group closed = ⊥
Fits in_internal_run waits_for_group closed = closed ≡ true
Fits waits_for_quit waits_for_group closed = closed ≡ true
Fits done waits_for_group closed = closed ≡ true
Fits done returned closed = Unit {0}
Fits not_started returned closed = ⊥
Fits in_internal_run returned closed = ⊥
Fits waits_for_quit returned closed = ⊥

abbrev IsConsistent : Program → Type 0
IsConsistent p = (p.wait_group ≡ counted p.goroutine) × Fits p.goroutine p.stop p.quit_closed

Fits-start : (s : Stop) (c : Bool) → Fits not_started s c → Fits in_internal_run s false
Fits-start not_called c f = tt
Fits-start waits_for_group c f = absurd f
Fits-start returned c f = absurd f

Fits-run_returns : (s : Stop) (c : Bool) → Fits in_internal_run s c → Fits waits_for_quit s c
Fits-run_returns not_called c f = tt
Fits-run_returns waits_for_group c f = f
Fits-run_returns returned c f = absurd f

Fits-quit : (s : Stop) (c : Bool) → Fits waits_for_quit s c → Fits done s c
Fits-quit not_called c f = tt
Fits-quit waits_for_group c f = f
Fits-quit returned c f = absurd f

Fits-call_stop : (g : Goroutine) → ¬ (g ≡ not_started) → Fits g waits_for_group true
Fits-call_stop not_started h = absurd (h refl)
Fits-call_stop in_internal_run h = refl
Fits-call_stop waits_for_quit h = refl
Fits-call_stop done h = refl

Fits-stop_returns :
    (g : Goroutine) (c : Bool) → counted g ≡ 0 → Fits g waits_for_group c → Fits g returned c
Fits-stop_returns not_started c n f = absurd f
Fits-stop_returns in_internal_run c n f = absurd (omega arith)
Fits-stop_returns waits_for_quit c n f = absurd (omega arith)
Fits-stop_returns done c n f = tt

step-IsConsistent : {p q : Program} → Step p q → IsConsistent p → IsConsistent q
step-IsConsistent {p} (Step.start h) (n, f) =
    (ap suc (n ∙ ap counted h), Fits-start p.stop p.quit_closed (rw (← h) f))
step-IsConsistent {p} (Step.run_returns h) (n, f) =
    (n ∙ ap counted h, Fits-run_returns p.stop p.quit_closed (rw (← h) f))
step-IsConsistent {p} (Step.quit h k) (n, f) =
    (ap (λ m. m - 1) (n ∙ ap counted h), Fits-quit p.stop p.quit_closed (rw (← h) f))
step-IsConsistent {p} (Step.call_stop h k) (n, f) = (n, Fits-call_stop p.goroutine k)
step-IsConsistent {p} (Step.stop_returns h k) (n, f) =
    (n, Fits-stop_returns p.goroutine p.quit_closed (sym n ∙ k) (rw (← h) f))

steps-IsConsistent : {p q : Program} → Steps p q → IsConsistent p → IsConsistent q
steps-IsConsistent Steps.stay i = i
steps-IsConsistent (Steps.later steps step) i = step-IsConsistent step (steps-IsConsistent steps i)

returned_done : (g : Goroutine) (c : Bool) → Fits g returned c → g ≡ done
returned_done not_started c f = absurd f
returned_done in_internal_run c f = absurd f
returned_done waits_for_quit c f = absurd f
returned_done done c f = refl

waiting_closed :
    (p : Program)
    → p.stop ≡ waits_for_group
    → p.goroutine ≡ waits_for_quit
    → Fits p.goroutine p.stop p.quit_closed
    → p.quit_closed ≡ true
waiting_closed p h k f =
    subst (λ s. Fits waits_for_quit s p.quit_closed) h
      (subst (λ g. Fits g p.stop p.quit_closed) k f)

-- In every interleaving, once `Stop` has returned the goroutine has ended, so that it does not
-- return while `InternalRun` is still busy; and once `InternalRun` has returned, a `Stop` that was
-- called can return.
pub stop_waits :
    {p : Program}
    → Steps initial p
    → (p.stop ≡ returned → p.goroutine ≡ done)
      × (p.stop ≡ waits_for_group
          → p.goroutine ≡ waits_for_quit
          → (q : Program) × Steps p q × (q.stop ≡ returned))
stop_waits {p} steps =
    let (n, f) = steps-IsConsistent steps (refl, tt) in
    (
      (λ h. returned_done p.goroutine p.quit_closed (rw (← h) f)),
      λ h k. (
        _,
        Steps.later (Steps.later Steps.stay (Step.quit k (waiting_closed p h k f)))
            (Step.stop_returns h (ap (λ m. m - 1) (n ∙ ap counted k))),
        refl,
      ),
    )
