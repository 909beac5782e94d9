-- ===== src/Queue/Sending.antt =====
-- queue.go: what waits is sent in the end.
use dhound_agent.Base.{
  ℕ, ◌+◌, ◌<◌, List, [], ◌∷◌, ◌++◌, ◌≡◌, refl, ◌∙◌, ap, sym, Option, none, some, true, false, arith,
  Bool-cases, inl, inr, ◌⊎◌, append-nil, append_assoc,
}
use dhound_agent.Events.{SecurityEventsContainer}
use dhound_agent.Queue.{Queue, Message, receive, flushes, flush, settle, step, run, to_list}
use dhound_agent.Queue.Fifo.{concat}

-- Some message comes later than the idle timeout after `last`.
abbrev pub ComesAfter : ℕ → ℕ → List Message → Type 0
ComesAfter idle_timeout last [] = ⊥
ComesAfter idle_timeout last (m ∷ ms) =
    (last + idle_timeout < m.now) ⊎ ComesAfter idle_timeout last ms

-- A list starts with another one.
abbrev pub StartsWith {ℓ} : {A : Type ℓ} → List A → List A → Type ℓ
StartsWith {A} xs ys = (rest : List A) × (xs ≡ ys ++ rest)

pub settle_flushed :
    (now flush_time : ℕ) (q : Queue)
    → flushes now q ≡ true
    → settle now flush_time q ≡ ((flush flush_time q).0, some q.items)
unfolding settle flush
settle_flushed now flush_time q h = rw h refl

pub settle_waiting :
    (now flush_time : ℕ) (q : Queue) → flushes now q ≡ false → settle now flush_time q ≡ (q, none)
unfolding settle
settle_waiting now flush_time q h = rw h refl

pub receive_same :
    (c : Option SecurityEventsContainer) (q : Queue)
    → ((receive c q).last_run ≡ q.last_run)
      × ((receive c q).idle_timeout ≡ q.idle_timeout)
      × ((receive c q).items ≡ q.items ++ to_list c)
unfolding receive
receive_same none q = (refl, refl, sym (append-nil q.items))
receive_same (some c) q = (refl, refl, refl)

pub flushes_late : (now : ℕ) (q : Queue) → q.last_run + q.idle_timeout < now → flushes now q ≡ true
unfolding flushes
flushes_late now q h = ground arith

still_ComesAfter :
    (m : Message) (ms : List Message) (q : Queue)
    → flushes m.now q ≡ false
    → ComesAfter q.idle_timeout q.last_run (m ∷ ms)
    → ComesAfter q.idle_timeout q.last_run ms
still_ComesAfter m ms q waits (inl late) = ground (arith, flushes_late m.now q late)
still_ComesAfter m ms q waits (inr later) = later

same_ComesAfter :
    (ms : List Message) (q q' : Queue)
    → q'.last_run ≡ q.last_run
    → q'.idle_timeout ≡ q.idle_timeout
    → ComesAfter q.idle_timeout q.last_run ms
    → ComesAfter q'.idle_timeout q'.last_run ms
same_ComesAfter ms q q' last_run_same timeout_same h = rw (last_run_same, timeout_same) h

-- What waits is sent, once a message comes later than the idle timeout after the last batch: it
-- stands at the front of what the batches of the run hold.
pub waiting_is_sent :
    (ms : List Message) (q : Queue)
    → ComesAfter q.idle_timeout q.last_run ms
    → StartsWith (concat (run ms q).1) q.items
unfolding run step
waiting_is_sent [] q h = absurd h
waiting_is_sent (m ∷ ms) q h =
    let q' = receive m.container q in
    let (last_run_same, timeout_same, items_same) = receive_same m.container q in
    elim (Bool-cases (flushes m.now q')) [
      | inl e ↦ (
        to_list m.container ++ concat (run ms (step m q).0).1,
        ap (λ sent. concat (to_list sent ++ (run ms (step m q).0).1))
              (ap (λ r. r.1) (settle_flushed m.now m.flush_time q' e) ∙ ap some items_same)
            ∙ append_assoc q.items (to_list m.container) (concat (run ms (step m q).0).1),
      )
      | inr e ↦
          let (rest, front) = waiting_is_sent ms q' (
            still_ComesAfter m ms q' e
              (same_ComesAfter (m ∷ ms) q q' last_run_same timeout_same h)) in
          (
            to_list m.container ++ rest,
            ap (λ after. concat (to_list after.1 ++ (run ms after.0).1))
                  (settle_waiting m.now m.flush_time q' e)
                ∙ front
                ∙ ap (λ l. l ++ rest) items_same
                ∙ append_assoc q.items (to_list m.container) rest,
          )
    ]

pub late_tick :
    (now flush_time : ℕ) (q : Queue)
    → q.last_run + q.idle_timeout < now
    → (step (record { container = none; now = now; flush_time = flush_time }) q).0.items ≡ []
unfolding step receive flush
late_tick now flush_time q h =
    ap (λ r. r.0.items) (settle_flushed now flush_time q (flushes_late now q h))
