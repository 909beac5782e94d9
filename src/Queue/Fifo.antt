-- ===== src/Queue/Fifo.antt =====
-- The queue of queue.go seen as an unbounded FIFO of containers.
use dhound_agent.Base.{
  ℕ, List, [], ◌∷◌, ◌++◌, ◌≡◌, refl, ◌∙◌, sym, ap, Option, none, some, arith, append-nil,
  append_assoc,
}
use dhound_agent.Events.{SecurityEventsContainer}
use dhound_agent.Queue.{Queue, Message, receive, settle, step, run, to_list}

abbrev pub concat {ℓ} : {A : Type ℓ} → List (List A) → List A
concat [] = []
concat (xs ∷ rest) = xs ++ concat rest

abbrev pub received : List Message → List SecurityEventsContainer
received [] = []
received (m ∷ ms) = to_list m.container ++ received ms

receive-items :
    (c : Option SecurityEventsContainer) (q : Queue) → (receive c q).items ≡ q.items ++ to_list c
unfolding receive
receive-items none q = sym (append-nil q.items)
receive-items (some c) q = refl

settle_order :
    (now flush_time : ℕ) (q : Queue)
    → concat (to_list (settle now flush_time q).1) ++ (settle now flush_time q).0.items ≡ q.items
unfolding settle
settle_order now flush_time q = ground (arith, append-nil q.items, append-nil (q.items ++ []))

pub step_order :
    (m : Message) (q : Queue)
    → concat (to_list (step m q).1) ++ (step m q).0.items ≡ q.items ++ to_list m.container
unfolding step
step_order m q = settle_order m.now m.flush_time _ ∙ receive-items m.container q

pub concat-append {ℓ} :
    {A : Type ℓ} (xs ys : List (List A)) → concat (xs ++ ys) ≡ concat xs ++ concat ys
concat-append [] ys = refl
concat-append (x ∷ xs) ys = simp (concat-append xs ys, append_assoc)

-- Whatever messages arrive and whatever the clock says, the batches sent, put one after the other,
-- and then the items still held, are the items held at the start and then the containers received,
-- in order: none is lost, repeated or reordered.
pub run_order :
    (ms : List Message) (q : Queue)
    → concat (run ms q).1 ++ (run ms q).0.items ≡ q.items ++ received ms
unfolding run
run_order [] q = sym (append-nil q.items)
run_order (m ∷ ms) q =
    let q' = (step m q).0 in
    let sent = to_list (step m q).1 in
    ap (λ l. l ++ (run ms q').0.items) (concat-append sent (run ms q').1)
    ∙ append_assoc (concat sent) (concat (run ms q').1) (run ms q').0.items
    ∙ ap (◌++◌ (concat sent)) (run_order ms q')
    ∙ sym (append_assoc (concat sent) q'.items (received ms))
    ∙ ap (λ l. l ++ received ms) (step_order m q)
    ∙ append_assoc q.items (to_list m.container) (received ms)
