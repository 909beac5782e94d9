-- ===== src/EventLogs/Calls/Trace/Closing.antt =====
-- eventlogs_windows.go: which handles `_ReadEventLogs` closes.
use dhound_agent.Base.{
  ℕ, List, [], ◌∷◌, ◌++◌, ◌≡◌, refl, ◌≢◌, ◌∙◌, sym, subst, false, ap, Option, All, Bytes, ltb,
  length, arith, inl, inr, ◌⊎◌, ◌==◌, ==_iff, Bool-cases, append_assoc,
}
use dhound_agent.EventLogs.Reading.{Rendering, event, fails, panics, buffer_size}
use dhound_agent.EventLogs.Calls.{Called, Dll, call_error, evt_query}
use dhound_agent.EventLogs.Calls.Trace.{
  Call, evt_query_call, evt_next_call, evt_render_call, evt_close_call, close_handles, render_calls,
  rendering, loop_calls, after_next_calls, read_calls,
}

-- The handles that are closed, in the order of the calls.
abbrev pub closed : List Call → List ℕ
closed [] = []
closed (evt_query_call text flags ∷ rest) = closed rest
closed (evt_next_call handle size timeout flags ∷ rest) = closed rest
closed (evt_render_call context handle flags size ∷ rest) = closed rest
closed (evt_close_call handle ∷ rest) = handle ∷ closed rest

pub closed-close_handles :
    (handles : List ℕ) (rest : List Call)
    → closed (close_handles handles ++ rest) ≡ handles ++ closed rest
unfolding close_handles
closed-close_handles [] rest = refl
closed-close_handles (handle ∷ handles) rest =
    ap (λ hs. handle ∷ hs) (closed-close_handles handles rest)

not_equal : (m n : ℕ) → (m == n) ≡ false → m ≢ n
not_equal m n e h = let k = (==_iff m n).1 h in cc (e, k)

pub one_or_more : (x : ℕ) (xs : List ℕ) → ltb (length (x ∷ xs)) 1 ≡ false
one_or_more x xs = ground arith

pub rendering_cases :
    (r : Rendering)
    → ((text : Bytes) × (err : Option Bytes) × (r ≡ event text err))
      ⊎ (((e : Bytes) × (r ≡ fails e)) ⊎ (r ≡ panics))
rendering_cases (event text err) = inl (text, err, refl)
rendering_cases (fails e) = inr (inl (e, refl))
rendering_cases panics = inr (inr refl)

module _ (dll : Dll) where
  pub closed-render_calls :
      (handle : ℕ) (rest : List Call) → closed (render_calls dll handle ++ rest) ≡ closed rest
  unfolding render_calls
  closed-render_calls handle rest =
      elim (Bool-cases (ltb buffer_size (dll.render_used handle buffer_size))) [
        | inl e ↦ rw e refl
        | inr e ↦ rw e refl
      ]

  -- The item gives a text, with or without an error of its conversion.
  abbrev pub IsRendered : ℕ → Type 0
  IsRendered handle =
      (text : Bytes) × (err : Option Bytes) × (rendering dll handle ≡ event text err)

  -- What is closed before `last`: the handles of the items, or none of them.
  abbrev pub IsClosed : List ℕ → List ℕ → List ℕ → List ℕ → Type 0
  IsClosed all rest last handles =
      (All IsRendered rest × (handles ≡ all ++ last)) ⊎ ((¬ All IsRendered rest) × (handles ≡ last))

  -- After an item that gives a text the loop goes on.
  pub closed-loop_calls :
      (all rest : List ℕ) (tail : List Call) (handle : ℕ)
      → IsRendered handle
      → closed (loop_calls dll all (handle ∷ rest) ++ tail)
        ≡ closed (loop_calls dll all rest ++ tail)
  unfolding loop_calls
  closed-loop_calls all rest tail handle (text, err, e) =
      rw (e, loop_calls)
        (ap closed (append_assoc (render_calls dll handle) (loop_calls dll all rest) tail)
          ∙ closed-render_calls handle (loop_calls dll all rest ++ tail))

  loop-IsClosed :
      (all rest : List ℕ) (tail : List Call)
      → IsClosed all rest (closed tail) (closed (loop_calls dll all rest ++ tail))
  unfolding loop_calls
  loop-IsClosed all [] tail = inl (tt, closed-close_handles all tail)
  loop-IsClosed all (handle ∷ rest) tail = elim (rendering_cases (rendering dll handle)) [
    | inl some_text ↦
        let step = closed-loop_calls all rest tail handle some_text in
        elim (loop-IsClosed all rest tail) [
          | inl (h, k) ↦ inl ((some_text, h), step ∙ k)
          | inr (n, k) ↦ inr ((λ h. n h.1), step ∙ k)
        ]
    | inr (inl (err, e)) ↦ inr (
      λ h. let (t, o, k) = h.0 in absurd (cc (e, k)),
      rw (e, loop_calls) (closed-render_calls handle tail),
    )
    | inr (inr e) ↦ inr (
      λ h. let (t, o, k) = h.0 in absurd (cc (e, k)),
      rw (e, loop_calls) (closed-render_calls handle tail),
    )
  ]

  after_next-IsClosed :
      (handles : List ℕ) (c : Called) (tail : List Call)
      → ((c.r1 ≡ 0) × (closed (after_next_calls dll handles c ++ tail) ≡ handles ++ closed tail))
        ⊎ ((c.r1 ≢ 0)
            × IsClosed handles handles
                (closed tail)
                (closed (after_next_calls dll handles c ++ tail)))
  unfolding after_next_calls call_error
  after_next-IsClosed [] c tail = elim (Bool-cases (c.r1 == 0)) [
    | inl e ↦ inl ((==_iff c.r1 0).0 e, refl)
    | inr e ↦ inr (not_equal c.r1 0 e, inl (tt, refl))
  ]
  after_next-IsClosed (handle ∷ handles) c tail = elim (Bool-cases (c.r1 == 0)) [
    | inl e ↦ inl (
      (==_iff c.r1 0).0 e,
      rw (one_or_more handle handles, e) (closed-close_handles (handle ∷ handles) tail),
    )
    | inr e ↦ inr (
      not_equal c.r1 0 e,
      subst (IsClosed (handle ∷ handles) (handle ∷ handles) (closed tail))
          (sym (rw (one_or_more handle handles, e) refl))
          (loop-IsClosed (handle ∷ handles) (handle ∷ handles) tail),
    )
  ]

  -- `_ReadEventLogs` closes the handle of its query at last and once, even that of a query that
  -- failed. Of the handles that `EvtNext` gives it closes before each once and in order, where
  -- `EvtNext` reports a failure or every item gives a text; but where `EvtNext` reports success and
  -- some item gives none, since it cannot be rendered or the loop panics, none of them is closed.
  pub closed-read_calls :
      (text : Bytes) (max_items : ℕ)
      → let query = (dll.query text).r1 in
        let handles = dll.next_handles query max_items in
        let c = dll.next query max_items in
        let all_closed = closed (read_calls dll text max_items) in
        ((query ≡ 0) × (all_closed ≡ query ∷ []))
        ⊎ (((query ≢ 0) × (c.r1 ≡ 0) × (all_closed ≡ handles ++ query ∷ []))
            ⊎ ((query ≢ 0) × (c.r1 ≢ 0) × IsClosed handles handles (query ∷ []) all_closed))
  unfolding read_calls evt_query
  closed-read_calls text max_items =
      let query = (dll.query text).r1 in
      let handles = dll.next_handles query max_items in
      let c = dll.next query max_items in
      elim (Bool-cases (query == 0)) [
        | inl e ↦ inl ((==_iff query 0).0 e, rw (e, read_calls) refl)
        | inr e ↦ inr (
            let same : closed (read_calls dll text max_items)
                ≡ closed (after_next_calls dll handles c ++ evt_close_call query ∷ []) =
              rw (e, read_calls) refl in
            elim (after_next-IsClosed handles c (evt_close_call query ∷ [])) [
              | inl (failed, k) ↦ inl (not_equal query 0 e, failed, same ∙ k)
              | inr (given, k) ↦ inr (
                not_equal query 0 e,
                given,
                subst (IsClosed handles handles (query ∷ [])) (sym same) k,
              )
            ])
      ]
