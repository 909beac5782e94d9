-- ===== src/EventLogs/Calls/Trace/Agreeing.antt =====
-- eventlogs_windows.go: the calls that `_ReadEventLogs` makes and the outcome that it has go
-- together.
use dhound_agent.Base.{
  ℕ, List, [], ◌∷◌, ◌++◌, ◌≡◌, refl, ◌∙◌, Option, none, some, Bytes, inl, inr, ◌==◌, Bool-cases,
}
use dhound_agent.EventLogs.Reading.{EventApi, Outcome, returned, panic}
unfoldable use dhound_agent.EventLogs.Reading.{render_all, after_next, none_read, read_event_logs}
use dhound_agent.EventLogs.Calls.{
  Called, Dll, last_error, call_error, evt_query, text_of_error, api_of,
}
use dhound_agent.EventLogs.Calls.Trace.{
  Call, evt_close_call, rendering, loop_calls, after_next_calls, read_calls,
}
use dhound_agent.EventLogs.Calls.Trace.Closing.{
  closed, closed-close_handles, closed-render_calls, closed-loop_calls, rendering_cases,
  one_or_more,
}

module _ (api : EventApi) where
  open api use {query, next}

  read_failed :
      (text : Bytes) (max_items : ℕ) (e : Bytes)
      → query text ≡ some e
      → read_event_logs api text max_items ≡ returned [] (some e) []
  unfolding read_event_logs
  read_failed text max_items e q = rw (q, read_event_logs) refl

  read_after :
      (text : Bytes) (max_items : ℕ)
      → query text ≡ none
      → read_event_logs api text max_items
        ≡ after_next api (next text max_items).0 (next text max_items).1
  unfolding read_event_logs
  read_after text max_items q = rw (q, read_event_logs) refl

module _ (dll : Dll) where
  -- The handles that an outcome says were closed.
  abbrev closed_by : Outcome (api_of dll) → List ℕ
  unfolding api_of
  closed_by (returned texts err handles) = handles
  closed_by panic = []

  abbrev loop : List ℕ → List ℕ → List Bytes → Option Bytes → Outcome (api_of dll)
  unfolding api_of
  loop all rest texts err = render_all (api_of dll) all rest texts err

  loop-closed_by :
      (all rest : List ℕ) (texts : List Bytes) (err : Option Bytes) (tail : List Call)
      → closed (loop_calls dll all rest ++ tail)
        ≡ closed_by (loop all rest texts err) ++ closed tail
  unfolding loop_calls render_all api_of
  loop-closed_by all [] texts err tail = closed-close_handles all tail
  loop-closed_by all (handle ∷ rest) texts err tail =
      elim (rendering_cases (rendering dll handle)) [
        | inl (text, e, k) ↦
            closed-loop_calls dll all rest tail handle (text, e, k)
            ∙ loop-closed_by all rest (texts ++ text ∷ []) e tail
            ∙ rw (k, render_all) refl
        | inr (inl (e, k)) ↦ rw (k, loop_calls, render_all) (closed-render_calls dll handle tail)
        | inr (inr k) ↦ rw (k, loop_calls, render_all) (closed-render_calls dll handle tail)
      ]

  abbrev after : List ℕ → Option Bytes → Outcome (api_of dll)
  unfolding api_of
  after handles err = after_next (api_of dll) handles err

  after_next-closed_by :
      (handles : List ℕ) (c : Called) (tail : List Call)
      → closed (after_next_calls dll handles c ++ tail)
        ≡ closed_by (after handles (text_of_error dll (call_error c))) ++ closed tail
  unfolding after_next_calls call_error after_next none_read text_of_error closed_by
  after_next-closed_by [] c tail = elim (Bool-cases (c.r1 == 0)) [
    | inl e ↦ rw e refl
    | inr e ↦ rw e refl
  ]
  after_next-closed_by (handle ∷ handles) c tail = elim (Bool-cases (c.r1 == 0)) [
    | inl e ↦ rw (one_or_more handle handles, e) (closed-close_handles (handle ∷ handles) tail)
    | inr e ↦
        rw (one_or_more handle handles, e)
          (loop-closed_by (handle ∷ handles) (handle ∷ handles) [] none tail)
  ]

  -- The handles that `_ReadEventLogs` closes are those that its outcome tells, and then that of the
  -- query.
  closed-read_event_logs :
      (text : Bytes) (max_items : ℕ)
      → closed (read_calls dll text max_items)
        ≡ closed_by (read_event_logs (api_of dll) text max_items) ++ (dll.query text).r1 ∷ []
  unfolding read_calls read_event_logs evt_query api_of text_of_error
  closed-read_event_logs text max_items =
      let query = (dll.query text).r1 in
      let handles = dll.next_handles query max_items in
      let c = dll.next query max_items in
      elim (Bool-cases (query == 0)) [
        | inl e ↦
            rw
              (read_failed (api_of dll) text max_items
                (dll.error_text (last_error (dll.query text))) (rw e refl))
              (rw e refl)
        | inr e ↦
            rw (read_after (api_of dll) text max_items (rw e refl))
              (rw e (after_next-closed_by handles c (evt_close_call query ∷ [])))
      ]
