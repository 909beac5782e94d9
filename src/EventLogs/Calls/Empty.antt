-- ===== src/EventLogs/Calls/Empty.antt =====
-- eventlogs_windows.go: what a query without events comes to.
use dhound_agent.Base.{
  ℕ, [], ◌≡◌, refl, ◌≢◌, ap, ◌↔◌, inl, inr, none, ◌==◌, ==_iff, Bool-cases, Bytes, str_eq,
  str_eq_iff,
}
use dhound_agent.EventLogs.Reading.{Outcome, returned, panic, no_more_data, read_event_logs}
use dhound_agent.EventLogs.Reading.Errors.{nothing, read_nothing}
use dhound_agent.EventLogs.Calls.{
  Called, Dll, last_error, call_error, evt_query, text_of_error, api_of,
}

module _ (dll : Dll) where
  abbrev Result : Type 0
  Result = Outcome (api_of dll)

  abbrev pub IsEmptyLog : Called → Type 0
  IsEmptyLog c = (c.r1 ≡ 0) × (dll.error_text (last_error c) ≡ no_more_data)

  reported_none :
      (c : Called) (out : Result)
      → c.r1 ≢ 0
      → out ≡ panic
      → ((out ≡ panic) ↔ (c.r1 ≢ 0)) × ((out ≡ returned [] none []) ↔ IsEmptyLog c)
  reported_none c out h e = (((λ p. h), (λ p. e)), ((λ p. absurd (cc (p, e))), λ p. absurd (h p.0)))

  nothing_iff :
      (c : Called)
      → let out : Result = nothing (api_of dll) (text_of_error dll (call_error c)) in
        ((out ≡ panic) ↔ (c.r1 ≢ 0)) × ((out ≡ returned [] none []) ↔ IsEmptyLog c)
  unfolding call_error text_of_error
  nothing_iff c = elim (Bool-cases (c.r1 == 0)) [
    | inr e ↦ reported_none c _ (λ h. let k = (==_iff c.r1 0).1 h in cc (e, k)) (rw e refl)
    | inl e ↦ elim (Bool-cases (str_eq (dll.error_text (last_error c)) no_more_data)) [
      | inl t ↦
          let text = (str_eq_iff (dll.error_text (last_error c)) no_more_data).0 t in
          rw (e, t)
            (
              ((λ p. absurd cc), λ h. absurd (h ((==_iff c.r1 0).0 e))),
              ((λ p. ((==_iff c.r1 0).0 e, text)), λ p. refl),
            )
      | inr t ↦
          rw (e, t)
            (
              ((λ p. absurd cc), λ h. absurd (h ((==_iff c.r1 0).0 e))),
              (
                (λ p. absurd cc),
                λ p.
                    absurd (
                      let k = (str_eq_iff (dll.error_text (last_error c)) no_more_data).1 p.1 in
                      cc),
              ),
            )
    ]
  ]

  query_works : (c : Called) → c.r1 ≢ 0 → text_of_error dll (evt_query c).1 ≡ none
  unfolding evt_query text_of_error
  query_works c h = elim (Bool-cases (c.r1 == 0)) [
    | inl e ↦ absurd (h ((==_iff c.r1 0).0 e))
    | inr e ↦ rw e refl
  ]

  -- A query that succeeds and gives no event: `_ReadEventLogs` panics exactly if `EvtNext` reports
  -- success, since it then calls a method of a nil error, and it returns no events and no error
  -- exactly if `EvtNext` fails with the error whose text is "No more data is available.".
  pub empty_read :
      (xml : Bytes) (max_items : ℕ)
      → (dll.query xml).r1 ≢ 0
      → dll.next_handles (dll.query xml).r1 max_items ≡ []
      → let c = dll.next (dll.query xml).r1 max_items in
        let out = read_event_logs (api_of dll) xml max_items in
        ((out ≡ panic) ↔ (c.r1 ≢ 0)) × ((out ≡ returned [] none []) ↔ IsEmptyLog c)
  unfolding api_of evt_query text_of_error
  empty_read xml max_items h k =
      let c = dll.next (dll.query xml).r1 max_items in
      rw
        (read_nothing (api_of dll) xml max_items (text_of_error dll (call_error c))
          (query_works (dll.query xml) h) (ap (λ hs. (hs, text_of_error dll (call_error c))) k))
        (nothing_iff c)
