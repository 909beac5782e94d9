-- ===== src/EventLogs/Calls/Examples.antt =====
-- A query that gives no event, with the error 259, and one that gives two, the second of which
-- cannot be rendered.
use dhound_agent.Base.{
  ℕ, [], ◌∷◌, ◌⊎◌, ◌==◌, if◌then◌else◌, ◌≡◌, refl, ◌≢◌, ◌↔◌, none, arith, codes,
}
use dhound_agent.EventLogs.Reading.{returned, panic, no_more_data, read_event_logs}
use dhound_agent.EventLogs.Calls.{Dll, api_of}
use dhound_agent.EventLogs.Calls.Trace.{read_calls}
use dhound_agent.EventLogs.Calls.Trace.Closing.{closed, IsClosed, closed-read_calls}
use dhound_agent.EventLogs.Calls.Empty.{IsEmptyLog, empty_read}

abbrev empty : Dll
empty = record {
  query = λ xml. record { r1 = 5; e1 = 0 };
  next = λ handle max_items. record { r1 = 0; e1 = 259 };
  next_handles = λ handle max_items. [];
  render = λ handle size. record { r1 = 0; e1 = 6 };
  render_used = λ handle size. 0;
  render_buffer = λ handle size. [];
  error_text = λ e. no_more_data;
}

empty_read_example :
    let c = empty.next 5 1000 in
    let out = read_event_logs (api_of empty) (codes "<QueryList/>") 1000 in
    ((out ≡ panic) ↔ (c.r1 ≢ 0)) × ((out ≡ returned [] none []) ↔ IsEmptyLog empty c)
empty_read_example =
    empty_read empty (codes "<QueryList/>") 1000 (λ e. absurd (omega (arith, e))) refl

abbrev second_fails : Dll
second_fails = record {
  query = λ xml. record { r1 = 5; e1 = 0 };
  next = λ handle max_items. record { r1 = 1; e1 = 0 };
  next_handles = λ handle max_items. 7 ∷ 8 ∷ [];
  render = λ handle size. record { r1 = if handle == 7 then 1 else 0; e1 = 6 };
  render_used = λ handle size. 4;
  render_buffer = λ handle size. 65 ∷ 0 ∷ 0 ∷ 0 ∷ [];
  error_text = λ e. codes "The handle is invalid.";
}

closed-read_calls_example :
    let query : ℕ = 5 in
    let c = second_fails.next query 1000 in
    let all_closed = closed (read_calls second_fails (codes "<QueryList/>") 1000) in
    ((query ≡ 0) × (all_closed ≡ query ∷ []))
    ⊎ (((query ≢ 0) × (c.r1 ≡ 0) × (all_closed ≡ 7 ∷ 8 ∷ query ∷ []))
        ⊎ ((query ≢ 0)
            × (c.r1 ≢ 0)
            × IsClosed second_fails (7 ∷ 8 ∷ []) (7 ∷ 8 ∷ []) (query ∷ []) all_closed))
closed-read_calls_example = closed-read_calls second_fails (codes "<QueryList/>") 1000
