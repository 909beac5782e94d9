-- ===== src/EventLogs/Reading/Errors.antt =====
-- eventlogs_windows.go: which errors of single items count.
use dhound_agent.Base.{
  ℕ, List, [], ◌∷◌, ◌++◌, ◌≡◌, refl, ◌∙◌, ap, str_eq, Option, none, some, false, ltb, length,
  length-append, map, All, Bytes, arith, append_assoc, if◌then◌else◌,
}
use dhound_agent.EventLogs.Reading.{
  EventApi, event, Outcome, returned, render_one, render_all, after_next, none_read, no_more_data,
  panic, read_event_logs,
}

module _ (api : EventApi) where
  open api use {query, next}

  -- What comes of no events, by the error of `_EvtNext`.
  abbrev pub nothing : Option Bytes → Outcome api
  nothing none = panic
  nothing (some e) = returned [] (if str_eq e no_more_data then none else some e) []

  pub read_nothing :
      (xml : Bytes) (max_items : ℕ) (err : Option Bytes)
      → query xml ≡ none
      → next xml max_items ≡ ([], err)
      → read_event_logs api xml max_items ≡ nothing err
  unfolding read_event_logs after_next none_read
  read_nothing xml max_items none q n = rw (q, read_event_logs) (ap (λ p. after_next api p.0 p.1) n)
  read_nothing xml max_items (some e) q n =
      rw (q, read_event_logs) (ap (λ p. after_next api p.0 p.1) n)

module _ (api : EventApi) (text : api.Handle → Bytes) (error : api.Handle → Option Bytes) where
  open api use {Handle, query, next}

  -- The item gives this text, with this error of its conversion.
  abbrev pub Gives : Handle → Type 0
  Gives h = render_one api h ≡ event (text h) (error h)

  render_all-Gives :
      (all front : List Handle) (last : Handle) (events : List Bytes) (err : Option Bytes)
      → All Gives front
      → Gives last
      → render_all api all (front ++ last ∷ []) events err
        ≡ returned (events ++ map text (front ++ last ∷ [])) (error last) all
  unfolding render_all
  render_all-Gives all [] last events err h k = rw (k, render_all) refl
  render_all-Gives all (handle ∷ front) last events err h k =
      rw (h.0, render_all)
        (render_all-Gives all front last (events ++ text handle ∷ []) (error handle) h.1 k
          ∙ ap (λ l. returned l (error last) all)
              (append_assoc events (text handle ∷ []) (map text (front ++ last ∷ []))))

  -- The query succeeds and gives handles without an error, and every item can be rendered. Then the
  -- texts of all items are returned in order and all handles are closed, but as the error only that
  -- of the last item: one of any item before it is forgotten.
  pub last_error_counts :
      (xml : Bytes) (max_items : ℕ) (front : List Handle) (last : Handle)
      → query xml ≡ none
      → next xml max_items ≡ (front ++ last ∷ [], none)
      → All Gives front
      → Gives last
      → read_event_logs api xml max_items
        ≡ returned (map text (front ++ last ∷ [])) (error last) (front ++ last ∷ [])
  unfolding read_event_logs after_next
  last_error_counts xml max_items front last q n h k =
      rw (q, read_event_logs)
        (ap (λ p. after_next api p.0 p.1) n
          ∙ rw some_read (render_all-Gives (front ++ last ∷ []) front last [] none h k))
    where
      some_read : ltb (length (front ++ last ∷ [])) 1 ≡ false
      some_read = ground (arith, length-append front (last ∷ []))
