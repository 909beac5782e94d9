-- ===== src/EventLogs/Calls/Trace.antt =====
-- eventlogs_windows.go: the calls into wevtapi.dll that `_ReadEventLogs` makes, with their arguments,
-- and `closeEvtHandles`.
pub mod Closing
pub mod Agreeing
use dhound_agent.Base.{
  ℕ, ◌+◌, ◌*◌, List, [], ◌∷◌, ◌++◌, none, some, Bytes, ltb, if◌then◌else◌, length,
}
use dhound_agent.EventLogs.Reading.{Rendering, event, fails, panics, render_one, buffer_size}
use dhound_agent.EventLogs.Calls.{Called, Dll, call_error, evt_query, api_of}

-- A call with the arguments that are not pointers.
pub data Call : Type 0 where
  evt_query_call : Bytes → ℕ → Call
  evt_next_call : ℕ → ℕ → ℕ → ℕ → Call
  evt_render_call : ℕ → ℕ → ℕ → ℕ → Call
  evt_close_call : ℕ → Call

-- EvtQueryChannelPath with EvtQueryReverseDirection.
abbrev pub query_flags : ℕ
query_flags = 1 + 512

-- EvtRenderEventXml.
abbrev pub event_xml : ℕ
event_xml = 1

-- In milliseconds.
abbrev pub next_timeout : ℕ
next_timeout = 10 * 1000

pub close_handles : List ℕ → List Call
close_handles [] = []
close_handles (handle ∷ rest) = evt_close_call handle ∷ close_handles rest

module _ (dll : Dll) where
  -- One round of the loop.
  pub render_calls : ℕ → List Call
  render_calls handle =
      let used = dll.render_used handle buffer_size in
      evt_render_call 0 handle event_xml buffer_size
      ∷ (if ltb buffer_size used then evt_render_call 0 handle event_xml used ∷ [] else [])

  abbrev pub rendering : ℕ → Rendering
  unfolding api_of
  rendering handle = render_one (api_of dll) handle

  -- The loop, and the closing of `all` handles after it, which an early return and a panic skip.
  pub loop_calls : List ℕ → List ℕ → List Call
  unfolding render_calls close_handles
  loop_calls all [] = close_handles all
  loop_calls all (handle ∷ rest) = elim (rendering handle) [
    | event text e ↦ render_calls handle ++ loop_calls all rest
    | fails e ↦ render_calls handle
    | panics ↦ render_calls handle
  ]

  -- From the result of `_EvtNext` on.
  pub after_next_calls : List ℕ → Called → List Call
  unfolding loop_calls call_error close_handles
  after_next_calls handles c = if ltb (length handles) 1 then [] else elim (call_error c) [
    | some e ↦ close_handles handles
    | none ↦ loop_calls handles handles
  ]

  -- `_ReadEventLogs`; the handle of the query is closed at last, whatever happens.
  pub read_calls : Bytes → ℕ → List Call
  unfolding after_next_calls evt_query
  read_calls text max_items_to_read =
      let (handle, err) = evt_query (dll.query text) in
      let handles = dll.next_handles handle max_items_to_read in
      let c = dll.next handle max_items_to_read in
      evt_query_call text query_flags ∷ (elim err [
        | some e ↦ []
        | none ↦ evt_next_call handle max_items_to_read next_timeout 0 ∷ after_next_calls handles c
      ])
      ++ evt_close_call handle ∷ []
