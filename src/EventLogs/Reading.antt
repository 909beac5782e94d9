-- ===== src/EventLogs/Reading.antt =====
-- eventlogs_windows.go: `_ReadEventLogs`, over the four functions of wevtapi.dll.
pub mod Errors
mod Examples
use dhound_agent.Base.{
  ℕ, ◌*◌, List, [], ◌∷◌, ◌++◌, Option, none, some, ltb, take, if◌then◌else◌, length, Bytes, codes,
  str_eq, format_decimal,
}
unfoldable use dhound_agent.EventLogs.Utf16.{utf16_bytes_to_string}

-- What `_EvtRender` leaves: its error, the size it needs or has used, and the buffer.
pub record Rendered : Type 0 where
  pub err : Option Bytes
  pub used : ℕ
  pub buffer : Bytes

-- An error is its text. `render` has the size of the buffer that it is given.
pub record EventApi : Type 1 where
  pub Handle : Type 0
  pub query : Bytes → Option Bytes
  pub next : Bytes → ℕ → List Handle × Option Bytes
  pub render : Handle → ℕ → Rendered

abbrev pub buffer_size : ℕ
buffer_size = 10 * 1024

abbrev pub no_more_data : Bytes
no_more_data = codes "No more data is available."

-- One round of the loop: a text with the error of its conversion, an early return, or a panic.
pub data Rendering : Type 0 where
  event : Bytes → Option Bytes → Rendering
  fails : Bytes → Rendering
  panics : Rendering

pub text_of : Bytes → Rendering
unfolding utf16_bytes_to_string format_decimal
text_of b = elim (utf16_bytes_to_string b) [
  | none ↦ event [] (
      some
        (codes "Slice must have an even length (length=" ++ format_decimal (length b) ++ codes ")"))
  | some (text, offset) ↦ event text none
]

module _ (api : EventApi) where
  open api use {Handle, query, next, render}

  -- The events and the error, and the handles that were closed.
  pub data Outcome : Type 0 where
    returned : List Bytes → Option Bytes → List Handle → Outcome
    panic : Outcome

  -- With the buffer of the right size; its own error is overwritten.
  pub render_again : Handle → ℕ → Rendering
  unfolding text_of
  render_again handle size =
      let r = render handle size in
      if ltb size r.used then panics else text_of (take r.used r.buffer)

  pub render_one : Handle → Rendering
  unfolding render_again text_of
  render_one handle =
      let r = render handle buffer_size in
      if ltb buffer_size r.used
      then render_again handle r.used
      else elim r.err [ some e ↦ fails e | none ↦ text_of (take r.used r.buffer) ]

  -- The loop over the handles, with the events and the error so far; `all` are closed at the end.
  unfoldable pub render_all : List Handle → List Handle → List Bytes → Option Bytes → Outcome
  unfolding render_one
  render_all all [] events err = returned events err all
  render_all all (handle ∷ rest) events err = elim (render_one handle) [
    | event text e ↦ render_all all rest (events ++ text ∷ []) e
    | fails e ↦ returned [] (some e) []
    | panics ↦ panic
  ]

  -- Nothing was read: the method of a nil error is called, or the error is looked at.
  unfoldable pub none_read : Option Bytes → Outcome
  unfolding str_eq
  none_read none = panic
  none_read (some e) = returned [] (if str_eq e no_more_data then none else some e) []

  unfoldable pub after_next : List Handle → Option Bytes → Outcome
  unfolding render_all none_read
  after_next handles err = if ltb (length handles) 1 then none_read err else elim err [
    | some e ↦ returned [] (some e) handles
    | none ↦ render_all handles handles [] none
  ]

  unfoldable pub read_event_logs : Bytes → ℕ → Outcome
  unfolding after_next
  read_event_logs text max_items_to_read = elim (query text) [
    | some e ↦ returned [] (some e) []
    | none ↦ let (handles, err) = next text max_items_to_read in after_next handles err
  ]
