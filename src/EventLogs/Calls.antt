-- ===== src/EventLogs/Calls.antt =====
-- eventlogs_windows.go: the four functions that call wevtapi.dll, and `_ReadEventLogs` over them.
pub mod Trace
pub mod Empty
mod Examples
use dhound_agent.Base.{ℕ, List, Option, none, some, ◌==◌, if◌then◌else◌, Bytes}
use dhound_agent.EventLogs.Reading.{EventApi}

-- An error of the system by its number, or the one that stands for none.
pub data Errno : Type 0 where
  errno : ℕ → Errno
  einval : Errno

-- What a call gives: the first result and the last error of the system.
pub record Called : Type 0 where
  pub r1 : ℕ
  pub e1 : ℕ

-- The DLL: what the calls give and what they write where the pointers point, and the texts of
-- errors in package syscall.
pub record Dll : Type 0 where
  pub query : Bytes → Called
  pub next : ℕ → ℕ → Called
  -- The handles that are written into the array, as many as are returned.
  pub next_handles : ℕ → ℕ → List ℕ
  pub render : ℕ → ℕ → Called
  pub render_used : ℕ → ℕ → ℕ
  pub render_buffer : ℕ → ℕ → Bytes
  pub error_text : Errno → Bytes

pub last_error : Called → Errno
last_error c = if c.e1 == 0 then einval else errno c.e1

-- The error of `_EvtNext`, `_EvtRender` and `_EvtClose`.
pub call_error : Called → Option Errno
unfolding last_error
call_error c = if c.r1 == 0 then some (last_error c) else none

-- `_EvtQuery`: the handle, and the error where that is 0.
pub evt_query : Called → ℕ × Option Errno
unfolding last_error
evt_query c = (c.r1, if c.r1 == 0 then some (last_error c) else none)

text_of_error : Dll → Option Errno → Option Bytes
text_of_error dll none = none
text_of_error dll (some e) = some (dll.error_text e)

-- The functions as `_ReadEventLogs` uses them.
pub api_of : Dll → EventApi
unfolding evt_query call_error text_of_error
api_of dll = record {
  Handle = ℕ;
  query = λ text. text_of_error dll (evt_query (dll.query text)).1;
  next = λ text max_items. (
    dll.next_handles (evt_query (dll.query text)).0 max_items,
    text_of_error dll (call_error (dll.next (evt_query (dll.query text)).0 max_items)),
  );
  render = λ handle size. record {
    err = text_of_error dll (call_error (dll.render handle size));
    used = dll.render_used handle size;
    buffer = dll.render_buffer handle size;
  };
}
