-- ===== src/EventLogs/Reading/Examples.antt =====
-- Two items, the first of which has an odd number of bytes.
use dhound_agent.Base.{
  List, [], ◌∷◌, ◌≡◌, refl, Option, none, some, Bytes, codes, map, length, format_decimal, str_eq,
  ◌==◌, if◌then◌else◌,
}
use dhound_agent.EventLogs.Utf16.{utf16_bytes_to_string}
use dhound_agent.EventLogs.Reading.{
  EventApi, render_one, returned, panic, read_event_logs, no_more_data,
}
use dhound_agent.EventLogs.Reading.Errors.{last_error_counts}

-- An item is its bytes; there are the two, or none.
abbrev api_with : List Bytes × Option Bytes → EventApi
api_with answer = record {
  Handle = Bytes;
  query = λ xml. none;
  next = λ xml n. answer;
  render = λ item size. record { err = none; used = length item; buffer = item };
}

abbrev odd_item : Bytes
odd_item = 0x61 ∷ []

abbrev good_item : Bytes
good_item = 0x61 ∷ 0 ∷ []

abbrev two_items : EventApi
two_items = api_with (odd_item ∷ good_item ∷ [], none)

abbrev text : Bytes → Bytes
text item = if length item == 2 then codes "a" else []

abbrev error : Bytes → Option Bytes
error item =
    if length item == 2 then none else some (codes "Slice must have an even length (length=1)")

last_error_counts_example :
    read_event_logs two_items [] 1000
    ≡ returned (map text (odd_item ∷ good_item ∷ [])) (error good_item) (odd_item ∷ good_item ∷ [])
unfolding render_one utf16_bytes_to_string format_decimal
last_error_counts_example =
    last_error_counts two_items text error [] 1000 (odd_item ∷ []) good_item refl refl (refl, tt)
      refl

-- Nothing read and no error: the nil error is asked for its text.
nothing_read : read_event_logs (api_with ([], none)) [] 1000 ≡ panic
unfolding read_event_logs
nothing_read = refl

no_more : read_event_logs (api_with ([], some no_more_data)) [] 1000 ≡ returned [] none []
unfolding read_event_logs str_eq
no_more = refl
