-- ===== src/EventLogs/Utf16/Examples.antt =====
-- Short texts in UTF-16.
use dhound_agent.Base.{pos, negsuc, ℕ, List, [], ◌∷◌, ◌++◌, ◌≡◌, refl, none, some, arith}
use dhound_agent.EventLogs.Utf16.{utf16_bytes_to_string, string_of}
use dhound_agent.EventLogs.Utf16.RoundTrip.{encode, bytes_of, utf16_bytes_to_string-encode}

-- A letter, a letter of two bytes, and a character outside of the first plane.
abbrev runes : List ℕ
runes = 0x61 ∷ 0xe9 ∷ 0x1f600 ∷ []

utf16_bytes_to_string-encode_example :
    utf16_bytes_to_string (bytes_of (encode runes) ++ 0 ∷ 0 ∷ 1 ∷ 2 ∷ [])
    ≡ some (string_of runes, pos 10)
utf16_bytes_to_string-encode_example =
    utf16_bytes_to_string-encode runes (1 ∷ 2 ∷ []) (omega arith) refl

odd_length : utf16_bytes_to_string (0x61 ∷ 0 ∷ 0x62 ∷ []) ≡ none
unfolding utf16_bytes_to_string
odd_length = refl

-- Half of a pair becomes U+FFFD.
lone_surrogate : utf16_bytes_to_string (0x00 ∷ 0xd8 ∷ []) ≡ some (0xef ∷ 0xbf ∷ 0xbd ∷ [], negsuc 0)
unfolding utf16_bytes_to_string
lone_surrogate = refl
