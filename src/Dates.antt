-- ===== src/Dates.antt =====
-- util_date.go. Package time stands behind two functions: the year of the clock and the parser.
mod Examples
use dhound_agent.Base.{
  ℕ, ℤ, List, [], ◌∷◌, ◌++◌, Option, if◌then◌else◌, Bytes, codes, format_decimal,
}
use dhound_agent.Strings.{contains_text, replace_all}

abbrev pub placeholders : List (Bytes × Bytes)
placeholders =
    (codes "hh", codes "15")
    ∷ (codes "h", codes "03")
    ∷ (codes "mm", codes "04")
    ∷ (codes "ss", codes "05")
    ∷ (codes "MMMM", codes "January")
    ∷ (codes "MMM", codes "Jan")
    ∷ (codes "MM", codes "01")
    ∷ (codes "M", codes "1")
    ∷ (codes "pm", codes "PM")
    ∷ (codes "ZZZZ", codes "-0700")
    ∷ (codes "ZZZ", codes "MST")
    ∷ (codes "ZZ", codes "Z07:00")
    ∷ (codes "YYYY", codes "2006")
    ∷ (codes "YY", codes "06")
    ∷ (codes "DDDD", codes "Monday")
    ∷ (codes "DDD", codes "Mon")
    ∷ (codes "DD", codes "02")
    ∷ (codes "D", codes "2")
    ∷ []

pub replace_placeholders : List (Bytes × Bytes) → Bytes → Bytes
unfolding replace_all
replace_placeholders [] out = out
replace_placeholders ((find, subst) ∷ rest) out =
    replace_placeholders rest (replace_all find subst out)

-- The function `replace` of the source.
unfoldable pub to_layout : Bytes → Bytes
unfolding replace_placeholders
to_layout format = replace_placeholders placeholders format

-- Package time: the year of the clock in UTC, and `ParseInLocation` with `time.Local`, as the
-- number of `DateToCustomLong`; `none` is an error.
pub record Time : Type 0 where
  pub year : ℕ
  pub parse_in_location : Bytes → Bytes → Option ℕ

unfoldable pub ex_year_parse_date : Time → Bytes → Bytes → Option ℕ
unfolding contains_text to_layout format_decimal
ex_year_parse_date time format value =
    if contains_text (codes "Y") format
    then time.parse_in_location (to_layout format) value
    else time.parse_in_location (to_layout (codes "YYYY " ++ format))
        (format_decimal time.year ++ codes " " ++ value)

-- A time, whatever its zone: whole seconds since 1970 and the nanoseconds of the next one.
pub record Instant : Type 0 where
  pub seconds : ℤ
  pub nanoseconds : ℕ

pub date_to_custom_long : Instant → ℤ
date_to_custom_long time = time.seconds

pub custom_long_to_time : ℤ → Instant
custom_long_to_time number = record { seconds = number; nanoseconds = 0 }
