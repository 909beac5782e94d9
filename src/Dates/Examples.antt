-- ===== src/Dates/Examples.antt =====
-- The documented formats of util_date.go as layouts of package time.
use dhound_agent.Base.{pos, ◌≡◌, refl, codes}
use dhound_agent.Dates.{to_layout, date_to_custom_long, custom_long_to_time}

default_date_time : to_layout (codes "YYYY-MM-DD hh:mm:ss") ≡ codes "2006-01-02 15:04:05"
unfolding to_layout
default_date_time = refl

syslog : to_layout (codes "MMM D hh:mm:ss") ≡ codes "Jan 2 15:04:05"
unfolding to_layout
syslog = refl

long_names :
    to_layout (codes "DDDD, DD MMMM YYYY h:mm:sspm ZZZ")
    ≡ codes "Monday, 02 January 2006 03:04:05PM MST"
unfolding to_layout
long_names = refl

-- What is kept of a time is its second.
cut_off :
    custom_long_to_time
      (date_to_custom_long (record { seconds = pos 1_500_000_000; nanoseconds = 999_999_999 }))
    ≡ record { seconds = pos 1_500_000_000; nanoseconds = 0 }
unfolding date_to_custom_long custom_long_to_time
cut_off = refl
