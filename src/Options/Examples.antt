-- ===== src/Options/Examples.antt =====
-- The options of a few command lines.
use dhound_agent.Base.{ℤ, pos, negsuc, ◌≡◌, refl, none, some, true, false, arith, ◌↔◌, codes}
use dhound_agent.Options.{
  Options, Arguments, Platform, parsed, parse_flags, set_timeout, on_windows, parse_arguments,
  idle_timeout_of,
}
use dhound_agent.Options.Timeout.{IsPositive, nanoseconds, parse_arguments-ticker}

abbrev linux : Platform
linux = record { is_windows = false; executable = none; dir = λ p. p; chdir = λ p. false }

abbrev windows : Platform
windows = record {
  is_windows = true;
  executable = some (codes "C:\\dhound\\agent.exe");
  dir = λ p. codes "C:\\dhound";
  chdir = λ p. true;
}

abbrev every : ℤ → Arguments
every seconds = record {
  config_dir = none;
  log_file = none;
  timeout = some seconds;
  verbose = none;
  version = none;
  pprof = none;
}

abbrev taken : Options
unfolding set_timeout parse_flags
taken = set_timeout (parse_flags (every (pos 30)))

parse_arguments-ticker_example :
    (taken.idle_timeout ≡ nanoseconds (pos 30))
    × (IsPositive taken.idle_timeout ↔ IsPositive (pos 30))
unfolding parse_arguments taken
parse_arguments-ticker_example =
    parse_arguments-ticker linux (every (pos 30)) taken (omega arith) refl

-- On Windows the configuration is found beside the program.
windows_config :
    parse_arguments windows (every (pos 1))
    ≡ parsed (record (set_timeout (parse_flags (every (pos 1)))) { config_dir = codes "config" })
unfolding parse_arguments on_windows set_timeout parse_flags
windows_config = refl

-- One second more than 64 bits hold.
too_long : idle_timeout_of (pos 9_223_372_037) ≡ negsuc 9_223_372_036_709_551_615
unfolding idle_timeout_of
too_long = refl
