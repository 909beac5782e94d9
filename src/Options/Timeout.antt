-- ===== src/Options/Timeout.antt =====
-- options.go and queue.go: for which `-timeout` the queue gets a ticker.
use dhound_agent.Base.{
  ℕ, ℤ, pos, negsuc, ◌*◌, ◌<◌, ◌≤◌, ◌≡◌, refl, ◌∙◌, subst, ◌%◌, ◌^◌, ◌↔◌, arith, Bool-cases, inl,
  inr, Option-cases,
}
use dhound_agent.Options.{
  Options, Arguments, Platform, Parsed, exited, parsed, second, to_int64, idle_timeout_of,
  parse_flags, set_timeout, on_windows, parse_arguments, given,
}

-- The condition of `time.NewTicker`, which panics on all else.
abbrev pub IsPositive : ℤ → Type 0
IsPositive (pos n) = 0 < n
IsPositive (negsuc n) = ⊥

-- At most 9,223,372,036 seconds, about 292 years, of which 64 bits hold the nanoseconds.
abbrev pub FitsInt64 : ℤ → Type 0
FitsInt64 (pos seconds) = seconds ≤ 9_223_372_036
FitsInt64 (negsuc n) = Unit {0}

idle_timeout_of_exact :
    (seconds : ℕ) → seconds ≤ 9_223_372_036 → idle_timeout_of (pos seconds) ≡ pos (second * seconds)
unfolding idle_timeout_of to_int64
idle_timeout_of_exact seconds h = rw (small seconds h) (ground arith)
  where
    small : (seconds : ℕ) → seconds ≤ 9_223_372_036 → second * seconds % 2 ^ 64 ≡ second * seconds
    small seconds h = omega arith

-- The idle timeout is the given number of seconds, or nothing for 0 and below.
abbrev pub nanoseconds : ℤ → ℤ
nanoseconds (pos seconds) = pos (second * seconds)
nanoseconds (negsuc n) = pos 0

idle_timeout_of-nanoseconds : (t : ℤ) → FitsInt64 t → idle_timeout_of t ≡ nanoseconds t
unfolding idle_timeout_of
idle_timeout_of-nanoseconds (pos seconds) h = idle_timeout_of_exact seconds h
idle_timeout_of-nanoseconds (negsuc n) h = refl

nanoseconds-IsPositive : (t : ℤ) → IsPositive (nanoseconds t) ↔ IsPositive t
nanoseconds-IsPositive (pos seconds) = ((λ h. omega arith), (λ h. omega arith))
nanoseconds-IsPositive (negsuc n) = ((λ h. absurd (omega arith)), (λ h. absurd h))

abbrev HasTimeoutOf : ℤ → Parsed → Type 0
HasTimeoutOf t (exited status) = Unit {0}
HasTimeoutOf t (parsed options) = options.idle_timeout ≡ idle_timeout_of t

on_windows-HasTimeoutOf :
    (platform : Platform) (options : Options)
    → HasTimeoutOf options.idle_timeout_in_seconds (on_windows platform options)
unfolding on_windows set_timeout
on_windows-HasTimeoutOf platform options = elim (Option-cases platform.executable) [
  | inl e ↦ rw e tt
  | inr (path, e) ↦ elim (Bool-cases (platform.chdir (platform.dir path))) [
    | inl c ↦ rw (e, c) (ground arith)
    | inr c ↦ rw (e, c) tt
  ]
]

parse_arguments-HasTimeoutOf :
    (platform : Platform) (arguments : Arguments)
    → HasTimeoutOf (given (pos 60) arguments.timeout) (parse_arguments platform arguments)
unfolding parse_arguments parse_flags set_timeout
parse_arguments-HasTimeoutOf platform arguments = elim (Bool-cases platform.is_windows) [
  | inl e ↦ rw e (on_windows-HasTimeoutOf platform (parse_flags arguments))
  | inr e ↦ rw e refl
]

-- Where the arguments are taken, and `-timeout`, which is 60 where it is not given, is at most
-- 9,223,372,036: the idle timeout is exactly so many seconds in nanoseconds, or 0 for a negative
-- number, and the queue's ticker, which panics on all that is not positive, is made exactly if
-- `-timeout` is positive.
pub parse_arguments-ticker :
    (platform : Platform) (arguments : Arguments) (options : Options)
    → FitsInt64 (given (pos 60) arguments.timeout)
    → parse_arguments platform arguments ≡ parsed options
    → (options.idle_timeout ≡ nanoseconds (given (pos 60) arguments.timeout))
      × (IsPositive options.idle_timeout ↔ IsPositive (given (pos 60) arguments.timeout))
parse_arguments-ticker platform arguments options h e =
    let t = given (pos 60) arguments.timeout in
    let exact : options.idle_timeout ≡ nanoseconds t =
      subst (HasTimeoutOf t) e (parse_arguments-HasTimeoutOf platform arguments)
      ∙ idle_timeout_of-nanoseconds t h in
    (exact, rw exact (nanoseconds-IsPositive t))
