-- ===== src/Options.antt =====
-- options.go. The arguments are those that the package flag accepts; the calls of the system on
-- Windows are parameters. A duration is a count of nanoseconds, of 64 bits with a sign.
pub mod Timeout
mod Examples
use dhound_agent.Base.{
  ℕ, ℤ, pos, negsuc, ◌-◌, ◌*◌, ◌%◌, ◌^◌, [], Option, none, some, Bool, false, ltb, if◌then◌else◌,
  length, Bytes, codes,
}
use dhound_agent.Config.Loading

pub record Options : Type 0 where
  pub config_dir : Bytes
  pub log_file : Bytes
  pub idle_timeout_in_seconds : ℤ
  pub idle_timeout : ℤ
  pub version : Bool
  pub verbose : Bool
  pub pprof : Bytes
  pub net_timeout : ℕ
  pub default_file_deadtime : Bytes
  pub default_exclude_file_filter : Bytes

-- The arguments, where `none` is one that is not given.
pub record Arguments : Type 0 where
  pub config_dir : Option Bytes
  pub log_file : Option Bytes
  pub timeout : Option ℤ
  pub verbose : Option Bool
  pub version : Option Bool
  pub pprof : Option Bytes

-- Which system it is, where the program stands, and whether a directory can be entered.
pub record Platform : Type 0 where
  pub is_windows : Bool
  pub executable : Option Bytes
  pub dir : Bytes → Bytes
  pub chdir : Bytes → Bool

pub data Parsed : Type 0 where
  exited : ℕ → Parsed
  parsed : Options → Parsed

abbrev pub faulted : ℕ
faulted = 2

abbrev pub second : ℕ
second = 1_000_000_000

-- What 64 bits keep of a number.
pub to_int64 : ℕ → ℤ
to_int64 n =
    if ltb (n % 2 ^ 64) (2 ^ 63) then pos (n % 2 ^ 64) else negsuc (2 ^ 64 - 1 - n % 2 ^ 64)

-- `IdleTimeout` for a `-timeout`; no other than a positive one sets it.
pub idle_timeout_of : ℤ → ℤ
unfolding to_int64
idle_timeout_of (pos seconds) = if ltb 0 seconds then to_int64 (second * seconds) else pos 0
idle_timeout_of (negsuc n) = pos 0

abbrev pub given {ℓ} : {A : Type ℓ} → A → Option A → A
given a none = a
given a (some b) = b

-- What `flag.Parse` leaves.
pub parse_flags : Arguments → Options
parse_flags arguments = record {
  config_dir = given [] arguments.config_dir;
  log_file = given [] arguments.log_file;
  idle_timeout_in_seconds = given (pos 60) arguments.timeout;
  idle_timeout = pos 0;
  version = given false arguments.version;
  verbose = given false arguments.verbose;
  pprof = given [] arguments.pprof;
  net_timeout = 15;
  default_file_deadtime = codes "360h";
  default_exclude_file_filter = codes "((.gz)|(.zip)|(.tar)|(.zip))";
}

pub set_timeout : Options → Options
unfolding idle_timeout_of
set_timeout options = record options {
  idle_timeout = idle_timeout_of options.idle_timeout_in_seconds;
}

-- The part for Windows: into the directory of the program, and there the directory `config`.
pub on_windows : Platform → Options → Parsed
unfolding set_timeout
on_windows platform options = elim platform.executable [
  | none ↦ exited faulted
  | some path ↦
      if platform.chdir (platform.dir path)
      then parsed (
          set_timeout (
            if ltb (length options.config_dir) 1
            then record options { config_dir = codes "config" }
            else options))
      else exited faulted
]

pub parse_arguments : Platform → Arguments → Parsed
unfolding on_windows parse_flags set_timeout
parse_arguments platform arguments =
    if platform.is_windows
    then on_windows platform (parse_flags arguments)
    else parsed (set_timeout (parse_flags arguments))

-- What the loading of the configuration uses of them.
abbrev pub for_loading : Options → Loading.Options
for_loading options = record {
  config_dir = options.config_dir;
  default_file_deadtime = options.default_file_deadtime;
  default_exclude_file_filter = options.default_exclude_file_filter;
}
