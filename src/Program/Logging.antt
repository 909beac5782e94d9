-- ===== src/Program/Logging.antt =====
-- main.go: what is printed, and how the process ends. A text stands for the format with its arguments
-- in place.
use dhound_agent.Base.{ℕ, List, [], ◌∷◌, ◌++◌, if◌then◌else◌, Bytes, codes, ◌≡◌, refl}
use dhound_agent.Options.{Options, faulted}
use dhound_agent.Program.{LogLevel, verbose, important, emits}

pub data Effect : Type 0 where
  printed : Bytes → Effect
  exits : ℕ → Effect

pub emit : Options → LogLevel → Bytes → List Effect
unfolding emits
emit options level text = if emits options level then printed text ∷ [] else []

pub emit_line : Options → LogLevel → Bytes → List Effect
unfolding emit
emit_line options level text = emit options level (text ++ codes "\n")

pub debug : Options → Bytes → List Effect
unfolding emit_line
debug options text = emit_line options verbose text

-- What encoding/json makes of the value, or its error.
pub data Encoded : Type 0 where
  encoded : Bytes → Encoded
  refused : Bytes → Encoded

-- The error is printed on every level.
pub emit_json : Options → LogLevel → Encoded → List Effect
unfolding emit
emit_json options level (encoded js) = emit options level (js ++ codes "\n")
emit_json options level (refused error) =
    emit options important (codes "Failed convert object to json. Error: " ++ error ++ codes "\n")

pub debug_json : Options → Encoded → List Effect
unfolding emit_json
debug_json options v = emit_json options verbose v

pub exit : ℕ → Bytes → List Effect
exit stat text = printed text ∷ printed (codes "Exit!") ∷ exits stat ∷ []

pub fault : Bytes → List Effect
unfolding exit
fault text = exit faulted text

-- What only concerns the debugging is printed exactly where the options ask for it.
debug_lem :
    (options : Options) (text : Bytes)
    → debug options text ≡ (if options.verbose then printed (text ++ codes "\n") ∷ [] else [])
unfolding debug
debug_lem options text = refl

-- A fault is not silent, whatever the options, and ends the process with status 2.
fault_lem : (text : Bytes) → fault text ≡ printed text ∷ printed (codes "Exit!") ∷ exits 2 ∷ []
unfolding fault
fault_lem text = refl
