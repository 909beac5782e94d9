-- ===== src/Base/Numbers.antt =====
-- Signed numbers that are only stored, and decimal print.
use Prim.Native.Nat.{ℕ, zero, suc, ◌+◌, ◌/◌, ◌%◌}
use mathlib.Core.List.{List, [], ◌∷◌}
use dhound_agent.Base.Tests.{ltb, if◌then◌else◌}

-- `negsuc n` is -(n + 1).
pub data ℤ : Type 0 where
  pos : ℕ → ℤ
  negsuc : ℕ → ℤ

-- The digits of `n` in front of `out`. Each round divides by ten, so that `n + 1` rounds are enough.
unfoldable pub digits : ℕ → ℕ → List ℕ → List ℕ
digits zero n out = out
digits (suc fuel) n out =
    let next = (b'0' + n % 10) ∷ out in
    let more = digits fuel (n / 10) next in if ltb 9 n then more else next

-- `%d` of a number that is not negative.
unfoldable pub format_decimal : ℕ → List ℕ
unfolding digits
format_decimal n = digits (suc n) n []
