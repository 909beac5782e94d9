-- ===== src/Conversions/Examples.antt =====
-- Conversions of small numbers.
use dhound_agent.Base.{pos, negsuc, ◌≡◌, refl, codes, arith}
use dhound_agent.Conversions.{force_atoi64, i64toa, force_atoi, force_atoui}
use dhound_agent.Conversions.RoundTrip.{force_atoi64-i64toa}

force_atoi64-i64toa_example : force_atoi64 (i64toa (negsuc 41)) ≡ negsuc 41
force_atoi64-i64toa_example = force_atoi64-i64toa (negsuc 41) (omega arith)

no_number : force_atoui 64 (codes "12a") ≡ 0
unfolding force_atoui
no_number = refl

too_large : force_atoi 32 (codes "2147483648") ≡ pos 0
unfolding force_atoi
too_large = refl
