-- ===== src/Utils/Matching/Exclude.antt =====
-- `ApplyExcludeFilterToSecurityEvents` of utils.go against its meaning, and the order of the map.
use mathlib.Core.List.{Perm, Permᴰ}
use mathlib.Core.Logic.{∥∥₁_elim}
use dhound_agent.Base.{
  List, [], ◌∷◌, ◌≡◌, refl, ◌∙◌, Bool, true, false, ◌||◌, Option, Bytes, Dict, any, arith,
}
use dhound_agent.Regexp.{Regexp}
use dhound_agent.Utils.Matching.{excludes, exclude_loop, apply_exclude_filter_to_security_events}

Bool-set : IsSet Bool
Bool-set = hlevel

or_left_comm : (a b c : Bool) → a || (b || c) ≡ b || (a || c)
or_left_comm a b c = ground arith

any-Permᴰ {ℓ} : {A : Type ℓ} (p : A → Bool) {xs ys : List A} → Permᴰ xs ys → any p xs ≡ any p ys
any-Permᴰ p Permᴰ.nil = refl
any-Permᴰ p (Permᴰ.cons e d) = rw (e, any-Permᴰ p d)
any-Permᴰ p (Permᴰ.swap {a} {b} {l = l} e f) = rw (← e, ← f) (or_left_comm (p a) (p b) (any p l))
any-Permᴰ p (Permᴰ.trans d e) = any-Permᴰ p d ∙ any-Permᴰ p e

pub any-perm {ℓ} : {A : Type ℓ} (p : A → Bool) {xs ys : List A} → Perm xs ys → any p xs ≡ any p ys
any-perm p h = ∥∥₁_elim h (Bool-set _ _) (any-Permᴰ p)

module _ (regexp : Regexp) where
  exclude_loop-any :
      (filter : List (Bytes × Option regexp.Regex)) (m : Dict Bytes) (skip : Bool)
      → exclude_loop regexp filter m skip ≡ skip || any (excludes regexp m) filter
  unfolding exclude_loop
  exclude_loop-any [] m skip = ground arith
  exclude_loop-any (entry ∷ rest) m skip =
      ground (arith, exclude_loop-any rest m true, exclude_loop-any rest m skip)

  pub apply_exclude-any :
      (filter : Dict (Option regexp.Regex)) (m : Dict Bytes)
      → apply_exclude_filter_to_security_events regexp filter m ≡ any (excludes regexp m) filter
  unfolding apply_exclude_filter_to_security_events
  apply_exclude-any [] m = refl
  apply_exclude-any (entry ∷ rest) m = ground (arith, exclude_loop-any (entry ∷ rest) m false)

  -- In whatever order the entries of the filter are visited, an event is skipped alike: exactly if
  -- some entry has an expression that matches the field of its name, and that field is not empty.
  pub apply_exclude_order :
      (filter filter' : Dict (Option regexp.Regex)) (m : Dict Bytes)
      → Perm filter filter'
      → (apply_exclude_filter_to_security_events regexp filter m
          ≡ apply_exclude_filter_to_security_events regexp filter' m)
        × (apply_exclude_filter_to_security_events regexp filter m ≡ any (excludes regexp m) filter)
  apply_exclude_order filter filter' m h =
      rw (apply_exclude-any filter m, apply_exclude-any filter' m)
        (any-perm (excludes regexp m) h, refl)
