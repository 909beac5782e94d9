-- ===== src/Base/Lists.antt =====
-- Lists measured by native numbers, under the library's names.
use Prim.Native.Nat.{ℕ, zero, suc, ◌+◌, ◌-◌, ◌≤◌}
use mathlib.Core.Path.{◌≡◌, refl, ap}
use mathlib.Core.Bool.{Bool, false, ◌||◌}
use mathlib.Core.List.{List, [], ◌∷◌, ◌++◌, map, reverse, reverse-cons}
use mathlib.Core.Option.{Option, none, some}
use native.Mathlib.Omega.{arith}
use dhound_agent.Base.Tests.{or_assoc}

module _ {ℓ} {A : Type ℓ} where
  abbrev pub length : List A → ℕ
  length [] = 0
  length (x ∷ xs) = suc (length xs)

  pub length-append : (xs ys : List A) → length (xs ++ ys) ≡ length xs + length ys
  length-append [] ys = omega arith
  length-append (x ∷ xs) ys = omega (arith, length-append xs ys)

  abbrev pub get_elem? : List A → ℕ → Option A
  get_elem? [] i = none
  get_elem? (x ∷ xs) zero = some x
  get_elem? (x ∷ xs) (suc i) = get_elem? xs i

  -- A change at a position out of bounds changes nothing.
  abbrev pub modify : List A → ℕ → (A → A) → List A
  modify [] i f = []
  modify (x ∷ xs) zero f = f x ∷ xs
  modify (x ∷ xs) (suc i) f = x ∷ modify xs i f

  abbrev pub any : (A → Bool) → List A → Bool
  any p [] = false
  any p (x ∷ xs) = p x || any p xs

module _ {ℓ} {A : Type ℓ} where
  pub any-append : (p : A → Bool) (xs ys : List A) → any p (xs ++ ys) ≡ any p xs || any p ys
  any-append p [] ys = refl
  any-append p (x ∷ xs) ys = rw (any-append p xs ys, or_assoc)

  -- Every element satisfies the predicate.
  abbrev pub All {κ} : (A → Type κ) → List A → Type κ
  All P [] = Unit
  All P (x ∷ xs) = P x × All P xs

  pub All-append {κ} : (P : A → Type κ) (xs ys : List A) → All P xs → All P ys → All P (xs ++ ys)
  All-append P [] ys hx hy = hy
  All-append P (x ∷ xs) ys hx hy = (hx.0, All-append P xs ys hx.1 hy)

sub_zero : (n : ℕ) → n - 0 ≡ n
sub_zero n = omega arith

sub_suc : (m n : ℕ) → suc m - suc n ≡ m - n
sub_suc m n = omega arith

module _ {ℓ} {A : Type ℓ} where
  abbrev pub take : ℕ → List A → List A
  take zero xs = []
  take (suc n) [] = []
  take (suc n) (x ∷ xs) = x ∷ take n xs

  abbrev pub drop : ℕ → List A → List A
  drop zero xs = xs
  drop (suc n) [] = []
  drop (suc n) (x ∷ xs) = drop n xs

  pub take-append-drop : (n : ℕ) (xs : List A) → take n xs ++ drop n xs ≡ xs
  take-append-drop zero xs = refl
  take-append-drop (suc n) [] = refl
  take-append-drop (suc n) (x ∷ xs) = rw (take-append-drop n xs)

  take_nil : (n : ℕ) → ◌≡◌ {A = List A} (take n [] ++ []) []
  take_nil zero = refl
  take_nil (suc n) = refl

  -- The part from `i` up to `j`, and what starts at `j`.
  pub drop_between :
      (i j : ℕ) (xs : List A) → i ≤ j → take (j - i) (drop i xs) ++ drop j xs ≡ drop i xs
  drop_between zero j xs h = rw (sub_zero j) (take-append-drop j xs)
  drop_between (suc i) zero xs h = absurd (omega arith)
  drop_between (suc i) (suc j) [] h = rw (sub_suc j i) (take_nil (j - i))
  drop_between (suc i) (suc j) (x ∷ xs) h = rw (sub_suc j i) (drop_between i j xs (omega arith))

module _ {ℓ κ} {A : Type ℓ} (P : A → Type κ) where
  pub All-reverse : (xs : List A) → All P xs → All P (reverse xs)
  All-reverse [] h = tt
  All-reverse (x ∷ xs) h =
      rw (reverse-cons x xs) (All-append P (reverse xs) (x ∷ []) (All-reverse xs h.1) (h.0, tt))

  pub All-map {ν} :
      {B : Type ν} (f : B → A) → ((b : B) → P (f b)) → (ys : List B) → All P (map f ys)
  All-map f h [] = tt
  All-map f h (y ∷ ys) = (h y, All-map f h ys)

pub length-modify {ℓ} :
    {A : Type ℓ} (xs : List A) (i : ℕ) (f : A → A) → length (modify xs i f) ≡ length xs
length-modify [] i f = refl
length-modify (x ∷ xs) zero f = refl
length-modify (x ∷ xs) (suc i) f = ap suc (length-modify xs i f)

pub modify-twice {ℓ} :
    {A : Type ℓ} (xs : List A) (i : ℕ) (f g : A → A)
    → modify (modify xs i f) i g ≡ modify xs i (λ x. g (f x))
modify-twice [] i f g = refl
modify-twice (x ∷ xs) zero f g = refl
modify-twice (x ∷ xs) (suc i) f g = ap (◌∷◌ x) (modify-twice xs i f g)

pub modify-nothing {ℓ} : {A : Type ℓ} (xs : List A) (i : ℕ) → modify xs i (λ x. x) ≡ xs
modify-nothing [] i = refl
modify-nothing (x ∷ xs) zero = refl
modify-nothing (x ∷ xs) (suc i) = ap (◌∷◌ x) (modify-nothing xs i)

pub modify-last {ℓ} :
    {A : Type ℓ} (xs : List A) (x : A) (f : A → A)
    → get_elem? (modify (xs ++ x ∷ []) (length xs) f) (length xs) ≡ some (f x)
modify-last [] x f = refl
modify-last (y ∷ xs) x f = modify-last xs x f
