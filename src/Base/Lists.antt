-- ===== src/Base/Lists.antt =====
-- Lists measured by the native numbers, and membership as a Boolean.
use Prim.Native.Nat.{ℕ, suc, ◌+◌}
use mathlib.Core.Path.{◌≡◌, refl}
use mathlib.Core.Logic.{ite, if_pos, ◌⊎◌}
use mathlib.Core.Bool.{Bool, true, false}
use mathlib.Core.List.{List, [], ◌∷◌, ◌++◌}
use native.Mathlib.Omega.{arith}

module _ {ℓ} {A : Type ℓ} where
  abbrev pub length : List A → ℕ
  length [] = 0
  length (x ∷ xs) = suc (length xs)

  pub length-append : (xs ys : List A) → length (xs ++ ys) ≡ length xs + length ys
  length-append [] ys = omega arith
  length-append (x ∷ xs) ys = omega (arith, length-append xs ys)

module _ {ℓ} {K : Type ℓ} (dec : Discrete K) where
  unfoldable pub has : K → List K → Bool
  has x [] = false
  has x (y ∷ ys) = ite (dec x y) true (has x ys)

  pub has-cons : (x y : K) (ys : List K) → has x (y ∷ ys) ≡ ite (dec x y) true (has x ys)
  unfolding has
  has-cons x y ys = refl

  pub has_self : (x : K) (ys : List K) → has x (x ∷ ys) ≡ true
  unfolding has
  has_self x ys = if_pos (dec x x) refl _ _

  -- Appending one element, as the queue does.
  pub has-snoc : (x y : K) (ys : List K) → has x (ys ++ y ∷ []) ≡ ite (dec x y) true (has x ys)
  unfolding has
  has-snoc x y [] = refl
  has-snoc x y (z ∷ zs) = ground (arith, has-snoc x y zs)

  -- No element twice.
  abbrev pub IsDistinct : List K → Type 0
  IsDistinct [] = Unit {0}
  IsDistinct (x ∷ xs) = (has x xs ≡ false) × IsDistinct xs

  pub snoc-IsDistinct :
      (x : K) (xs : List K) → has x xs ≡ false → IsDistinct xs → IsDistinct (xs ++ x ∷ [])
  unfolding has
  snoc-IsDistinct x [] h d = (refl, tt)
  snoc-IsDistinct x (y ∷ ys) h d =
      (ground (arith, has-snoc y x ys), snoc-IsDistinct x ys (ground arith) d.1)

-- Membership as a type.
abbrev pub In : {A : Type 0} → A → List A → Type 0
In x [] = ⊥
In x (y ∷ ys) = (x ≡ y) ⊎ In x ys
