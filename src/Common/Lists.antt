-- ===== src/Common/Lists.antt =====
-- Lists measured by native numbers, Python's comprehensions, `any` and `sum` over them, and
-- membership as a type that the tactics read.
use Prim.Native.Nat.{ℕ, suc, ◌+◌}
use mathlib.Core.Path.{◌≡◌}
use mathlib.Core.Logic.{◌⊎◌, inl, inr}
use mathlib.Core.Bool.{Bool, true, false, ◌||◌}
use mathlib.Core.List.{List, [], ◌∷◌, ◌++◌}
use native.Mathlib.Omega.{arith}
use academic_affairs_system.Common.Tests.{if◌then◌else◌}

module _ {ℓ} {A : Type ℓ} where
  abbrev pub length : List A → ℕ
  length [] = 0
  length (x ∷ xs) = suc (length xs)

  abbrev pub any : (A → Bool) → List A → Bool
  any p [] = false
  any p (x ∷ xs) = p x || any p xs

  -- `[x for x in xs if p x]`
  abbrev pub select : (A → Bool) → List A → List A
  select p [] = []
  select p (x ∷ xs) = let rest = select p xs in if p x then x ∷ rest else rest

  -- `sum(f x for x in xs)`
  abbrev pub sum_of : (A → ℕ) → List A → ℕ
  sum_of f [] = 0
  sum_of f (x ∷ xs) = f x + sum_of f xs

  abbrev pub All {κ} : (A → Type κ) → List A → Type κ
  All P [] = Unit
  All P (x ∷ xs) = P x × All P xs

  pub length-append : (xs ys : List A) → length (xs ++ ys) ≡ length xs + length ys
  length-append [] ys = omega arith
  length-append (x ∷ xs) ys = omega (arith, length-append xs ys)

module _ {A : Type 0} where
  -- `x` stands in the list.
  abbrev pub Elem : A → List A → Type 0
  Elem x [] = ⊥
  Elem x (y ∷ ys) = (x ≡ y) ⊎ Elem x ys

  -- Every element of the first list stands in the second.
  abbrev pub Within : List A → List A → Type 0
  Within xs ys = (x : A) → Elem x xs → Elem x ys

  pub any-false : (p : A → Bool) (xs : List A) (x : A) → any p xs ≡ false → Elem x xs → p x ≡ false
  any-false p [] x h m = absurd m
  any-false p (y ∷ ys) x h (inl e) = ground arith
  any-false p (y ∷ ys) x h (inr m) = any-false p ys x (ground arith) m

  pub Elem-append_left : (x : A) (xs ys : List A) → Elem x xs → Elem x (xs ++ ys)
  Elem-append_left x [] ys m = absurd m
  Elem-append_left x (y ∷ xs) ys (inl e) = inl e
  Elem-append_left x (y ∷ xs) ys (inr m) = inr (Elem-append_left x xs ys m)

  pub Elem-append_right : (x : A) (xs ys : List A) → Elem x ys → Elem x (xs ++ ys)
  Elem-append_right x [] ys m = m
  Elem-append_right x (y ∷ xs) ys m = inr (Elem-append_right x xs ys m)

  pub Elem-append : (x : A) (xs ys : List A) → Elem x (xs ++ ys) → Elem x xs ⊎ Elem x ys
  Elem-append x [] ys m = inr m
  Elem-append x (y ∷ xs) ys (inl e) = inl (inl e)
  Elem-append x (y ∷ xs) ys (inr m) = elim (Elem-append x xs ys m) [
    | inl a ↦ inl (inr a)
    | inr b ↦ inr b
  ]

  pub Elem-select :
      (p : A → Bool) (x : A) (xs : List A) → Elem x (select p xs) → Elem x xs × (p x ≡ true)
  Elem-select p x [] m = absurd m
  Elem-select p x (y ∷ ys) m = ground (arith, Elem-select p x ys)

  pub select_keeps :
      (p : A → Bool) (x : A) (xs : List A) → Elem x xs → p x ≡ true → Elem x (select p xs)
  select_keeps p x [] m h = absurd m
  select_keeps p x (y ∷ ys) m h = ground (arith, select_keeps p x ys)
