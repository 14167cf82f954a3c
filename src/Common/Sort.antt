-- ===== src/Common/Sort.antt =====
-- Python's `sorted`, a stable sort, and `min` with a key, the first of the least.
use academic_affairs_system.Common.Lists.{Elem}
use academic_affairs_system.Common.Tests.{if◌then◌else◌, Bool-cases}
use mathlib.Core.Path.{◌≡◌, refl, sym, subst}
use mathlib.Core.Logic.{◌⊎◌, inl, inr}
use mathlib.Core.Bool.{Bool, true, false}
use mathlib.Core.List.{List, [], ◌∷◌, Perm}
use mathlib.Core.List.Perm
use native.Mathlib.Omega.{arith}

-- `lt` orders the keys: it is a strict weak order.
pub record Order {A : Type 0} (lt : A → A → Bool) : Type 0 where
  pub asymm : (a b : A) → lt a b ≡ true → lt b a ≡ false
  pub weak_trans : (a b c : A) → lt b a ≡ false → lt c b ≡ false → lt c a ≡ false

module _ {A : Type 0} (lt : A → A → Bool) where
  -- `x` goes before the first element that is not below it, so equal elements keep their order.
  abbrev pub insert_by : A → List A → List A
  insert_by x [] = x ∷ []
  insert_by x (y ∷ ys) = if lt y x then y ∷ insert_by x ys else x ∷ y ∷ ys

  abbrev pub sort_by : List A → List A
  sort_by [] = []
  sort_by (x ∷ xs) = insert_by x (sort_by xs)

  -- The first of the least elements of `best ∷ xs`.
  abbrev pub min_from : A → List A → A
  min_from best [] = best
  min_from best (x ∷ xs) = min_from (if lt x best then x else best) xs

  pub Elem-insert_by : (x z : A) (ys : List A) → Elem z (insert_by x ys) → (z ≡ x) ⊎ Elem z ys
  Elem-insert_by x z [] m = ground arith
  Elem-insert_by x z (y ∷ ys) m = ground (arith, Elem-insert_by x z ys)

  pub insert_by-perm : (x : A) (ys : List A) → Perm (insert_by x ys) (x ∷ ys)
  insert_by-perm x [] = Perm.refl (x ∷ [])
  insert_by-perm x (y ∷ ys) = elim (Bool-cases (lt y x)) [
    | inl e ↦ rw e (Perm.trans (Perm.cons y (insert_by-perm x ys)) (Perm.swap x y ys))
    | inr e ↦ rw e (Perm.refl (x ∷ y ∷ ys))
  ]

  pub sort_by-perm : (xs : List A) → Perm (sort_by xs) xs
  sort_by-perm [] = Perm.refl []
  sort_by-perm (x ∷ xs) = Perm.trans (insert_by-perm x (sort_by xs)) (Perm.cons x (sort_by-perm xs))

  pub Elem-sort_by : (z : A) (xs : List A) → Elem z (sort_by xs) → Elem z xs
  Elem-sort_by z [] m = m
  Elem-sort_by z (x ∷ xs) m = ground (arith, Elem-insert_by x z (sort_by xs), Elem-sort_by z xs)

  insert_by_keeps : (x z : A) (ys : List A) → (z ≡ x) ⊎ Elem z ys → Elem z (insert_by x ys)
  insert_by_keeps x z [] m = ground arith
  insert_by_keeps x z (y ∷ ys) m = ground (arith, insert_by_keeps x z ys)

  pub sort_by_keeps : (z : A) (xs : List A) → Elem z xs → Elem z (sort_by xs)
  sort_by_keeps z [] m = m
  sort_by_keeps z (x ∷ xs) m = ground (arith, insert_by_keeps x z (sort_by xs), sort_by_keeps z xs)

module _ {A : Type 0} {lt : A → A → Bool} (o : Order lt) where
  pub min_from-Elem : (best : A) (xs : List A) → Elem (min_from lt best xs) (best ∷ xs)
  min_from-Elem best [] = inl refl
  min_from-Elem best (x ∷ xs) = elim (min_from-Elem (if lt x best then x else best) xs) [
    | inl h ↦ ground arith
    | inr m ↦ inr (inr m)
  ]

  min_from_below_best : (best : A) (xs : List A) → lt best (min_from lt best xs) ≡ false
  min_from_below_best best [] = elim (Bool-cases (lt best best)) [
    | inl e ↦ o.asymm best best e
    | inr e ↦ e
  ]
  min_from_below_best best (x ∷ xs) = elim (Bool-cases (lt x best)) [
    | inl e ↦
        rw e (o.weak_trans (min_from lt x xs) x best (min_from_below_best x xs) (o.asymm x best e))
    | inr e ↦ rw e (min_from_below_best best xs)
  ]

  -- No element is below the minimum.
  pub min_from_least :
      (best : A) (xs : List A) (y : A) → Elem y (best ∷ xs) → lt y (min_from lt best xs) ≡ false
  min_from_least best xs y (inl e) =
      subst (λ w. lt w (min_from lt best xs) ≡ false) (sym e) (min_from_below_best best xs)
  min_from_least best [] y (inr m) = absurd m
  min_from_least best (x ∷ xs) y (inr (inl e)) = elim (Bool-cases (lt x best)) [
    | inl d ↦ rw d (min_from_least x xs y (inl e))
    | inr d ↦ rw d (
        subst (λ w. lt w (min_from lt best xs) ≡ false) (sym e)
          (o.weak_trans (min_from lt best xs) best x (min_from_below_best best xs) d))
  ]
  min_from_least best (x ∷ xs) y (inr (inr m)) = elim (Bool-cases (lt x best)) [
    | inl d ↦ rw d (min_from_least x xs y (inr m))
    | inr d ↦ rw d (min_from_least best xs y (inr m))
  ]
