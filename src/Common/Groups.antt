-- ===== src/Common/Groups.antt =====
-- Python's `groups.setdefault(key(x), []).append(x)` over a list: the groups in the order in which
-- their keys are first met.
use academic_affairs_system.Common.Lists.{Elem, Elem-append, Elem-append_left, Elem-append_right}
use academic_affairs_system.Common.Tests.{if◌then◌else◌, Bool-cases}
use mathlib.Core.Path.{◌≡◌, refl, sym, ap, subst, ◌∙◌}
use mathlib.Core.Logic.{◌⊎◌, inl, inr}
use mathlib.Core.Bool.{Bool, true}
use mathlib.Core.List.{List, [], ◌∷◌, ◌++◌}

module _ {K A : Type 0} (eq : K → K → Bool) where
  abbrev pub add_to : K → A → List (K × List A) → List (K × List A)
  add_to k x [] = (k, x ∷ []) ∷ []
  add_to k x ((j, xs) ∷ groups) =
      if eq j k then (j, xs ++ x ∷ []) ∷ groups else (j, xs) ∷ add_to k x groups

  unfoldable pub group_from : (A → K) → List A → List (K × List A) → List (K × List A)
  group_from key [] groups = groups
  group_from key (x ∷ xs) groups = group_from key xs (add_to (key x) x groups)

module _ {K A : Type 0} where
  -- The element stands in one of the groups.
  abbrev pub InGroup : A → List (K × List A) → Type 0
  InGroup x [] = ⊥
  InGroup x ((k, ys) ∷ groups) = Elem x ys ⊎ InGroup x groups

  -- Every member of a group has the group's key.
  abbrev pub IsKeyed : (A → K) → List (K × List A) → Type 0
  IsKeyed key [] = Unit
  IsKeyed key ((k, ys) ∷ groups) = ((y : A) → Elem y ys → key y ≡ k) × IsKeyed key groups

module _ {K A : Type 0} (eq : K → K → Bool) (eq_sound : (a b : K) → eq a b ≡ true → a ≡ b)
    (key : A → K) where
  add_to-IsKeyed :
      (x : A) (groups : List (K × List A))
      → IsKeyed key groups
      → IsKeyed key (add_to eq (key x) x groups)
  add_to-IsKeyed x [] h = ((λ y m. elim m [ inl e ↦ ap key e | inr n ↦ absurd n ]), tt)
  add_to-IsKeyed x ((j, xs) ∷ groups) h = elim (Bool-cases (eq j (key x))) [
    | inl e ↦ rw e (grown e, h.1)
    | inr e ↦ rw e (h.0, add_to-IsKeyed x groups h.1)
  ]
    where
      grown : eq j (key x) ≡ true → (y : A) → Elem y (xs ++ x ∷ []) → key y ≡ j
      grown e y m = elim (Elem-append y xs (x ∷ []) m) [
        | inl old ↦ h.0 y old
        | inr new ↦ elim new [
          | inl same ↦ ap key same ∙ sym (eq_sound j (key x) e)
          | inr n ↦ absurd n
        ]
      ]

  pub group_from-IsKeyed :
      (xs : List A) (groups : List (K × List A))
      → IsKeyed key groups
      → IsKeyed key (group_from eq key xs groups)
  unfolding group_from
  group_from-IsKeyed [] groups h = h
  group_from-IsKeyed (x ∷ xs) groups h =
      group_from-IsKeyed xs (add_to eq (key x) x groups) (add_to-IsKeyed x groups h)

module _ {K A : Type 0} (eq : K → K → Bool) (key : A → K) where
  add_to_self : (k : K) (x : A) (groups : List (K × List A)) → InGroup x (add_to eq k x groups)
  add_to_self k x [] = inl (inl refl)
  add_to_self k x ((j, xs) ∷ groups) = elim (Bool-cases (eq j k)) [
    | inl e ↦ rw e (inl (Elem-append_right x xs (x ∷ []) (inl refl)))
    | inr e ↦ rw e (inr (add_to_self k x groups))
  ]

  add_to_keeps :
      (k : K) (x y : A) (groups : List (K × List A))
      → InGroup y groups
      → InGroup y (add_to eq k x groups)
  add_to_keeps k x y [] m = absurd m
  add_to_keeps k x y ((j, xs) ∷ groups) m = elim (Bool-cases (eq j k)) [
    | inl e ↦ rw e (elim m [ inl a ↦ inl (Elem-append_left y xs (x ∷ []) a) | inr b ↦ inr b ])
    | inr e ↦ rw e (elim m [ inl a ↦ inl a | inr b ↦ inr (add_to_keeps k x y groups b) ])
  ]

  group_from_keeps :
      (y : A) (xs : List A) (groups : List (K × List A))
      → InGroup y groups
      → InGroup y (group_from eq key xs groups)
  unfolding group_from
  group_from_keeps y [] groups m = m
  group_from_keeps y (x ∷ xs) groups m =
      group_from_keeps y xs (add_to eq (key x) x groups) (add_to_keeps (key x) x y groups m)

  -- Every element of the list stands in a group.
  pub group_from-InGroup :
      (y : A) (xs : List A) (groups : List (K × List A))
      → Elem y xs
      → InGroup y (group_from eq key xs groups)
  unfolding group_from
  group_from-InGroup y [] groups m = absurd m
  group_from-InGroup y (x ∷ xs) groups (inl e) =
      group_from_keeps y xs (add_to eq (key x) x groups)
        (subst (λ w. InGroup w (add_to eq (key x) x groups)) (sym e) (add_to_self (key x) x groups))
  group_from-InGroup y (x ∷ xs) groups (inr m) =
      group_from-InGroup y xs (add_to eq (key x) x groups) m

-- Both elements stand in one group.
abbrev pub Joined : {K A : Type 0} → A → A → List (K × List A) → Type 0
Joined x y [] = ⊥
Joined x y ((k, ys) ∷ groups) = (Elem x ys × Elem y ys) ⊎ Joined x y groups

module _ {K A : Type 0} (eq : K → K → Bool) (eq_self : (k : K) → eq k k ≡ true) where
  -- The element stands in the first group with the key.
  abbrev InFirst : K → A → List (K × List A) → Type 0
  InFirst k x [] = ⊥
  InFirst k x ((j, ys) ∷ groups) = if eq j k then Elem x ys else InFirst k x groups

  InFirst-self : (k : K) (x : A) (groups : List (K × List A)) → InFirst k x (add_to eq k x groups)
  InFirst-self k x [] = rw (eq_self k) (inl refl)
  InFirst-self k x ((j, ys) ∷ groups) = elim (Bool-cases (eq j k)) [
    | inl e ↦ rw (e, e) (Elem-append_right x ys (x ∷ []) (inl refl))
    | inr e ↦ rw (e, e) (InFirst-self k x groups)
  ]

  InFirst-keeps :
      (k j : K) (x y : A) (groups : List (K × List A))
      → InFirst k x groups
      → InFirst k x (add_to eq j y groups)
  InFirst-keeps k j x y [] m = absurd m
  InFirst-keeps k j x y ((i, ys) ∷ groups) m = elim (Bool-cases (eq i j)) [
    | inl e ↦ elim (Bool-cases (eq i k)) [
      | inl f ↦ rw (e, f) (Elem-append_left x ys (y ∷ []) (rw f at m))
      | inr f ↦ rw (e, f) (rw f at m)
    ]
    | inr e ↦ elim (Bool-cases (eq i k)) [
      | inl f ↦ rw (e, f) (rw f at m)
      | inr f ↦ rw (e, f) (InFirst-keeps k j x y groups (rw f at m))
    ]
  ]

  Joined-of-InFirst :
      (k : K) (x y : A) (groups : List (K × List A))
      → InFirst k x groups
      → InFirst k y groups
      → Joined x y groups
  Joined-of-InFirst k x y [] m n = absurd m
  Joined-of-InFirst k x y ((j, ys) ∷ groups) m n = elim (Bool-cases (eq j k)) [
    | inl e ↦ inl (rw e at m, rw e at n)
    | inr e ↦ inr (Joined-of-InFirst k x y groups (rw e at m) (rw e at n))
  ]

  module _ (key : A → K) where
    group_from_keeps_first :
        (k : K) (y : A) (xs : List A) (groups : List (K × List A))
        → InFirst k y groups
        → InFirst k y (group_from eq key xs groups)
    unfolding group_from
    group_from_keeps_first k y [] groups m = m
    group_from_keeps_first k y (x ∷ xs) groups m =
        group_from_keeps_first k y xs (add_to eq (key x) x groups)
          (InFirst-keeps k (key x) y x groups m)

    group_from-InFirst :
        (y : A) (xs : List A) (groups : List (K × List A))
        → Elem y xs
        → InFirst (key y) y (group_from eq key xs groups)
    unfolding group_from
    group_from-InFirst y [] groups m = absurd m
    group_from-InFirst y (x ∷ xs) groups (inl e) =
        group_from_keeps_first (key y) y xs (add_to eq (key x) x groups) (
          subst (λ w. InFirst (key y) y (add_to eq (key w) w groups)) e
            (InFirst-self (key y) y groups))
    group_from-InFirst y (x ∷ xs) groups (inr m) =
        group_from-InFirst y xs (add_to eq (key x) x groups) m

    -- Two elements with one key stand in one group.
    pub group_from-Joined :
        (x y : A) (xs : List A)
        → Elem x xs
        → Elem y xs
        → key x ≡ key y
        → Joined x y (group_from eq key xs [])
    group_from-Joined x y xs i j e =
        Joined-of-InFirst (key y) x y (group_from eq key xs [])
          (subst (λ k. InFirst k x (group_from eq key xs [])) e (group_from-InFirst x xs [] i))
          (group_from-InFirst y xs [] j)
