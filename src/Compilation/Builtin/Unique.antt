-- ===== src/Compilation/Builtin/Unique.antt =====
-- `dict.fromkeys` keeps every id, so two ids that differ are two of its keys.
use academic_affairs_system.Common.{
  ◌≤◌, ◌≡◌, ◌≢◌, refl, sym, ◌∙◌, ◌⊎◌, inl, inr, true, List, [], ◌∷◌, arith, Elem, Elem-append,
  Elem-append_left, Elem-append_right, Bool-cases, length, subst,
}
use academic_affairs_system.Common.Text.{Text, text_eq_iff, contains, Elem-of-contains, set_add}
use academic_affairs_system.Compilation.Constraints.{unique_from, unique}

pub contains-of-Elem : (x : Text) (xs : List Text) → Elem x xs → contains x xs ≡ true
contains-of-Elem x [] m = absurd m
contains-of-Elem x (y ∷ ys) m = ground (arith, text_eq_iff x y, contains-of-Elem x ys)

pub set_add_self : (x : Text) (xs : List Text) → Elem x (set_add x xs)
set_add_self x xs = elim (Bool-cases (contains x xs)) [
  | inl e ↦ rw e (Elem-of-contains x xs e)
  | inr e ↦ rw e (Elem-append_right x xs (x ∷ []) (inl refl))
]

pub set_add-keeps : (x y : Text) (xs : List Text) → Elem x xs → Elem x (set_add y xs)
set_add-keeps x y xs m = elim (Bool-cases (contains y xs)) [
  | inl e ↦ rw e m
  | inr e ↦ rw e (Elem-append_left x xs (y ∷ []) m)
]

pub Elem-set_add : (x y : Text) (xs : List Text) → Elem x (set_add y xs) → (x ≡ y) ⊎ Elem x xs
Elem-set_add x y xs m = elim (Bool-cases (contains y xs)) [
  | inl e ↦ inr (rw e at m)
  | inr e ↦ elim (Elem-append x xs (y ∷ []) (rw e at m)) [
    | inl old ↦ inr old
    | inr new ↦ elim new [ inl same ↦ inl same | inr n ↦ absurd n ]
  ]
]

unique_from-keeps :
    (x : Text) (ids seen : List Text) → Elem x ids ⊎ Elem x seen → Elem x (unique_from ids seen)
unfolding unique_from
unique_from-keeps x [] seen (inl m) = absurd m
unique_from-keeps x [] seen (inr m) = m
unique_from-keeps x (y ∷ ys) seen (inl (inl e)) =
    unique_from-keeps x ys (set_add y seen)
      (inr (subst (λ z. Elem x (set_add z seen)) e (set_add_self x seen)))
unique_from-keeps x (y ∷ ys) seen (inl (inr m)) = unique_from-keeps x ys (set_add y seen) (inl m)
unique_from-keeps x (y ∷ ys) seen (inr m) =
    unique_from-keeps x ys (set_add y seen) (inr (set_add-keeps x y seen m))

pub unique-keeps : (x : Text) (ids : List Text) → Elem x ids → Elem x (unique ids)
unfolding unique
unique-keeps x ids m = unique_from-keeps x ids [] (inl m)

-- Two different elements need two places.
pub two-in-length : (x y : Text) (xs : List Text) → Elem x xs → Elem y xs → x ≢ y → 2 ≤ length xs
two-in-length x y [] m n ne = absurd m
two-in-length x y (z ∷ []) (inl e) (inl f) ne = absurd (ne (e ∙ sym f))
two-in-length x y (z ∷ []) (inl e) (inr n) ne = absurd n
two-in-length x y (z ∷ []) (inr m) n ne = absurd m
two-in-length x y (z ∷ w ∷ xs) m n ne = omega arith
