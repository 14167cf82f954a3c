-- ===== src/Validation/Occupied.antt =====
-- The set of the occupied periods: its members, and that it rises.
use academic_affairs_system.Common.{
  ℕ, zero, suc, ◌+◌, ◌≤◌, ◌<◌, ◌≡◌, refl, subst, ◌⊎◌, inl, inr, true, false, List, [], ◌∷◌, arith,
  Elem, Bool-cases, ltb, ◌==◌,
}
use academic_affairs_system.CpSat.Limits.{numbers_from}
use academic_affairs_system.Validation.{Placement, add_number, add_numbers, occupied}

-- Each number is below the later ones.
abbrev pub IsRising : List ℕ → Type 0
IsRising [] = Unit
IsRising (n ∷ ns) = ((k : ℕ) → Elem k ns → n < k) × IsRising ns

-- Some placement takes the period.
abbrev pub IsTaken : ℕ → List Placement → Type 0
IsTaken n ps = (p : Placement) × Elem p ps × (p.start ≤ n) × (n < p.start + p.span)

Elem-add_number : (n k : ℕ) (ns : List ℕ) → Elem k (add_number n ns) → (k ≡ n) ⊎ Elem k ns
unfolding add_number
Elem-add_number n k [] m = ground arith
Elem-add_number n k (j ∷ ns) m = ground (arith, Elem-add_number n k ns)

add_number-Elem : (n k : ℕ) (ns : List ℕ) → (k ≡ n) ⊎ Elem k ns → Elem k (add_number n ns)
unfolding add_number
add_number-Elem n k [] m = ground arith
add_number-Elem n k (j ∷ ns) m = ground (arith, add_number-Elem n k ns)

add_number-IsRising : (n : ℕ) (ns : List ℕ) → IsRising ns → IsRising (add_number n ns)
unfolding add_number
add_number-IsRising n [] r = ((λ k m. absurd m), tt)
add_number-IsRising n (j ∷ ns) r = elim (Bool-cases (ltb n j)) [
  | inl e ↦ rw e (below e, r)
  | inr e ↦ elim (Bool-cases (n == j)) [
    | inl f ↦ rw (e, f) r
    | inr f ↦ rw (e, f) (above e f, add_number-IsRising n ns r.1)
  ]
]
  where
    below : ltb n j ≡ true → (k : ℕ) → Elem k (j ∷ ns) → n < k
    below e k (inl m) = ground arith
    below e k (inr m) = ground (arith, r.0 k m)

    above : ltb n j ≡ false → (n == j) ≡ false → (k : ℕ) → Elem k (add_number n ns) → j < k
    above e f k m = ground (arith, Elem-add_number n k ns m, r.0 k)

add_numbers-IsRising : (ns set : List ℕ) → IsRising set → IsRising (add_numbers ns set)
unfolding add_numbers
add_numbers-IsRising [] set r = r
add_numbers-IsRising (n ∷ ns) set r =
    add_numbers-IsRising ns (add_number n set) (add_number-IsRising n set r)

pub occupied-IsRising :
    (ps : List Placement) (set : List ℕ) → IsRising set → IsRising (occupied ps set)
unfolding occupied
occupied-IsRising [] set r = r
occupied-IsRising (p ∷ ps) set r =
    occupied-IsRising ps (add_numbers (numbers_from p.start p.span) set)
      (add_numbers-IsRising (numbers_from p.start p.span) set r)

Elem-numbers_from : (first n k : ℕ) → Elem k (numbers_from first n) → (first ≤ k) × (k < first + n)
Elem-numbers_from first zero k m = absurd m
Elem-numbers_from first (suc n) k m = ground (arith, Elem-numbers_from (first + 1) n k)

numbers_from-Elem : (first n k : ℕ) → first ≤ k → k < first + n → Elem k (numbers_from first n)
numbers_from-Elem first zero k low high = ground arith
numbers_from-Elem first (suc n) k low high = ground (arith, numbers_from-Elem (first + 1) n k)

Elem-add_numbers : (ns set : List ℕ) (k : ℕ) → Elem k (add_numbers ns set) → Elem k ns ⊎ Elem k set
unfolding add_numbers
Elem-add_numbers [] set k m = inr m
Elem-add_numbers (n ∷ ns) set k m = elim (Elem-add_numbers ns (add_number n set) k m) [
  | inl a ↦ inl (inr a)
  | inr b ↦ elim (Elem-add_number n k set b) [ inl e ↦ inl (inl e) | inr c ↦ inr c ]
]

add_numbers-Elem : (ns set : List ℕ) (k : ℕ) → Elem k ns ⊎ Elem k set → Elem k (add_numbers ns set)
unfolding add_numbers
add_numbers-Elem [] set k (inl m) = absurd m
add_numbers-Elem [] set k (inr m) = m
add_numbers-Elem (n ∷ ns) set k (inl (inl e)) =
    add_numbers-Elem ns (add_number n set) k (inr (add_number-Elem n k set (inl e)))
add_numbers-Elem (n ∷ ns) set k (inl (inr m)) = add_numbers-Elem ns (add_number n set) k (inl m)
add_numbers-Elem (n ∷ ns) set k (inr m) =
    add_numbers-Elem ns (add_number n set) k (inr (add_number-Elem n k set (inr m)))

IsTaken-later : (n : ℕ) (p : Placement) (ps : List Placement) → IsTaken n ps → IsTaken n (p ∷ ps)
IsTaken-later n p ps (q, m, low, high) = (q, inr m, low, high)

-- The members of the set are the periods that some placement takes.
pub Elem-occupied :
    (ps : List Placement) (set : List ℕ) (k : ℕ)
    → Elem k (occupied ps set)
    → IsTaken k ps ⊎ Elem k set
unfolding occupied
Elem-occupied [] set k m = inr m
Elem-occupied (p ∷ ps) set k m =
    elim (Elem-occupied ps (add_numbers (numbers_from p.start p.span) set) k m) [
      | inl t ↦ inl (IsTaken-later k p ps t)
      | inr a ↦ elim (Elem-add_numbers (numbers_from p.start p.span) set k a) [
        | inl b ↦
            let (low, high) = Elem-numbers_from p.start p.span k b in inl (p, inl refl, low, high)
        | inr b ↦ inr b
      ]
    ]

pub occupied-Elem :
    (ps : List Placement) (set : List ℕ) (k : ℕ)
    → IsTaken k ps ⊎ Elem k set
    → Elem k (occupied ps set)
unfolding occupied
occupied-Elem [] set k (inl (q, m, low, high)) = absurd m
occupied-Elem [] set k (inr m) = m
occupied-Elem (p ∷ ps) set k (inl (q, inl e, low, high)) =
    occupied-Elem ps (add_numbers (numbers_from p.start p.span) set) k (
      inr (
        add_numbers-Elem (numbers_from p.start p.span) set k (
          inl (
            subst (λ (z : Placement). Elem k (numbers_from z.start z.span)) e
              (numbers_from-Elem q.start q.span k low high)))))
occupied-Elem (p ∷ ps) set k (inl (q, inr m, low, high)) =
    occupied-Elem ps (add_numbers (numbers_from p.start p.span) set) k (inl (q, m, low, high))
occupied-Elem (p ∷ ps) set k (inr m) =
    occupied-Elem ps (add_numbers (numbers_from p.start p.span) set) k
      (inr (add_numbers-Elem (numbers_from p.start p.span) set k (inr m)))
