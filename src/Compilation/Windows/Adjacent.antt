-- ===== src/Compilation/Windows/Adjacent.antt =====
-- What the test of a window says of its slots.
use academic_affairs_system.Common.{
  ℕ, zero, suc, ◌+◌, ◌<◌, ◌≡◌, refl, inl, inr, true, List, [], ◌∷◌, arith, Elem,
}
use academic_affairs_system.Compilation.Rows.{Slot}
use academic_affairs_system.Compilation.Windows.{take, all_follow}

-- Each slot is the period after the one before it, and starts where that one ends.
abbrev pub Adjoining : List Slot → Type 0
Adjoining [] = Unit
Adjoining (s ∷ []) = Unit
Adjoining (s ∷ t ∷ rest) =
    (t.period_index ≡ s.period_index + 1)
    × (t.start_slot ≡ s.start_slot + s.length_slots)
    × Adjoining (t ∷ rest)

pub Adjoining-of_all_follow : (w : List Slot) → all_follow w ≡ true → Adjoining w
unfolding all_follow
Adjoining-of_all_follow [] h = tt
Adjoining-of_all_follow (s ∷ []) h = tt
Adjoining-of_all_follow (s ∷ t ∷ rest) h = ground (arith, Adjoining-of_all_follow (t ∷ rest))

pub all_follow-of_Adjoining : (w : List Slot) → Adjoining w → all_follow w ≡ true
unfolding all_follow
all_follow-of_Adjoining [] h = refl
all_follow-of_Adjoining (s ∷ []) h = refl
all_follow-of_Adjoining (s ∷ t ∷ rest) h = ground (arith, all_follow-of_Adjoining (t ∷ rest) h.2)

-- The later slots of a window have later periods.
pub Adjoining-later :
    (s : Slot) (rest : List Slot) (x : Slot)
    → Adjoining (s ∷ rest)
    → Elem x rest
    → s.period_index < x.period_index
Adjoining-later s [] x h m = absurd m
Adjoining-later s (t ∷ rest) x h (inl e) = ground arith
Adjoining-later s (t ∷ rest) x h (inr m) = omega (arith, h.0, Adjoining-later t rest x h.2 m)

pub Adjoining-tail : (s : Slot) (rest : List Slot) → Adjoining (s ∷ rest) → Adjoining rest
Adjoining-tail s [] h = tt
Adjoining-tail s (t ∷ rest) h = h.2

pub Elem-take : {A : Type 0} (n : ℕ) (xs : List A) (x : A) → Elem x (take n xs) → Elem x xs
Elem-take zero xs x m = absurd m
Elem-take (suc n) [] x m = m
Elem-take (suc n) (y ∷ ys) x (inl e) = inl e
Elem-take (suc n) (y ∷ ys) x (inr m) = inr (Elem-take n ys x m)
