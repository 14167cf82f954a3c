-- ===== src/Cgcs/Times/Overlap.antt =====
-- When two times collide: a week, a day and a slot that both take.
use academic_affairs_system.Common.{
  ℕ, zero, suc, ◌+◌, ◌≤◌, ◌<◌, ◌≡◌, refl, ◌↔◌, ◌⊎◌, inl, inr, true, [], ◌∷◌, arith, Bool-cases, max,
}
use academic_affairs_system.Common.Text.{Text}
use academic_affairs_system.Cgcs.Model.{TimeOption}
use academic_affairs_system.Cgcs.Times.{
  any_common_bit, shares_bit, shares_week, shares_day, overlaps,
}

pub any_common_bit_comm : (l r : Text) → any_common_bit l r ≡ any_common_bit r l
unfolding any_common_bit
any_common_bit_comm [] [] = refl
any_common_bit_comm [] (y ∷ ys) = refl
any_common_bit_comm (x ∷ xs) [] = refl
any_common_bit_comm (x ∷ xs) (y ∷ ys) = ground (arith, any_common_bit_comm xs ys)

pub shares_bit_comm : (l r : Text) → shares_bit l r ≡ shares_bit r l
unfolding shares_bit
shares_bit_comm [] [] = refl
shares_bit_comm [] (y ∷ ys) = refl
shares_bit_comm (x ∷ xs) [] = refl
shares_bit_comm (x ∷ xs) (y ∷ ys) = any_common_bit_comm (x ∷ xs) (y ∷ ys)

pub shares_week_comm : (l r : TimeOption) → shares_week l r ≡ shares_week r l
unfolding shares_week
shares_week_comm l r = shares_bit_comm l.weeks r.weeks

pub shares_day_comm : (l r : TimeOption) → shares_day l r ≡ shares_day r l
unfolding shares_day
shares_day_comm l r = shares_bit_comm l.days r.days

pub overlaps_comm : (l r : TimeOption) → overlaps l r ≡ overlaps r l
unfolding overlaps
overlaps_comm l r = ground (arith, shares_bit_comm l.weeks r.weeks, shares_bit_comm l.days r.days)

-- The mask has the character "1" at position `i`.
abbrev pub BitAt : ℕ → Text → Type 0
BitAt i [] = ⊥
BitAt zero (c ∷ cs) = c ≡ b'1'
BitAt (suc i) (c ∷ cs) = BitAt i cs

-- A missing mask covers every position.
abbrev pub Covers : Text → ℕ → Type 0
Covers [] i = Unit
Covers (c ∷ cs) i = BitAt i (c ∷ cs)

any_common_bit_witness : (l r : Text) → any_common_bit l r ≡ true → (i : ℕ) × BitAt i l × BitAt i r
unfolding any_common_bit
any_common_bit_witness [] r h = cc
any_common_bit_witness (x ∷ xs) [] h = cc
any_common_bit_witness (x ∷ xs) (y ∷ ys) h = elim (Bool-cases (any_common_bit xs ys)) [
  | inl e ↦ let (i, a, b) = any_common_bit_witness xs ys e in (suc i, a, b)
  | inr e ↦ (0, ground arith, ground arith)
]

any_common_bit-true : (i : ℕ) (l r : Text) → BitAt i l → BitAt i r → any_common_bit l r ≡ true
unfolding any_common_bit
any_common_bit-true i [] r a b = absurd a
any_common_bit-true i (x ∷ xs) [] a b = absurd b
any_common_bit-true zero (x ∷ xs) (y ∷ ys) a b = ground arith
any_common_bit-true (suc i) (x ∷ xs) (y ∷ ys) a b = ground (arith, any_common_bit-true i xs ys a b)

-- Two masks meet if one is missing, or both have a "1" at one position.
abbrev pub Meets : Text → Text → Type 0
Meets l r = (l ≡ []) ⊎ (r ≡ []) ⊎ ((i : ℕ) × BitAt i l × BitAt i r)

pub Meets-of-shares_bit : (l r : Text) → shares_bit l r ≡ true → Meets l r
unfolding shares_bit
Meets-of-shares_bit [] r h = inl refl
Meets-of-shares_bit (x ∷ xs) [] h = inr (inl refl)
Meets-of-shares_bit (x ∷ xs) (y ∷ ys) h = inr (inr (any_common_bit_witness (x ∷ xs) (y ∷ ys) h))

pub shares_bit-of-Meets : (l r : Text) → Meets l r → shares_bit l r ≡ true
unfolding shares_bit
shares_bit-of-Meets [] r m = refl
shares_bit-of-Meets (x ∷ xs) [] m = refl
shares_bit-of-Meets (x ∷ xs) (y ∷ ys) (inl e) = cc
shares_bit-of-Meets (x ∷ xs) (y ∷ ys) (inr (inl e)) = cc
shares_bit-of-Meets (x ∷ xs) (y ∷ ys) (inr (inr (i, a, b))) =
    any_common_bit-true i (x ∷ xs) (y ∷ ys) a b

-- The slot `s` is taken by the time.
abbrev pub Takes : TimeOption → ℕ → Type 0
Takes t s = (t.start ≤ s) × (s < t.start + t.span)

abbrev pub Collide : TimeOption → TimeOption → Type 0
Collide l r = Meets l.weeks r.weeks × Meets l.days r.days × ((s : ℕ) × Takes l s × Takes r s)

Collide-of-overlaps :
    (l r : TimeOption) → 0 < l.span → 0 < r.span → overlaps l r ≡ true → Collide l r
unfolding overlaps
Collide-of-overlaps l r p q h = (
  Meets-of-shares_bit l.weeks r.weeks (ground arith),
  Meets-of-shares_bit l.days r.days (ground arith),
  (max l.start r.start, ground arith, ground arith),
)

overlaps-of-Collide : (l r : TimeOption) → Collide l r → overlaps l r ≡ true
unfolding overlaps
overlaps-of-Collide l r (w, d, (s, p, q)) =
    ground (arith, shares_bit-of-Meets l.weeks r.weeks w, shares_bit-of-Meets l.days r.days d)

-- For times of at least one slot, `_overlaps` answers true exactly when the week masks meet, the
-- day masks meet (a mask that is missing meets every mask), and some slot is taken by both.
pub overlaps_iff :
    (l r : TimeOption) → 0 < l.span → 0 < r.span → (overlaps l r ≡ true) ↔ Collide l r
overlaps_iff l r p q = (Collide-of-overlaps l r p q, overlaps-of-Collide l r)
