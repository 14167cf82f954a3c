-- ===== src/Xml/Numbers.antt =====
-- A number that `str` wrote is read by `int`.
use academic_affairs_system.Common.{
  ℕ, zero, suc, ◌+◌, ◌<◌, ◌≡◌, refl, inl, inr, false, [], ◌∷◌, arith, ltb, Bool-cases,
}
use academic_affairs_system.Common.Text.{Text, is_empty}
use academic_affairs_system.Xml.{digits, decimal, parsed, read_digits, int_of}
use Prim.Native.Nat.{◌/◌, ◌%◌}

read_digits-digits :
    (fuel n : ℕ) (after : Text)
    → n < fuel
    → read_digits (digits fuel n after) 0 ≡ read_digits after n
unfolding digits read_digits
read_digits-digits zero n after h = ground arith
read_digits-digits (suc fuel) n after h = elim (Bool-cases (ltb n 10)) [
  | inl e ↦ rw e (ground arith)
  | inr e ↦
      rw (e, read_digits-digits fuel (n / 10) ((48 + n % 10) ∷ after) (ground arith)) (ground arith)
]

is_empty-digits :
    (fuel n : ℕ) (after : Text) → is_empty after ≡ false → is_empty (digits fuel n after) ≡ false
unfolding digits
is_empty-digits zero n after h = h
is_empty-digits (suc fuel) n after h = elim (Bool-cases (ltb n 10)) [
  | inl e ↦ rw e refl
  | inr e ↦ rw e (is_empty-digits fuel (n / 10) ((48 + n % 10) ∷ after) refl)
]

is_empty-decimal : (n : ℕ) → is_empty (decimal n) ≡ false
unfolding decimal digits
is_empty-decimal n = elim (Bool-cases (ltb n 10)) [
  | inl e ↦ rw e refl
  | inr e ↦ rw e (is_empty-digits n (n / 10) ((48 + n % 10) ∷ []) refl)
]

read_digits-decimal : (n : ℕ) → read_digits (decimal n) 0 ≡ parsed n
unfolding decimal read_digits
read_digits-decimal n = read_digits-digits (suc n) n [] (omega arith)

-- `int(str(n))` is `n`.
pub int_of-decimal : (n : ℕ) → int_of (decimal n) ≡ parsed n
unfolding int_of
int_of-decimal n = rw (is_empty-decimal n) (read_digits-decimal n)
