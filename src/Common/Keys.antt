-- ===== src/Common/Keys.antt =====
-- Tuples of two numbers and a string, compared as Python compares tuples, as keys for `sorted` and
-- `min`.
use academic_affairs_system.Common.Sort.{Order}
use academic_affairs_system.Common.Tests.{ltb, ◌==◌, if◌then◌else◌}
use academic_affairs_system.Common.Text.{Text, text_lt, text_lt-asymm, text_lt-weak_trans}
use Prim.Native.Nat.{ℕ}
use mathlib.Core.Path.{◌≡◌}
use mathlib.Core.Bool.{Bool, true, false, ◌||◌}
use native.Mathlib.Omega.{arith}

abbrev pub Key : Type 0
Key = ℕ × ℕ × Text

abbrev pub key_lt : Key → Key → Bool
key_lt (a, b, s) (c, d, t) =
    ltb a c || (if a == c then ltb b d || (if b == d then text_lt s t else false) else false)

pub key_lt-asymm : (a b : Key) → key_lt a b ≡ true → key_lt b a ≡ false
key_lt-asymm (a, b, s) (c, d, t) h = ground (arith, text_lt-asymm s t)

pub key_lt-weak_trans : (a b c : Key) → key_lt b a ≡ false → key_lt c b ≡ false → key_lt c a ≡ false
key_lt-weak_trans (a, b, s) (c, d, t) (e, f, u) h k = ground (arith, text_lt-weak_trans s t u)

-- The order of values by a key.
abbrev pub lt_on : {A : Type 0} → (A → Key) → A → A → Bool
lt_on key a b = key_lt (key a) (key b)

pub lt_on-Order : {A : Type 0} (key : A → Key) → Order (lt_on key)
lt_on-Order key = record {
  asymm = λ a b. key_lt-asymm (key a) (key b);
  weak_trans = λ a b c. key_lt-weak_trans (key a) (key b) (key c);
}
