-- ===== src/Common/Text.antt =====
-- Python strings as lists of code points: equality, the order that `sorted` and `min` use on
-- them, and truth of an optional string.
use academic_affairs_system.Common.Lists.{Elem, any}
use academic_affairs_system.Common.Tests.{ltb, ◌==◌, if◌then◌else◌}
use Prim.Native.Nat.{ℕ}
use Prim.Native.Char.{code}
use Prim.Native.String.{String}
use mathlib.Core.Path.{◌≡◌, refl, subst}
use mathlib.Core.Logic.{◌↔◌}
use mathlib.Core.Bool.{Bool, true, false, not, ◌||◌}
use mathlib.Core.Option.{Option, none, some}
use mathlib.Core.List.{List, [], ◌∷◌, ◌++◌}
use native.Mathlib.Omega.{arith}

abbrev pub Text : Type 0
Text = List ℕ

-- The code points of a literal.
abbrev pub text : String → Text
text String.[] = []
text (String.◌∷◌ c s) = code c ∷ text s

abbrev pub text_eq : Text → Text → Bool
text_eq [] [] = true
text_eq [] (y ∷ ys) = false
text_eq (x ∷ xs) [] = false
text_eq (x ∷ xs) (y ∷ ys) = if x == y then text_eq xs ys else false

-- `s < t` on strings: by the first code point that differs, a prefix first.
abbrev pub text_lt : Text → Text → Bool
text_lt xs [] = false
text_lt [] (y ∷ ys) = true
text_lt (x ∷ xs) (y ∷ ys) = ltb x y || (if x == y then text_lt xs ys else false)

pub eq-of-text_eq : (a b : Text) → text_eq a b ≡ true → a ≡ b
eq-of-text_eq [] [] h = refl
eq-of-text_eq [] (y ∷ ys) h = cc
eq-of-text_eq (x ∷ xs) [] h = cc
eq-of-text_eq (x ∷ xs) (y ∷ ys) h = ground (arith, eq-of-text_eq xs ys)

pub text_eq_self : (a : Text) → text_eq a a ≡ true
text_eq_self [] = refl
text_eq_self (x ∷ xs) = ground (arith, text_eq_self xs)

pub text_eq_iff : (a b : Text) → (text_eq a b ≡ true) ↔ (a ≡ b)
text_eq_iff a b = (eq-of-text_eq a b, λ e. subst (λ c. text_eq a c ≡ true) e (text_eq_self a))

pub text_eq_comm : (a b : Text) → text_eq a b ≡ text_eq b a
text_eq_comm [] [] = refl
text_eq_comm [] (y ∷ ys) = refl
text_eq_comm (x ∷ xs) [] = refl
text_eq_comm (x ∷ xs) (y ∷ ys) = ground (arith, text_eq_comm xs ys)

pub text_lt_irrefl : (a : Text) → text_lt a a ≡ false
text_lt_irrefl [] = refl
text_lt_irrefl (x ∷ xs) = ground (arith, text_lt_irrefl xs)

pub text_lt-asymm : (a b : Text) → text_lt a b ≡ true → text_lt b a ≡ false
text_lt-asymm [] [] h = cc
text_lt-asymm [] (y ∷ ys) h = refl
text_lt-asymm (x ∷ xs) [] h = cc
text_lt-asymm (x ∷ xs) (y ∷ ys) h = ground (arith, text_lt-asymm xs ys)

-- Two strings that are not ordered either way are the same.
pub text_lt-connex : (a b : Text) → text_lt a b ≡ false → text_lt b a ≡ false → a ≡ b
text_lt-connex [] [] h k = refl
text_lt-connex [] (y ∷ ys) h k = cc
text_lt-connex (x ∷ xs) [] h k = cc
text_lt-connex (x ∷ xs) (y ∷ ys) h k = ground (arith, text_lt-connex xs ys)

pub text_lt_trans : (a b c : Text) → text_lt a b ≡ true → text_lt b c ≡ true → text_lt a c ≡ true
text_lt_trans a b [] h k = cc
text_lt_trans [] b (z ∷ zs) h k = refl
text_lt_trans (x ∷ xs) [] (z ∷ zs) h k = cc
text_lt_trans (x ∷ xs) (y ∷ ys) (z ∷ zs) h k = ground (arith, text_lt_trans xs ys zs)

-- `x in xs` for a sequence of strings.
abbrev pub contains : Text → List Text → Bool
contains x = any (text_eq x)

pub Elem-of-contains : (x : Text) (xs : List Text) → contains x xs ≡ true → Elem x xs
Elem-of-contains x [] h = cc
Elem-of-contains x (y ∷ ys) h = ground (arith, text_eq_iff x y, Elem-of-contains x ys)

abbrev pub is_empty : Text → Bool
is_empty [] = true
is_empty (x ∷ xs) = false

-- `s or ""` for a string that may be missing.
abbrev pub or_empty : Option Text → Text
or_empty none = []
or_empty (some t) = t

-- The truth value of a string that may be missing.
abbrev pub is_truthy : Option Text → Bool
is_truthy o = not (is_empty (or_empty o))

-- `==` of two strings that may be missing.
abbrev pub option_text_eq : Option Text → Option Text → Bool
option_text_eq none none = true
option_text_eq none (some b) = false
option_text_eq (some a) none = false
option_text_eq (some a) (some b) = text_eq a b

pub option_text_eq_sound : (a b : Option Text) → option_text_eq a b ≡ true → a ≡ b
option_text_eq_sound none none h = refl
option_text_eq_sound none (some b) h = cc
option_text_eq_sound (some a) none h = cc
option_text_eq_sound (some a) (some b) h = ground (arith, text_eq_iff a b)

pub option_text_eq_comm : (a b : Option Text) → option_text_eq a b ≡ option_text_eq b a
option_text_eq_comm none none = refl
option_text_eq_comm none (some b) = refl
option_text_eq_comm (some a) none = refl
option_text_eq_comm (some a) (some b) = text_eq_comm a b

pub text_lt-weak_trans :
    (a b c : Text) → text_lt b a ≡ false → text_lt c b ≡ false → text_lt c a ≡ false
text_lt-weak_trans [] b [] h k = refl
text_lt-weak_trans [] b (z ∷ zs) h k = refl
text_lt-weak_trans (x ∷ xs) [] c h k = cc
text_lt-weak_trans (x ∷ xs) (y ∷ ys) [] h k = cc
text_lt-weak_trans (x ∷ xs) (y ∷ ys) (z ∷ zs) h k = ground (arith, text_lt-weak_trans xs ys zs)

-- `s.add(x)` on a set, whose elements are listed in the order of their first insertion.
abbrev pub set_add : Text → List Text → List Text
set_add x xs = if contains x xs then xs else xs ++ x ∷ []

-- No string stands in the list twice.
abbrev pub DistinctIds : List Text → Type 0
DistinctIds [] = Unit
DistinctIds (x ∷ xs) = (contains x xs ≡ false) × DistinctIds xs
