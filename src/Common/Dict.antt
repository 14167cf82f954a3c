-- ===== src/Common/Dict.antt =====
-- A Python dict with string keys, as an association list in insertion order.
use academic_affairs_system.Common.Lists.{any}
use academic_affairs_system.Common.Tests.{if◌then◌else◌}
use academic_affairs_system.Common.Text.{Text, text_eq, text_eq_iff}
use mathlib.Core.Path.{◌≡◌, refl}
use mathlib.Core.Bool.{Bool, true, false}
use mathlib.Core.Option.{Option, none, some}
use mathlib.Core.List.{List, [], ◌∷◌, map}
use native.Mathlib.Omega.{arith}

module _ {ℓ} {V : Type ℓ} where
  -- `d.get(k)`
  abbrev pub lookup : Text → List (Text × V) → Option V
  lookup k [] = none
  lookup k ((j, v) ∷ m) = if text_eq j k then some v else lookup k m

  -- `d[k] = v`: a key that is there keeps its place, a new one goes to the end.
  abbrev pub insert : Text → V → List (Text × V) → List (Text × V)
  insert k v [] = (k, v) ∷ []
  insert k v ((j, w) ∷ m) = if text_eq j k then (j, v) ∷ m else (j, w) ∷ insert k v m

  -- `d.pop(k, None)`
  abbrev pub erase : Text → List (Text × V) → List (Text × V)
  erase k [] = []
  erase k ((j, w) ∷ m) = let rest = erase k m in if text_eq j k then rest else (j, w) ∷ rest

  abbrev pub values : List (Text × V) → List V
  values = map (λ e. e.1)

  pub lookup-insert :
      (k j : Text) (v : V) (m : List (Text × V))
      → lookup j (insert k v m) ≡ (if text_eq k j then some v else lookup j m)
  lookup-insert k j v [] = refl
  lookup-insert k j v ((i, w) ∷ m) =
      ground (arith, text_eq_iff k j, text_eq_iff i k, text_eq_iff i j, lookup-insert k j v m)

  pub lookup-erase :
      (k j : Text) (m : List (Text × V))
      → lookup j (erase k m) ≡ (if text_eq k j then none else lookup j m)
  lookup-erase k j [] = ground arith
  lookup-erase k j ((i, w) ∷ m) =
      ground (arith, text_eq_iff k j, text_eq_iff i k, text_eq_iff i j, lookup-erase k j m)

module _ {V : Type 0} where
  -- What a test on the values says of each entry.
  pub any-values-false :
      (p : V → Bool) (k : Text) (v : V) (m : List (Text × V))
      → any p (values m) ≡ false
      → lookup k m ≡ some v
      → p v ≡ false
  any-values-false p k v [] h e = cc
  any-values-false p k v ((j, w) ∷ m) h e = ground (arith, any-values-false p k v m)

-- `k in d`
abbrev pub has_key {ℓ} : {V : Type ℓ} → Text → List (Text × V) → Bool
has_key k m = elim (lookup k m) [ none ↦ false | some v ↦ true ]

pub has_key-insert {ℓ} :
    {V : Type ℓ} (k j : Text) (v : V) (m : List (Text × V))
    → has_key j (insert k v m) ≡ (if text_eq k j then true else has_key j m)
has_key-insert k j v m = ground (arith, lookup-insert k j v m)
