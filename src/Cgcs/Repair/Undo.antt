-- ===== src/Cgcs/Repair/Undo.antt =====
-- What the `finally` clause of a trial restores.
use academic_affairs_system.Common.{
  ◌≡◌, ◌⊎◌, inl, inr, false, List, none, some, arith, Elem, Bool-cases, if◌then◌else◌,
}
use academic_affairs_system.Common.Text.{Text, text_eq, text_eq_iff}
use academic_affairs_system.Common.Dict.{lookup, insert, erase, lookup-insert, lookup-erase}
use academic_affairs_system.Cgcs.Model.{ClassAgent, Action, Assignments}

-- Every entry of the index is a listed class under its own id.
abbrev pub IsIndex : List ClassAgent → List (Text × ClassAgent) → Type 0
IsIndex agents by_id =
    (k : Text) (g : ClassAgent) → lookup k by_id ≡ some g → Elem g agents × (g.class_id ≡ k)

module _ (failed : ClassAgent) (b : Text) (old : Action) (m trial : Assignments)
    (entry : lookup b m ≡ some old)
    (away : (j : Text)
      → text_eq failed.class_id j ≡ false
      → lookup j trial ≡ lookup j (erase b m)) where
  -- What the dict answers after the `finally` clause.
  restore-lookup :
      (j : Text)
      → lookup j (insert b old (erase failed.class_id trial))
        ≡ (if text_eq b j then some old else if text_eq failed.class_id j then none else lookup j m)
  restore-lookup j = ground (
    arith,
    lookup-insert b j old (erase failed.class_id trial),
    lookup-erase failed.class_id j trial,
    lookup-erase b j m,
    away j,
  )

  -- The trial changes no answer but, at most, the failed class's own.
  pub restore_elsewhere :
      (j : Text)
      → text_eq failed.class_id j ≡ false
      → lookup j (insert b old (erase failed.class_id trial)) ≡ lookup j m
  restore_elsewhere j e = ground (arith, restore-lookup j, text_eq_iff b j)

  -- That answer is the old one, or missing.
  pub restore_cases :
      ((j : Text) → lookup j m ≡ lookup j (insert b old (erase failed.class_id trial)))
      ⊎ ((j : Text)
          → lookup j (erase failed.class_id m)
            ≡ lookup j (insert b old (erase failed.class_id trial)))
  restore_cases = elim (Bool-cases (text_eq b failed.class_id)) [
    | inl e ↦ inl λ j. ground (
      arith,
      restore-lookup j,
      text_eq_iff b j,
      text_eq_iff b failed.class_id,
      text_eq_iff failed.class_id j,
    )
    | inr e ↦ inr λ j. ground (
      arith,
      restore-lookup j,
      lookup-erase failed.class_id j m,
      text_eq_iff b j,
      text_eq_iff b failed.class_id,
      text_eq_iff failed.class_id j,
    )
  ]

  -- A class that was not placed is not placed afterwards, and every answer is the old one.
  restore_same :
      lookup failed.class_id m ≡ none
      → (j : Text) → lookup j (insert b old (erase failed.class_id trial)) ≡ lookup j m
  restore_same e j =
      ground (arith, restore-lookup j, text_eq_iff b j, text_eq_iff failed.class_id j)
