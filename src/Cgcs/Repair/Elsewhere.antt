-- ===== src/Cgcs/Repair/Elsewhere.antt =====
-- `_repair_by_relocating_one` tries its plans on the shared dict and undoes each trial; the plan
-- that it applies keeps the hard constraints.
use academic_affairs_system.Common.{
  ◌≡◌, refl, ◌∙◌, inl, inr, false, List, [], ◌∷◌, Option, some, arith, Bool-cases, Option-cases,
}
use academic_affairs_system.Common.Text.{Text, text_eq}
use academic_affairs_system.Common.Dict.{lookup, insert, erase, lookup-insert}
use academic_affairs_system.Cgcs.Model.{ClassAgent, Action, Distribution, Assignments}
use academic_affairs_system.Cgcs.Checks.{is_feasible, blocking_class_ids}
use academic_affairs_system.Cgcs.Repair.{Plan, relocate_blocker, relocate_sole, relocate_from}
use academic_affairs_system.Cgcs.Repair.Undo.{restore_elsewhere}

module _ (ds : List Distribution) (by_id : List (Text × ClassAgent)) (failed : ClassAgent) where
  relocate_blocker_elsewhere :
      (c : Action) (b : Text) (old : Action) (m : Assignments) (best : Option Plan) (j : Text)
      → lookup b m ≡ some old
      → text_eq failed.class_id j ≡ false
      → lookup j (relocate_blocker ds by_id failed c b old (erase b m) best).0 ≡ lookup j m
  unfolding relocate_blocker
  relocate_blocker_elsewhere c b old m best j e n =
      elim (Bool-cases (is_feasible c (erase b m) ds)) [
        | inr unfit ↦
            rw (unfit, relocate_blocker)
              (restore_elsewhere failed b old m (erase b m) e (λ i k. refl) j n)
        | inl fit ↦ elim (Option-cases (lookup b by_id)) [
          | inl missing ↦ rw (fit, missing, relocate_blocker) (swapped)
          | inr (g, found) ↦ rw (fit, found, relocate_blocker) (swapped)
        ]
      ]
    where
      swapped :
          lookup j (insert b old (erase failed.class_id (insert failed.class_id c (erase b m))))
          ≡ lookup j m
      swapped =
          restore_elsewhere failed b old m (insert failed.class_id c (erase b m)) e
            (λ i k. ground (arith, lookup-insert failed.class_id i c (erase b m))) j n

  relocate_sole_elsewhere :
      (c : Action) (blockers : List Text) (m : Assignments) (best : Option Plan) (j : Text)
      → text_eq failed.class_id j ≡ false
      → lookup j (relocate_sole ds by_id failed c blockers (m, best)).0 ≡ lookup j m
  relocate_sole_elsewhere c [] m best j n = refl
  relocate_sole_elsewhere c (b ∷ k ∷ ks) m best j n = refl
  relocate_sole_elsewhere c (b ∷ []) m best j n = elim (Option-cases (lookup b m)) [
    | inl e ↦ rw (e, relocate_sole) refl
    | inr (old, e) ↦ rw (e, relocate_sole) (relocate_blocker_elsewhere c b old m best j e n)
  ]

  -- The trials leave every other class where it was.
  pub relocate_from_elsewhere :
      (cs : List Action) (m : Assignments) (best : Option Plan) (j : Text)
      → text_eq failed.class_id j ≡ false
      → lookup j (relocate_from ds by_id failed cs (m, best)).0 ≡ lookup j m
  unfolding relocate_from
  relocate_from_elsewhere [] m best j n = refl
  relocate_from_elsewhere (c ∷ cs) m best j n =
      relocate_from_elsewhere cs _ _ j n
      ∙ relocate_sole_elsewhere c (blocking_class_ids c m ds) m best j n
