-- ===== src/Cgcs/Repair/Ending.antt =====
-- The repair loop ends.
use academic_affairs_system.Common.{
  ℕ, zero, suc, ◌+◌, ◌≤◌, ◌≡◌, refl, subst, inl, inr, Bool, true, false, List, [], ◌∷◌, Option,
  none, some, arith, Bool-cases, length, length-append, ◌==◌,
}
use academic_affairs_system.Common.Text.{Text}
use academic_affairs_system.Cgcs.Model.{ClassAgent, Action, Distribution, Assignments}
use academic_affairs_system.Cgcs.Repair.{
  Pass, best_feasible_action, after_relocation, after_direct, repair_pass, begin_pass,
  repair_rounds, repair_failed_agents,
}

module _ (ds : List Distribution) (by_id : List (Text × ClassAgent)) where
  after_relocation_count :
      (g : ClassAgent) (s : Pass) (r : Assignments × Bool)
      → (after_relocation g s r).repaired_count + length (after_relocation g s r).remaining
        ≡ s.repaired_count + length s.remaining + 1
  after_relocation_count g s (m, true) = omega arith
  after_relocation_count g s (m, false) = omega (arith, length-append s.remaining (g ∷ []))

  after_direct_count :
      (g : ClassAgent) (s : Pass) (r : Option Action)
      → (after_direct ds by_id g s r).repaired_count
          + length (after_direct ds by_id g s r).remaining
        ≡ s.repaired_count + length s.remaining + 1
  after_direct_count g s (some a) = omega arith
  after_direct_count g s none = after_relocation_count g s _

  -- Each class of the pass is repaired or remains.
  repair_pass_count :
      (gs : List ClassAgent) (s : Pass)
      → (repair_pass ds by_id gs s).repaired_count + length (repair_pass ds by_id gs s).remaining
        ≡ s.repaired_count + length s.remaining + length gs
  unfolding repair_pass
  repair_pass_count [] s = omega arith
  repair_pass_count (g ∷ gs) s = omega (
    arith,
    repair_pass_count gs (after_direct ds by_id g s (best_feasible_action g s.assignments ds)),
    after_direct_count g s (best_feasible_action g s.assignments ds),
  )

  repair_rounds_total :
      (fuel : ℕ) (gs : List ClassAgent) (m : Assignments)
      → length gs ≤ fuel
      → (r : Assignments × List ClassAgent) × (repair_rounds ds by_id fuel gs m ≡ some r)
  unfolding repair_rounds
  repair_rounds_total fuel [] m h = ((m, []), refl)
  repair_rounds_total zero (g ∷ gs) m h = absurd (omega arith)
  repair_rounds_total (suc fuel) (g ∷ gs) m h = elim (Bool-cases (s.repaired_count == 0)) [
    | inl done ↦ ((s.assignments, s.remaining), rw done)
    | inr more ↦ rw more (
        repair_rounds_total fuel s.remaining s.assignments
          (ground (arith, repair_pass_count (g ∷ gs) (begin_pass ds by_id m))))
  ]
    where
      s : Pass
      s = repair_pass ds by_id (g ∷ gs) (begin_pass ds by_id m)

  abbrev OnSome :
      (Assignments × List ClassAgent → Type 0) → Option (Assignments × List ClassAgent) → Type 0
  OnSome P none = Unit
  OnSome P (some r) = P r

  -- What every pass keeps holds of the result.
  pub repair_rounds_inv :
      (P : Assignments × List ClassAgent → Type 0)
      → ((gs : List ClassAgent) (m : Assignments)
          → P (m, gs)
          → P (
            (repair_pass ds by_id gs (begin_pass ds by_id m)).assignments,
            (repair_pass ds by_id gs (begin_pass ds by_id m)).remaining,
          ))
      → (fuel : ℕ) (gs : List ClassAgent) (m : Assignments) (r : Assignments × List ClassAgent)
      → repair_rounds ds by_id fuel gs m ≡ some r
      → P (m, gs)
      → P r
  unfolding repair_rounds
  repair_rounds_inv P keep fuel [] m r e p = subst (OnSome P) e p
  repair_rounds_inv P keep zero (g ∷ gs) m r e p = cc
  repair_rounds_inv P keep (suc fuel) (g ∷ gs) m r e p =
      elim (Bool-cases
        ((repair_pass ds by_id (g ∷ gs) (begin_pass ds by_id m)).repaired_count == 0)) [
          | inl done ↦ subst (OnSome P) (rw done at e) (keep (g ∷ gs) m p)
          | inr more ↦ repair_rounds_inv P keep fuel _ _ r (rw more at e) (keep (g ∷ gs) m p)
        ]

  -- The repair returns, for any failed classes and assignments: the fuel, one round for each class
  -- that failed, is enough.
  pub repair_failed_agents_total :
      (gs : List ClassAgent) (m : Assignments)
      → (r : Assignments × List ClassAgent) × (repair_failed_agents ds by_id gs m ≡ some r)
  unfolding repair_failed_agents
  repair_failed_agents_total gs m = repair_rounds_total (length gs) gs m (omega arith)
