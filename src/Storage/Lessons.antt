-- ===== src/Storage/Lessons.antt =====
-- The lessons that are generated for a task.
use academic_affairs_system.Common.{
  ℕ, zero, suc, ◌+◌, ◌-◌, min, ◌≤◌, ◌<◌, ◌≡◌, refl, ap, inl, inr, List, ◌∷◌, arith, Bool-cases, All,
  sum_of, length, map, ltb,
}
use academic_affairs_system.CpSat.Limits.{numbers_from}
use academic_affairs_system.Storage.{generate_lessons, weekly_lessons}

-- A list of lessons that fills the slots: numbered from the index on, each of one slot at least and the
-- duration at most.
pub record Fills (lessons : List (ℕ × ℕ)) (index duration slots : ℕ) : Type 0 where
  pub total : sum_of (λ l. l.1) lessons ≡ slots
  pub bounded : All (λ l. (1 ≤ l.1) × (l.1 ≤ duration)) lessons
  pub numbered : map (λ l. l.0) lessons ≡ numbers_from index (length lessons)

generate_lessons-Fills :
    (fuel duration remaining index : ℕ)
    → 0 < duration
    → remaining ≤ fuel
    → Fills (generate_lessons fuel duration remaining index) index duration remaining
unfolding generate_lessons
generate_lessons-Fills zero duration remaining index p h = record {
  total = omega (arith, h);
  bounded = tt;
  numbered = refl;
}
generate_lessons-Fills (suc fuel) duration remaining index p h =
    elim (Bool-cases (ltb 0 remaining)) [
      | inl e ↦
          let later =
            generate_lessons-Fills fuel duration (remaining - min duration remaining) (index + 1) p
              (ground (arith, e)) in
          rw e (record {
            total = omega (arith, later.total);
            bounded = ((ground (arith, e), omega arith), later.bounded);
            numbered = ap (λ z. index ∷ z) later.numbered;
          })
      | inr e ↦ rw e (record { total = ground (arith, e); bounded = tt; numbered = refl })
    ]

-- The lessons of a task add up to its weekly slots, are numbered from 0 without gaps, and each takes at
-- least one slot and at most the duration, which is not 0.
pub weekly_lessons-Fills :
    (weekly_slots duration_slots : ℕ)
    → 0 < duration_slots
    → Fills (weekly_lessons weekly_slots duration_slots) 0 duration_slots weekly_slots
unfolding weekly_lessons
weekly_lessons-Fills weekly_slots duration_slots p =
    generate_lessons-Fills weekly_slots duration_slots weekly_slots 0 p (omega arith)
