-- ===== src/Validation/Limits.antt =====
-- A solution has no hard issue exactly when it keeps every hard limit.
pub mod Issues
pub mod Days
use academic_affairs_system.Common.{
  ℕ, zero, suc, ◌+◌, ◌≤◌, ◌<◌, ◌≡◌, ◌≢◌, ◌↔◌, refl, sym, ap, ◌∙◌, subst, ◌⊎◌, inl, inr, Bool, true,
  false, List, [], ◌∷◌, ◌++◌, arith, Elem, Bool-cases, sum_of, ltb, max, Option, none, some,
  if◌then◌else◌,
}
use academic_affairs_system.Common.Text.{Text, text, text_eq}
use academic_affairs_system.Compilation.Rows.{Constraint}
use academic_affairs_system.Compilation.Constraints.{limit_or, limit_number}
use academic_affairs_system.Validation.{Placement, occupied, longest_run, day_measure}
use academic_affairs_system.Validation.Occupied.{
  IsTaken, occupied-IsRising, Elem-occupied, occupied-Elem,
}
use academic_affairs_system.Validation.Longest.{
  HasRun, IsRealized, longest_run-counts, longest_run-IsRealized,
}

abbrev pub is_daily : Constraint → Bool
is_daily c = text_eq c.kind (text "max_daily_lessons")

-- The placements of a resource on a day keep the limit: together they take no more than that many
-- periods, or no more than that many one after the other.
pub record KeepsLimit (c : Constraint) (ps : List Placement) : Type 0 where
  pub daily : is_daily c ≡ true → sum_of (λ (p : Placement). p.span) ps ≤ limit_number c
  pub consecutive :
      is_daily c ≡ false → (first : ℕ) → ¬ ((n : ℕ) → n ≤ limit_number c → IsTaken (first + n) ps)

pub limit_number-positive : (c : Constraint) → 1 ≤ limit_number c
limit_number-positive c = elim (Bool-cases (is_daily c)) [
  | inl e ↦ rw e (positive c.parameters.max 6)
  | inr e ↦ rw e (positive c.parameters.max_consecutive 3)
]
  where
    positive : (o : Option ℕ) (n : ℕ) → 1 ≤ limit_or o n
    positive none n = omega arith
    positive (some k) n = omega arith

longest_run_iff :
    (limit : ℕ) (ps : List Placement)
    → (longest_run (occupied ps []) ≤ limit)
      ↔ ((first : ℕ) → ¬ ((n : ℕ) → n ≤ limit → IsTaken (first + n) ps))
longest_run_iff limit ps = (free, bounded)
  where
    free :
        longest_run (occupied ps []) ≤ limit
        → (first : ℕ) → ¬ ((n : ℕ) → n ≤ limit → IsTaken (first + n) ps)
    free h first taken = omega (
      arith,
      h,
      longest_run-counts limit first (occupied ps []) (occupied-IsRising ps [] tt)
          (λ i b. occupied-Elem ps [] (first + i) (inl (taken i (omega (arith, b))))),
    )

    taken_in :
        (first k : ℕ)
        → HasRun first k (occupied ps [])
        → limit < k
        → (n : ℕ) → n ≤ limit
        → IsTaken (first + n) ps
    taken_in first k run above n b =
        elim (Elem-occupied ps [] (first + n) (run n (omega (arith, above, b)))) [
          | inl t ↦ t
          | inr m ↦ absurd m
        ]

    bounded :
        ((first : ℕ) → ¬ ((n : ℕ) → n ≤ limit → IsTaken (first + n) ps))
        → longest_run (occupied ps []) ≤ limit
    bounded h = elim (Bool-cases (ltb limit (longest_run (occupied ps [])))) [
      | inl e ↦ elim (longest_run-IsRealized (occupied ps [])) [
        | inl zero_long ↦ omega (arith, zero_long)
        | inr (first, run) ↦
            absurd (h first (taken_in first (longest_run (occupied ps [])) run (ground arith)))
      ]
      | inr e ↦ ground arith
    ]

module _ (c : Constraint) (ps : List Placement) where
  day_measure-daily : is_daily c ≡ true → day_measure c ps ≡ sum_of (λ (p : Placement). p.span) ps
  unfolding day_measure
  day_measure-daily e = rw e refl

  day_measure-consecutive : is_daily c ≡ false → day_measure c ps ≡ longest_run (occupied ps [])
  unfolding day_measure
  day_measure-consecutive e = rw e refl

  pub KeepsLimit-of_measure : day_measure c ps ≤ limit_number c → KeepsLimit c ps
  KeepsLimit-of_measure h = record {
    daily = λ e. subst (λ k. k ≤ limit_number c) (day_measure-daily e) h;
    consecutive = λ e.
        (longest_run_iff (limit_number c) ps).0
          (subst (λ k. k ≤ limit_number c) (day_measure-consecutive e) h);
  }

  pub measure-of_KeepsLimit : KeepsLimit c ps → day_measure c ps ≤ limit_number c
  measure-of_KeepsLimit k = elim (Bool-cases (is_daily c)) [
    | inl e ↦ subst (λ n. n ≤ limit_number c) (sym (day_measure-daily e)) (k.daily e)
    | inr e ↦
        subst (λ n. n ≤ limit_number c) (sym (day_measure-consecutive e))
          ((longest_run_iff (limit_number c) ps).1 (k.consecutive e))
  ]

  -- What the code measures says whether the limit is kept.
  pub day_measure_iff : (day_measure c ps ≤ limit_number c) ↔ KeepsLimit c ps
  day_measure_iff = (KeepsLimit-of_measure, measure-of_KeepsLimit)
