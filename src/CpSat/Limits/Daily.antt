-- ===== src/CpSat/Limits/Daily.antt =====
-- A required limit on daily lessons holds in the assignments read from the solver's values.
use academic_affairs_system.Common.{
  ℕ, ◌+◌, ◌*◌, ◌≤◌, ◌≡◌, refl, sym, subst, ap, ◌∙◌, inl, inr, Bool, true, false, ◌&&◌, List, [],
  ◌∷◌, ◌++◌, arith, Elem, Bool-cases, Option-cases,
}
use academic_affairs_system.Common.Text.{Text}
use academic_affairs_system.Common.Dict.{lookup}
use academic_affairs_system.Cgcs.Model.{Action, ResourceLimit, max_daily_lessons, Problem}
use academic_affairs_system.CpSat.Candidates.{Candidate, create_candidates}
use academic_affairs_system.CpSat.Compile.{candidates_of_ids, candidates_at, or_nil}
use academic_affairs_system.CpSat.Solve.{as_number, first_chosen, read_assignments}
use academic_affairs_system.CpSat.Solve.Table.{Table, DistinctKeys, create_candidates-IsTable}
use academic_affairs_system.CpSat.Solve.Assigned.{read_from-elsewhere, read_from-at}
use academic_affairs_system.CpSat.Limits.{
  action_uses_day, weekdays, LimitRow, at_most, excess_of, limit_expression, daily_terms,
  rows_by_type, on_day, day_rows, compile_resource_limits, terms_value, satisfies_limits,
  or_no_action, limited_actions, actions_on_day, load,
}

read_assignments-at :
    (x : ℕ → Bool) (t : Table) (k : Text)
    → DistinctKeys t
    → lookup k (read_assignments x t) ≡ first_chosen x (candidates_at t k)
unfolding read_assignments first_chosen
read_assignments-at x t k d = elim (Option-cases (lookup k t)) [
  | inl e ↦
      read_from-elsewhere x t [] k (ground arith) ∙ ap (λ o. first_chosen x (or_nil o)) (sym e)
  | inr (cs, e) ↦ read_from-at x t [] k cs d refl e ∙ ap (λ o. first_chosen x (or_nil o)) (sym e)
]

satisfies_limits-append :
    (x : ℕ → Bool) (ps bs : List LimitRow)
    → satisfies_limits x (ps ++ bs) ≡ satisfies_limits x ps && satisfies_limits x bs
unfolding satisfies_limits
satisfies_limits-append x [] bs = refl
satisfies_limits-append x (at_most t l ∷ ps) bs = ground (arith, satisfies_limits-append x ps bs)
satisfies_limits-append x (excess_of p t l ∷ ps) bs = satisfies_limits-append x ps bs

times_true : (n : ℕ) (b : Bool) → b ≡ true → n * as_number b ≡ n
times_true n true e = omega arith
times_true n false e = cc

module _ (x : ℕ → Bool) (w : ℕ) where
  -- The value of the terms of a day.
  abbrev day_value : List Candidate → ℕ
  day_value cs = terms_value x (daily_terms (on_day w cs))

  abbrev day_load : List Action → ℕ
  day_load ps = load (actions_on_day w ps)

  day_value-append : (ps bs : List Candidate) → day_value (ps ++ bs) ≡ day_value ps + day_value bs
  day_value-append [] bs = omega arith
  day_value-append (c ∷ ps) bs = elim (Bool-cases (action_uses_day c.action w)) [
    | inl e ↦ rw e (omega (arith, day_value-append ps bs))
    | inr e ↦ rw e (day_value-append ps bs)
  ]

  day_load-append : (ps bs : List Action) → day_load (ps ++ bs) ≡ day_load ps + day_load bs
  day_load-append [] bs = omega arith
  day_load-append (a ∷ ps) bs = elim (Bool-cases (action_uses_day a w)) [
    | inl e ↦ rw e (omega (arith, day_load-append ps bs))
    | inr e ↦ rw e (day_load-append ps bs)
  ]

  chosen_load : (cs : List Candidate) → day_load (or_no_action (first_chosen x cs)) ≤ day_value cs
  unfolding first_chosen
  chosen_load [] = omega arith
  chosen_load (c ∷ cs) = elim (Bool-cases (x c.ordinal)) [
    | inl h ↦ elim (Bool-cases (action_uses_day c.action w)) [
      | inl e ↦ rw (h, e) (omega (arith, times_true c.action.time.span (x c.ordinal) h))
      | inr e ↦ rw (h, e) (omega arith)
    ]
    | inr h ↦ elim (Bool-cases (action_uses_day c.action w)) [
      | inl e ↦ rw (h, e) (omega (arith, chosen_load cs))
      | inr e ↦ rw (h, e) (chosen_load cs)
    ]
  ]

  limited_load :
      (t : Table) (ids : List Text)
      → DistinctKeys t
      → day_load (limited_actions (read_assignments x t) ids) ≤ day_value (candidates_of_ids t ids)
  unfolding limited_actions candidates_of_ids
  limited_load t [] d = omega arith
  limited_load t (k ∷ ids) d =
      let here = chosen_load (candidates_at t k) in
      let found =
        subst (λ o. day_load (or_no_action o) ≤ day_value (candidates_at t k))
          (sym (read_assignments-at x t k d)) here in
      omega (
        arith,
        limited_load t ids d,
        day_load-append (or_no_action (lookup k (read_assignments x t)))
            (limited_actions (read_assignments x t) ids),
        day_value-append (candidates_at t k) (candidates_of_ids t ids),
      )

  limit_expression-bounds :
      (ts : List (ℕ × ℕ)) (r : ResourceLimit)
      → r.required ≡ true
      → satisfies_limits x (limit_expression ts r) ≡ true
      → terms_value x ts ≤ r.limit
  unfolding satisfies_limits
  limit_expression-bounds [] r q s = omega arith
  limit_expression-bounds (t ∷ ts) r q s = ground arith

  rows_by_type-bounds :
      (r : ResourceLimit) (cs : List Candidate)
      → r.required ≡ true
      → r.limit_type ≡ max_daily_lessons
      → satisfies_limits x (rows_by_type r r.limit_type (on_day w cs)) ≡ true
      → day_value cs ≤ r.limit
  rows_by_type-bounds r cs q e s =
      limit_expression-bounds (daily_terms (on_day w cs)) r q
        (subst (λ k. satisfies_limits x (rows_by_type r k (on_day w cs)) ≡ true) e s)

  day_rows-bounds :
      (r : ResourceLimit) (cs : List Candidate) (ws : List ℕ)
      → r.required ≡ true
      → r.limit_type ≡ max_daily_lessons
      → satisfies_limits x (day_rows r cs ws) ≡ true
      → Elem w ws
      → day_value cs ≤ r.limit
  unfolding day_rows
  day_rows-bounds r cs [] q e s i = absurd i
  day_rows-bounds r cs (v ∷ ws) q e s (inl p) = rows_by_type-bounds r cs q e (
      subst (λ z. satisfies_limits x (rows_by_type r r.limit_type (on_day z cs)) ≡ true) (sym p)
        (ground (
          arith,
          satisfies_limits-append x (rows_by_type r r.limit_type (on_day v cs)) (day_rows r cs ws),
        )))
  day_rows-bounds r cs (v ∷ ws) q e s (inr i) =
      day_rows-bounds r cs ws q e
        (ground (
          arith,
          satisfies_limits-append x (rows_by_type r r.limit_type (on_day v cs)) (day_rows r cs ws),
        ))
        i

  compiled-bounds :
      (rs : List ResourceLimit) (t : Table) (r : ResourceLimit)
      → satisfies_limits x (compile_resource_limits rs t) ≡ true
      → Elem r rs
      → r.required ≡ true
      → r.limit_type ≡ max_daily_lessons
      → Elem w weekdays
      → day_value (candidates_of_ids t r.class_ids) ≤ r.limit
  unfolding compile_resource_limits
  compiled-bounds [] t r s i q e j = absurd i
  compiled-bounds (h ∷ rs) t r s (inl p) q e j =
      day_rows-bounds r (candidates_of_ids t r.class_ids) weekdays q e
        (subst
          (λ z. satisfies_limits x (day_rows z (candidates_of_ids t z.class_ids) weekdays) ≡ true)
          (sym p)
          (ground (
            arith,
            satisfies_limits-append x (day_rows h (candidates_of_ids t h.class_ids) weekdays)
                (compile_resource_limits rs t),
          )))
        j
  compiled-bounds (h ∷ rs) t r s (inr i) q e j =
      compiled-bounds rs t r
        (ground (
          arith,
          satisfies_limits-append x (day_rows h (candidates_of_ids t h.class_ids) weekdays)
              (compile_resource_limits rs t),
        ))
        i q e j

-- If the values satisfy the rows of the limits, then on each of the seven days the classes of a
-- required limit on daily lessons take together, in the assignments read from the values, no more
-- slots than the limit.
pub daily_load-bounds :
    (p : Problem) (x : ℕ → Bool) (r : ResourceLimit) (weekday : ℕ)
    → satisfies_limits x
        (compile_resource_limits p.resource_limits (create_candidates p.agents).candidates_by_class)
      ≡ true
    → Elem r p.resource_limits
    → r.required ≡ true
    → r.limit_type ≡ max_daily_lessons
    → Elem weekday weekdays
    → load (
        actions_on_day weekday (
          limited_actions
            (read_assignments x (create_candidates p.agents).candidates_by_class)
            r.class_ids))
      ≤ r.limit
daily_load-bounds p x r weekday s i q e j =
    let (n, h) = create_candidates-IsTable p.agents in
    omega (
      arith,
      limited_load x weekday (create_candidates p.agents).candidates_by_class r.class_ids h.keys,
      compiled-bounds x weekday p.resource_limits (create_candidates p.agents).candidates_by_class r
          s i q e j,
    )
