-- ===== src/CpSat/Run/Limited.antt =====
-- Required limits on daily lessons in the result of a run.
use academic_affairs_system.Common.{
  ℕ, ◌≤◌, ◌≡◌, refl, sym, subst, inl, inr, Bool, true, false, ◌==◌, List, [], ◌∷◌, Option, arith,
  Elem, length, Bool-cases, if◌then◌else◌,
}
use academic_affairs_system.Cgcs.Model.{ResourceLimit, max_daily_lessons, Assignments, Problem}
use academic_affairs_system.CpSat.Candidates.{create_candidates}
use academic_affairs_system.CpSat.Solve.{read_assignments}
use academic_affairs_system.CpSat.Limits.{
  weekdays, compile_resource_limits, satisfies_limits, limited_actions, actions_on_day, load,
}
use academic_affairs_system.CpSat.Limits.Daily.{daily_load-bounds}
use academic_affairs_system.CpSat.Warm.{ClassNode, greedy_assignments}
use academic_affairs_system.CpSat.Run.{
  Model, Answer, has_solution, first_model, second_model, read_or, can_optimize_quality, finish,
  run_solver, run_cp_sat, starting_nodes, is_zero_penalty,
}
use academic_affairs_system.CpSat.Run.Outcome.{Respects, limits-of_model}

module _ (solve : Model → Answer) (respects : Respects solve) (time_left : Bool) (p : Problem)
    (r : ResourceLimit) (weekday : ℕ) where
  -- The classes of the limit take no more slots on the weekday than it allows.
  abbrev KeepsDaily : Assignments → Type 0
  KeepsDaily m = load (actions_on_day weekday (limited_actions m r.class_ids)) ≤ r.limit

  module _ (listed : Elem r p.resource_limits) (required : r.required ≡ true)
      (daily : r.limit_type ≡ max_daily_lessons) (day : Elem weekday weekdays) where
    read-KeepsDaily :
        (m : Model)
        → m.created ≡ create_candidates p.agents
        → m.limits
          ≡ compile_resource_limits p.resource_limits
              (create_candidates p.agents).candidates_by_class
        → has_solution (solve m).status ≡ true
        → KeepsDaily (read_assignments (solve m).literals m.created.candidates_by_class)
    read-KeepsDaily m c l answered =
        subst (λ t. KeepsDaily (read_assignments (solve m).literals t.candidates_by_class)) (sym c)
          (daily_load-bounds p (solve m).literals r weekday
            (subst (λ rows. satisfies_limits (solve m).literals rows ≡ true) l
              (limits-of_model (solve m).literals (solve m).assigned m (respects m answered)))
            listed required daily day)

    read_or-KeepsDaily :
        (m : Model) (others : Assignments)
        → m.created ≡ create_candidates p.agents
        → m.limits
          ≡ compile_resource_limits p.resource_limits
              (create_candidates p.agents).candidates_by_class
        → KeepsDaily others
        → KeepsDaily (read_or m (solve m) others)
    read_or-KeepsDaily m others c l w = elim (Bool-cases (has_solution (solve m).status)) [
      | inl e ↦
          subst
            (λ t. KeepsDaily (
              if t
              then read_assignments (solve m).literals m.created.candidates_by_class
              else others))
            (sym e) (read-KeepsDaily m c l e)
      | inr e ↦
          subst
            (λ t. KeepsDaily (
              if t
              then read_assignments (solve m).literals m.created.candidates_by_class
              else others))
            (sym e) w
    ]

    run_solver-KeepsDaily :
        (greedy : Assignments)
        → has_solution (solve (first_model p greedy)).status ≡ true
        → KeepsDaily (run_solver solve time_left p greedy).assignments
    unfolding run_solver finish first_model second_model
    run_solver-KeepsDaily greedy answered =
        elim (Bool-cases
          (can_optimize_quality p time_left (solve m) (read_or m (solve m) greedy))) [
            | inl e ↦ rw e (
                read_or-KeepsDaily (second_model p m (read_or m (solve m) greedy))
                  (read_or m (solve m) greedy) refl refl found)
            | inr e ↦ rw e found
          ]
      where
        m : Model
        m = first_model p greedy

        found : KeepsDaily (read_or m (solve m) greedy)
        found =
            subst
              (λ t. KeepsDaily (
                if t
                then read_assignments (solve m).literals m.created.candidates_by_class
                else greedy))
              (sym answered) (read-KeepsDaily m refl refl answered)

-- If the solver's values satisfy the model whenever it says OPTIMAL or FEASIBLE, and it says so when it
-- is first asked, then in the result of a run, whatever the warm start, the classes of a required
-- limit on daily lessons take together on each of the seven days no more slots than the limit.
pub run_cp_sat-daily_load :
    (solve : Model → Answer) (time_left : Bool) (p : Problem) (warm : Option (List ClassNode))
    (r : ResourceLimit) (weekday : ℕ)
    → Respects solve
    → has_solution (solve (first_model p (greedy_assignments p (starting_nodes p warm)))).status
      ≡ true
    → Elem r p.resource_limits
    → r.required ≡ true
    → r.limit_type ≡ max_daily_lessons
    → Elem weekday weekdays
    → load (
        actions_on_day weekday
          (limited_actions (run_cp_sat solve time_left p warm).assignments r.class_ids))
      ≤ r.limit
unfolding run_cp_sat
run_cp_sat-daily_load solve time_left p warm r weekday respects answered listed required daily day =
    rw searched (
      run_solver-KeepsDaily solve respects time_left p r weekday listed required daily day
        (greedy_assignments p (starting_nodes p warm)) answered)
  where
    has_limits : (rs : List ResourceLimit) → Elem r rs → (length rs == 0) ≡ false
    has_limits [] i = absurd i
    has_limits (q ∷ qs) i = ground arith

    searched : is_zero_penalty p (greedy_assignments p (starting_nodes p warm)) ≡ false
    searched = ground (arith, has_limits p.resource_limits listed)
