-- ===== src/Examples/Solver.antt =====
-- The constraint solver's run at the two classes, with a solver that places nothing and values that
-- place both.
use academic_affairs_system.Common.{
  ◌<◌, ℕ, ◌≤◌, ◌≡◌, ◌↔◌, ◌==◌, if◌then◌else◌, refl, subst, Bool, true, false, not, none, some, List,
  [], ◌∷◌, inl, arith, Elem,
}
use academic_affairs_system.Common.Text.{text}
use academic_affairs_system.Common.Dict.{lookup, has_key}
use academic_affairs_system.Cgcs.Model.{ClassAgent, Problem, ResourceLimit, max_daily_lessons}
use academic_affairs_system.Cgcs.Greedy.Placing.{IsSound}
use academic_affairs_system.CpSat.Candidates.{Row, sum_is, zero_is, create_candidates}
use academic_affairs_system.CpSat.Compile.{compile_constraints}
use academic_affairs_system.CpSat.Solve.{
  count_true, satisfies_rows, satisfies_conflicts, satisfies_compiled, read_assignments,
}
use academic_affairs_system.CpSat.Solve.Decoded.{read_assignments-IsSound}
use academic_affairs_system.CpSat.Solve.Assigned.{has_key-read_assignments}
use academic_affairs_system.CpSat.Limits.{
  LimitRow, at_most, excess_of, terms_value, satisfies_limits, compile_resource_limits, load,
  actions_on_day, limited_actions, action_uses_day, day_rows,
}
use academic_affairs_system.CpSat.Limits.Daily.{daily_load-bounds}
use academic_affairs_system.CpSat.Warm.{ClassNode, greedy_assignments, solution_nodes}
use academic_affairs_system.CpSat.Warm.Kept.{greedy_assignments-IsSound}
use academic_affairs_system.CpSat.Objective.{quality_value}
use academic_affairs_system.CpSat.Objective.Ranking.{weighed_score, quality_value-ranks}
use academic_affairs_system.CpSat.Run.{
  Model, Answer, feasible, unknown, has_solution, first_model, satisfies_model, starting_nodes,
  run_solver, run_cp_sat,
}
use academic_affairs_system.CpSat.Run.Limited.{run_cp_sat-daily_load}
use academic_affairs_system.CpSat.Run.Outcome.{
  Respects, WarmIsSound, run_cp_sat-IsSound, complete_schedule_feasible_iff,
}
use academic_affairs_system.Examples.Data.{two_classes, only_maths}
use academic_affairs_system.Examples.CpSat.{program}
use academic_affairs_system.Examples.Greedy.{only_maths-IsSound}

-- A solver that says FEASIBLE and chooses no candidate.
abbrev pub lazy_solver : Model → Answer
lazy_solver m = record {
  status = feasible;
  literals = λ n. false;
  assigned = λ n. false;
  objective_value = 0;
  best_bound = 0;
}

lazy_count : (g : List ℕ) → count_true (λ n. false) g ≡ 0
lazy_count [] = refl
lazy_count (n ∷ g) = omega (arith, lazy_count g)

lazy_rows : (rs : List Row) → satisfies_rows (λ n. false) (λ n. false) rs ≡ true
unfolding satisfies_rows
lazy_rows [] = refl
lazy_rows (sum_is ls n ∷ rs) = ground (arith, lazy_count ls, lazy_rows rs)
lazy_rows (zero_is n ∷ rs) = ground (arith, lazy_rows rs)

lazy_conflicts : (gs : List (List ℕ)) → satisfies_conflicts (λ n. false) gs ≡ true
unfolding satisfies_conflicts
lazy_conflicts [] = refl
lazy_conflicts (g ∷ gs) = ground (arith, lazy_count g, lazy_conflicts gs)

lazy_terms : (ts : List (ℕ × ℕ)) → terms_value (λ n. false) ts ≡ 0
lazy_terms [] = refl
lazy_terms ((c, n) ∷ ts) = omega (arith, lazy_terms ts)

lazy_limits : (rows : List LimitRow) → satisfies_limits (λ n. false) rows ≡ true
unfolding satisfies_limits
lazy_limits [] = refl
lazy_limits (at_most ts l ∷ rows) = ground (arith, lazy_terms ts, lazy_limits rows)
lazy_limits (excess_of p ts l ∷ rows) = lazy_limits rows

pub lazy_solver-Respects : Respects lazy_solver
unfolding satisfies_model satisfies_compiled
lazy_solver-Respects m e = ground (
  arith,
  lazy_rows m.created.rows,
  lazy_conflicts m.compiled.hard_groups,
  lazy_conflicts m.compiled.hard_pairs,
  lazy_limits m.limits,
)

-- A warm start from a solution in which maths is placed.
abbrev maths_nodes : List ClassNode
maths_nodes = solution_nodes only_maths

maths_nodes-WarmIsSound : WarmIsSound two_classes (some maths_nodes)
maths_nodes-WarmIsSound nodes e =
    subst
      (λ ns.
        IsSound two_classes.agents two_classes.distributions (greedy_assignments two_classes ns))
      (same e) (greedy_assignments-IsSound two_classes only_maths only_maths-IsSound)
  where
    same : some maths_nodes ≡ some nodes → maths_nodes ≡ nodes
    same q = cc

run_cp_sat-IsSound_example :
    IsSound two_classes.agents two_classes.distributions
      (run_cp_sat lazy_solver true two_classes (some maths_nodes)).assignments
run_cp_sat-IsSound_example =
    run_cp_sat-IsSound lazy_solver true two_classes (some maths_nodes) lazy_solver-Respects
      maths_nodes-WarmIsSound

complete_schedule_feasible_iff_example :
    ((run_solver lazy_solver true two_classes only_maths).complete_schedule_feasible ≡ true) ↔ (
      (g : ClassAgent)
      → Elem g two_classes.agents
      → has_key g.class_id (run_solver lazy_solver true two_classes only_maths).assignments ≡ true)
complete_schedule_feasible_iff_example =
    complete_schedule_feasible_iff lazy_solver true two_classes only_maths

greedy_assignments-IsSound_example :
    IsSound two_classes.agents two_classes.distributions
      (greedy_assignments two_classes (solution_nodes only_maths))
greedy_assignments-IsSound_example =
    greedy_assignments-IsSound two_classes only_maths only_maths-IsSound

-- Maths in its second slot and music in the first.
abbrev both_placed : ℕ → Bool
both_placed n = not (n == 0)

both_placed-satisfies :
    satisfies_compiled both_placed
      (λ n. true)
      (create_candidates two_classes.agents)
      (compile_constraints two_classes.distributions
        (create_candidates two_classes.agents).candidates_by_class)
    ≡ true
unfolding program satisfies_compiled satisfies_rows satisfies_conflicts
both_placed-satisfies = refl

read_assignments-IsSound_example :
    IsSound two_classes.agents two_classes.distributions
      (read_assignments both_placed (create_candidates two_classes.agents).candidates_by_class)
read_assignments-IsSound_example =
    read_assignments-IsSound two_classes both_placed (λ n. true) both_placed-satisfies

maths_variable : lookup (text "m") (create_candidates two_classes.agents).assigned_by_class ≡ some 0
unfolding program
maths_variable = refl

has_key-read_assignments_example :
    has_key
      (text "m")
      (read_assignments both_placed (create_candidates two_classes.agents).candidates_by_class)
    ≡ true
has_key-read_assignments_example =
    has_key-read_assignments two_classes both_placed (λ n. true)
      (compile_constraints two_classes.distributions
        (create_candidates two_classes.agents).candidates_by_class)
      (text "m") 0 both_placed-satisfies maths_variable

-- Both classes together have at most two slots a day.
abbrev two_a_day : ResourceLimit
two_a_day = record {
  constraint_id = text "r";
  limit_type = max_daily_lessons;
  required = true;
  penalty = 0;
  limit = 2;
  class_ids = text "m" ∷ text "u" ∷ [];
  name = text "daily";
  scope = text "custom";
}

abbrev limited : Problem
limited = record two_classes { resource_limits = two_a_day ∷ [] }

both_placed-limits :
    satisfies_limits both_placed (
      compile_resource_limits limited.resource_limits
        (create_candidates limited.agents).candidates_by_class)
    ≡ true
unfolding program satisfies_limits compile_resource_limits day_rows action_uses_day
both_placed-limits = refl

daily_load-bounds_example :
    load (
      actions_on_day 1 (
        limited_actions
          (read_assignments both_placed (create_candidates limited.agents).candidates_by_class)
          two_a_day.class_ids))
    ≤ two_a_day.limit
daily_load-bounds_example =
    daily_load-bounds limited both_placed two_a_day 1 both_placed-limits (inl refl) refl refl
      (inl refl)

-- A solver that places both classes where the model admits it, and gives up elsewhere.
abbrev pair_solver : Model → Answer
pair_solver m = record {
  status = if satisfies_model both_placed (λ n. true) m then feasible else unknown;
  literals = both_placed;
  assigned = λ n. true;
  objective_value = 0;
  best_bound = 0;
}

answers : (b : Bool) → has_solution (if b then feasible else unknown) ≡ true → b ≡ true
answers true e = refl
answers false e = cc

pair_solver-Respects : Respects pair_solver
pair_solver-Respects m e = answers (satisfies_model both_placed (λ n. true) m) e

pair_solver-answers :
    has_solution
      (pair_solver
        (first_model limited (greedy_assignments limited (starting_nodes limited none)))).status
    ≡ true
unfolding program first_model satisfies_model satisfies_compiled satisfies_rows satisfies_conflicts
    satisfies_limits compile_resource_limits day_rows action_uses_day
pair_solver-answers = refl

run_cp_sat-daily_load_example :
    load (
      actions_on_day 1 (
        limited_actions (run_cp_sat pair_solver true limited none).assignments two_a_day.class_ids))
    ≤ two_a_day.limit
run_cp_sat-daily_load_example =
    run_cp_sat-daily_load pair_solver true limited none two_a_day 1 pair_solver-Respects
      pair_solver-answers (inl refl) refl refl (inl refl)

both_placed-rows :
    satisfies_rows both_placed (λ n. true) (create_candidates two_classes.agents).rows ≡ true
unfolding program satisfies_rows
both_placed-rows = refl

-- Without a soft violation the score is 0, with the violated spread it is 5.
both_placed-score :
    weighed_score two_classes both_placed [] < weighed_score two_classes both_placed ((5, 1) ∷ [])
unfolding program
both_placed-score = omega arith

quality_value-ranks_example :
    quality_value two_classes (create_candidates two_classes.agents) both_placed (λ n. true) []
    < quality_value two_classes
        (create_candidates two_classes.agents)
        both_placed
        (λ n. true)
        ((5, 1) ∷ [])
quality_value-ranks_example =
    quality_value-ranks two_classes both_placed (λ n. true) both_placed (λ n. true) [] ((5, 1) ∷ [])
      (refl, (refl, tt)) both_placed-rows both_placed-rows both_placed-score
