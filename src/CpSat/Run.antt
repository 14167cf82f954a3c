-- ===== src/CpSat/Run.antt =====
-- `run_cp_sat_v1` of sidecar/stt_desktop/scheduler_engine/cp_sat.py, with `_pair_is_hard` and
-- `_build_quality_objective`. The solver is a function from a model to an answer, a parameter, and
-- so is whether time is left after its first answer.
pub mod Outcome
pub mod Limited
use academic_affairs_system.Common.{
  ℕ, ◌+◌, ◌-◌, ◌*◌, max, ◌≡◌, Bool, true, false, not, ◌&&◌, ◌||◌, List, [], ◌∷◌, ◌++◌, Option, none,
  some, any, select, sum_of, length, map, ◌==◌, if◌then◌else◌,
}
use academic_affairs_system.Common.Text.{Text, text_lt, contains}
use academic_affairs_system.Common.Dict.{lookup, values, has_key}
use academic_affairs_system.Common.Sort.{sort_by}
use academic_affairs_system.Cgcs.Model.{ClassAgent, Action, base_penalty, Assignments, Problem}
use academic_affairs_system.Cgcs.Checks.{Score, score}
use academic_affairs_system.Cgcs.Run.{GreedyResult, run_cgcs_greedy}
use academic_affairs_system.CpSat.Candidates.{Candidate, Created, create_candidates}
use academic_affairs_system.CpSat.Conflicts.{Compiled}
use academic_affairs_system.CpSat.Compile.{compile_constraints, candidates_at}
use academic_affairs_system.CpSat.Solve.{as_number, satisfies_compiled, read_assignments}
use academic_affairs_system.CpSat.Limits.{
  LimitRow, satisfies_limits, compile_resource_limits, score_resource_limits,
}
use academic_affairs_system.CpSat.Warm.{ClassNode, solution_nodes, greedy_assignments}

-- Two ordinals stand in one group.
abbrev pub in_one_group : List ℕ → List (List ℕ) → Bool
in_one_group pair groups = any (λ g. not (any (λ n. not (any (λ k. k == n) g)) pair)) groups

-- The pair is a hard one, or the groups of its two ordinals have one in common.
unfoldable pub pair_is_hard : List ℕ → Compiled → Bool
pair_is_hard pair c = if contains pair c.hard_pairs then true else in_one_group pair c.hard_groups

-- `sorted(soft_pair_weights.items())`, without the pairs that are hard or cost nothing.
unfoldable pub soft_violations : Compiled → List (List ℕ × ℕ)
unfolding pair_is_hard
soft_violations c =
    select (λ v. not (pair_is_hard v.0 c || v.1 == 0))
      (sort_by (λ a b. text_lt a.0 b.0) c.soft_pair_weights)

abbrev pub candidate_count : Created → ℕ
candidate_count created = sum_of length (values created.candidates_by_class)

abbrev pub tie_bound : Problem → Created → ℕ
tie_bound p created = max 1 (length p.agents * length p.agents + candidate_count created)

abbrev pub score_weight : Problem → Created → ℕ
score_weight p created = tie_bound p created + 1

-- What the solver is asked for.
pub data Goal : Type 0 where
  maximize_assigned : Goal
  minimize_quality : (assigned_count score_weight : ℕ) → Goal

pub record Model : Type 0 where
  pub created : Created
  pub compiled : Compiled
  pub limits : List LimitRow
  pub soft : List (List ℕ × ℕ)
  pub hint : Assignments
  pub goal : Goal

pub data SolverStatus : Type 0 where
  optimal feasible infeasible model_invalid unknown : SolverStatus

pub record Answer : Type 0 where
  pub status : SolverStatus
  pub literals : ℕ → Bool
  pub assigned : ℕ → Bool
  pub objective_value : ℕ
  pub best_bound : ℕ

-- The values satisfy all rows of the model: of the classes, the conflicts and the required limits.
unfoldable pub satisfies_model : (ℕ → Bool) → (ℕ → Bool) → Model → Bool
unfolding satisfies_compiled satisfies_limits
satisfies_model x assigned m =
    satisfies_compiled x assigned m.created m.compiled && satisfies_limits x m.limits

-- `status in {cp_model.OPTIMAL, cp_model.FEASIBLE}`
abbrev pub has_solution : SolverStatus → Bool
has_solution optimal = true
has_solution feasible = true
has_solution _ = false

abbrev pub is_optimal : SolverStatus → Bool
is_optimal optimal = true
is_optimal _ = false

pub data RunStatus : Type 0 where
  zero_lower_bound : RunStatus
  solver_said : SolverStatus → RunStatus

pub record RunResult : Type 0 where
  pub fast_path : Bool
  pub assignments : Assignments
  pub hard_violations : ℕ
  pub assigned_count : ℕ
  pub class_count : ℕ
  pub unassigned_class_ids : List Text
  pub metrics : Score
  pub solver_status : RunStatus
  pub feasibility_status : RunStatus
  pub quality_status : Option RunStatus
  pub hard_feasibility_proven : Bool
  pub complete_schedule_feasible : Bool
  pub max_assignable_count : Option ℕ
  pub objective_value : Option ℕ

abbrev pub nodes_of_result : Option GreedyResult → List ClassNode
nodes_of_result none = []
nodes_of_result (some r) = solution_nodes r.assignments

-- The nodes of the warm start, or those that the greedy search finds without one.
abbrev pub starting_nodes : Problem → Option (List ClassNode) → List ClassNode
starting_nodes p none = nodes_of_result (run_cgcs_greedy p)
starting_nodes p (some nodes) = nodes

abbrev pub is_zero_penalty : Problem → Assignments → Bool
is_zero_penalty p greedy =
    length greedy == length p.agents
    && (score greedy p.distributions).total_score == 0
    && length p.resource_limits == 0

abbrev pub fast_result : Problem → Assignments → RunResult
fast_result p greedy = record {
  fast_path = true;
  assignments = greedy;
  hard_violations = 0;
  assigned_count = length greedy;
  class_count = length p.agents;
  unassigned_class_ids = [];
  metrics = record {
    time_penalty = 0;
    room_penalty = 0;
    distribution_penalty = 0;
    total_score = 0;
  };
  solver_status = zero_lower_bound;
  feasibility_status = zero_lower_bound;
  quality_status = some zero_lower_bound;
  hard_feasibility_proven = true;
  complete_schedule_feasible = true;
  max_assignable_count = some (length p.agents);
  objective_value = some 0;
}

unfoldable pub first_model : Problem → Assignments → Model
unfolding soft_violations
first_model p greedy =
    let created = create_candidates p.agents in
    let compiled = compile_constraints p.distributions created.candidates_by_class in
    record {
      created = created;
      compiled = compiled;
      limits = compile_resource_limits p.resource_limits created.candidates_by_class;
      soft = soft_violations compiled;
      hint = greedy;
      goal = maximize_assigned;
    }

unfoldable pub second_model : Problem → Model → Assignments → Model
second_model p m found = record m {
  hint = found;
  goal = minimize_quality (length found) (score_weight p m.created);
}

-- The values' assignments if there are values, the others otherwise.
abbrev pub read_or : Model → Answer → Assignments → Assignments
read_or m answer others =
    if has_solution answer.status
    then read_assignments answer.literals m.created.candidates_by_class
    else others

abbrev pub can_optimize_quality : Problem → Bool → Answer → Assignments → Bool
can_optimize_quality p time_left answer found =
    has_solution answer.status
    && time_left
    && (is_optimal answer.status || length found == length p.agents)

abbrev pub add_limits : ℕ → Score → Score
add_limits n s = record s {
  distribution_penalty = s.distribution_penalty + n;
  total_score = s.total_score + n;
}

unfoldable pub unassigned_ids : List ClassAgent → Assignments → List Text
unassigned_ids agents m =
    map (λ (g : ClassAgent). g.class_id) (select (λ g. not (has_key g.class_id m)) agents)

-- The second answer's status and value where it has a solution.
abbrev pub status_after : Answer → Option Answer → SolverStatus
status_after first none = first.status
status_after first (some second) =
    if has_solution second.status then second.status else first.status

abbrev pub objective_after : Option Answer → Option ℕ
objective_after none = none
objective_after (some second) =
    if has_solution second.status then some second.objective_value else none

abbrev pub assignments_after : Model → Option Answer → Assignments → Assignments
assignments_after m none found = found
assignments_after m (some second) found = read_or m second found

abbrev pub quality_after : Option Answer → Option RunStatus
quality_after none = none
quality_after (some second) = some (solver_said second.status)

unfoldable pub finish : Problem → Model → Answer → Option Answer → Assignments → RunResult
unfolding unassigned_ids
finish p m first second found =
    let final = assignments_after m second found in
    let missing = unassigned_ids p.agents final in
    record {
      fast_path = false;
      assignments = final;
      hard_violations = length missing;
      assigned_count = length final;
      class_count = length p.agents;
      unassigned_class_ids = missing;
      metrics =
          add_limits (score_resource_limits final p.resource_limits) (score final p.distributions);
      solver_status = solver_said (status_after first second);
      feasibility_status = solver_said first.status;
      quality_status = quality_after second;
      hard_feasibility_proven = is_optimal first.status;
      complete_schedule_feasible = length missing == 0;
      max_assignable_count = if is_optimal first.status then some first.objective_value else none;
      objective_value = objective_after second;
    }

unfoldable pub run_solver : (Model → Answer) → Bool → Problem → Assignments → RunResult
unfolding first_model second_model finish
run_solver solve time_left p greedy =
    let m = first_model p greedy in
    let first = solve m in
    let found = read_or m first greedy in
    if can_optimize_quality p time_left first found
    then finish p m first (some (solve (second_model p m found))) found
    else finish p m first none found

unfoldable pub run_cp_sat : (Model → Answer) → Bool → Problem → Option (List ClassNode) → RunResult
unfolding run_solver
run_cp_sat solve time_left p warm_start =
    let greedy = greedy_assignments p (starting_nodes p warm_start) in
    if is_zero_penalty p greedy then fast_result p greedy else run_solver solve time_left p greedy
