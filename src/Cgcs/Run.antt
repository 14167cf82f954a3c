-- ===== src/Cgcs/Run.antt =====
-- `run_cgcs_greedy` of sidecar/stt_desktop/scheduler_engine/cgcs.py, from the parsed problem to the
-- numbers of its result. The result's solution is the assignments that the XML is printed from.
pub mod Correct
use academic_affairs_system.Common.{ℕ, ◌+◌, List, [], ◌∷◌, Option, none, some, length, map}
use academic_affairs_system.Common.Text.{Text}
use academic_affairs_system.Cgcs.Model.{ClassAgent, Action, Distribution, Assignments, Problem}
use academic_affairs_system.Cgcs.Checks.{Score, score}
use academic_affairs_system.Cgcs.Greedy.{Progress, place_all, start, ordered_agents}
use academic_affairs_system.Cgcs.Repair.{agents_by_id, repair_failed_agents}

pub record GreedyResult : Type 0 where
  pub assignments : Assignments
  pub failed : List ClassAgent
  pub failed_labels : List Text
  pub hard_violations : ℕ
  pub metrics : Score

abbrev pub result_of :
    List Distribution → Option (Assignments × List ClassAgent) → Option GreedyResult
result_of ds none = none
result_of ds (some (m, failed)) = some (record {
  assignments = m;
  failed = failed;
  failed_labels = map (λ (g : ClassAgent). g.label) failed;
  hard_violations = length failed;
  metrics = score m ds;
})

-- The classes placed one by one, before the repair.
unfoldable pub first_pass : Problem → Progress
first_pass p = place_all p.distributions (ordered_agents p.agents p.distributions) start

unfoldable pub run_cgcs_greedy : Problem → Option GreedyResult
run_cgcs_greedy p =
    let s = first_pass p in
    result_of p.distributions
      (repair_failed_agents p.distributions (agents_by_id p.agents []) s.failed s.assignments)
