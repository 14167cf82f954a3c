-- ===== src/CpSat/Objective.antt =====
-- The value of `_build_quality_objective` of sidecar/stt_desktop/scheduler_engine/cp_sat.py at the
-- values of the literals and of the variables `assigned_n`.
pub mod Ranking
pub mod Ties
use academic_affairs_system.Common.{
  ℕ, ◌+◌, ◌-◌, ◌*◌, max, ◌≡◌, Bool, true, false, List, [], ◌∷◌, Option, none, some, sum_of, length,
  if◌then◌else◌,
}
use academic_affairs_system.Common.Text.{Text}
use academic_affairs_system.Common.Dict.{lookup}
use academic_affairs_system.Cgcs.Model.{ClassAgent, base_penalty, Problem}
use academic_affairs_system.CpSat.Candidates.{Candidate, Created}
use academic_affairs_system.CpSat.Compile.{candidates_at}
use academic_affairs_system.CpSat.Solve.{as_number}
use academic_affairs_system.CpSat.Run.{score_weight}

abbrev pub variable_value : (ℕ → Bool) → Option ℕ → ℕ
variable_value assigned none = 0
variable_value assigned (some n) = as_number (assigned n)

-- `(base_penalty * score_weight + candidate_tie) * literal`
abbrev pub candidate_term : (ℕ → Bool) → ℕ → Candidate → ℕ
candidate_term x weight c =
    if x c.ordinal then base_penalty c.action * weight + c.action_index else 0

-- The terms of one class, whose index counts down from the number of classes.
abbrev pub agent_terms : (ℕ → Bool) → (ℕ → Bool) → Created → ℕ → ℕ → ClassAgent → ℕ
agent_terms x assigned created weight unassigned_tie agent =
    unassigned_tie * (1 - variable_value assigned (lookup agent.class_id created.assigned_by_class))
    + sum_of (candidate_term x weight) (candidates_at created.candidates_by_class agent.class_id)

unfoldable pub agents_terms : (ℕ → Bool) → (ℕ → Bool) → Created → ℕ → ℕ → List ClassAgent → ℕ
agents_terms x assigned created weight unassigned_tie [] = 0
agents_terms x assigned created weight unassigned_tie (g ∷ gs) =
    agent_terms x assigned created weight unassigned_tie g
    + agents_terms x assigned created weight (unassigned_tie - 1) gs

-- A soft violation has its weight and its value, a Boolean or an excess.
abbrev pub violation_terms : ℕ → List (ℕ × ℕ) → ℕ
violation_terms weight = sum_of (λ v. v.0 * weight * v.1)

unfoldable pub quality_value : Problem → Created → (ℕ → Bool) → (ℕ → Bool) → List (ℕ × ℕ) → ℕ
unfolding agents_terms
quality_value p created x assigned soft =
    agents_terms x assigned created (score_weight p created) (length p.agents) p.agents
    + violation_terms (score_weight p created) soft
