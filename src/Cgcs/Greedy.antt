-- ===== src/Cgcs/Greedy.antt =====
-- `run_cgcs_greedy` (up to its metrics) and `_agent_order_key` of
-- sidecar/stt_desktop/scheduler_engine/cgcs.py.
pub mod Choice
pub mod Placing
use academic_affairs_system.Common.{
  ℕ, suc, ◌+◌, Bool, true, false, not, ◌&&◌, ◌||◌, List, [], ◌∷◌, ◌++◌, Option, none, some, length,
  ltb, ◌==◌, if◌then◌else◌,
}
use academic_affairs_system.Common.Text.{Text, text_lt, contains}
use academic_affairs_system.Common.Dict.{lookup, insert, has_key}
use academic_affairs_system.Common.Sort.{sort_by, min_from}
use academic_affairs_system.Cgcs.Model.{
  ClassAgent, Action, base_penalty, Distribution, DistributionType, not_overlap, consecutive,
  Assignments, Problem,
}
use academic_affairs_system.Cgcs.Rules.{index}
use academic_affairs_system.Cgcs.Actions.{actions}
use academic_affairs_system.Cgcs.Checks.{is_feasible, incremental_soft_penalty}

-- `distribution.distribution_type == "Consecutive"`
abbrev pub is_consecutive : DistributionType → Bool
is_consecutive consecutive = true
is_consecutive _ = false

-- Positions of the class in the "Consecutive" distributions, counted from `i`.
unfoldable pub consecutive_positions : ℕ → Text → List Distribution → List (ℕ × ℕ)
consecutive_positions i class_id [] = []
consecutive_positions i class_id (d ∷ ds) =
    let rest = consecutive_positions (i + 1) class_id ds in
    if is_consecutive d.distribution_type && contains class_id d.class_ids
    then (i, index class_id d.class_ids) ∷ rest
    else rest

abbrev pub pair_lt : ℕ × ℕ → ℕ × ℕ → Bool
pair_lt (a, b) (c, d) = ltb a c || (a == c && ltb b d)

abbrev pub OrderKey : Type 0
OrderKey = ℕ × ℕ × ℕ × ℕ × Text

abbrev pub order_key_lt : OrderKey → OrderKey → Bool
order_key_lt (a, b, c, d, s) (a', b', c', d', s') =
    ltb a a'
    || (a == a'
        && (ltb b b'
            || (b == b' && (ltb c c' || (c == c' && (ltb d d' || (d == d' && text_lt s s')))))))

abbrev pub order_key_from : List (ℕ × ℕ) → ℕ → ℕ → Text → OrderKey
order_key_from [] distribution_count action_count class_id =
    (1, distribution_count, 0, action_count, class_id)
order_key_from (p ∷ ps) distribution_count action_count class_id =
    let (distribution_index, class_index) = min_from pair_lt p ps in
    (0, distribution_index, class_index, action_count, class_id)

unfoldable pub agent_order_key : ClassAgent → List Distribution → OrderKey
unfolding consecutive_positions index actions
agent_order_key agent distributions =
    order_key_from (consecutive_positions 0 agent.class_id distributions) (length distributions)
      (length (actions agent)) agent.class_id

unfoldable pub ordered_agents : List ClassAgent → List Distribution → List ClassAgent
unfolding agent_order_key
ordered_agents agents distributions =
    sort_by
      (λ a b. order_key_lt (agent_order_key a distributions) (agent_order_key b distributions))
      agents

-- `action.base_penalty + _incremental_soft_penalty(action, assignments, distributions)`
unfoldable pub full_penalty : Action → Assignments → List Distribution → ℕ
full_penalty a m ds = base_penalty a + incremental_soft_penalty a m ds

-- `best_penalty is None or penalty < best_penalty`
abbrev pub better : Action → ℕ → Option (Action × ℕ) → Option (Action × ℕ)
better a p none = some (a, p)
better a p (some (b, q)) = if ltb p q then some (a, p) else some (b, q)

-- The inner loop, over `best_action` and `best_penalty`.
unfoldable pub choose :
    Assignments → List Distribution → List Action → Option (Action × ℕ) → Option (Action × ℕ)
unfolding full_penalty
choose m ds [] best = best
choose m ds (a ∷ rest) best =
    choose m ds rest
      (if not (is_feasible a m ds) then best else better a (full_penalty a m ds) best)

-- The assignments, and the agents that found no place.
pub record Progress : Type 0 where
  pub assignments : Assignments
  pub failed : List ClassAgent

abbrev pub settle : ClassAgent → Progress → Option (Action × ℕ) → Progress
settle agent s none = record s { failed = s.failed ++ agent ∷ [] }
settle agent s (some (a, p)) = record s { assignments = insert agent.class_id a s.assignments }

-- One round of the outer loop.
unfoldable pub place : List Distribution → ClassAgent → Progress → Progress
unfolding choose
place ds agent s =
    if has_key agent.class_id s.assignments
    then s
    else settle agent s (choose s.assignments ds (actions agent) none)

unfoldable pub place_all : List Distribution → List ClassAgent → Progress → Progress
unfolding place
place_all ds [] s = s
place_all ds (agent ∷ agents) s = place_all ds agents (place ds agent s)

abbrev pub start : Progress
start = record { assignments = []; failed = [] }
