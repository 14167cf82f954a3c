-- ===== src/Cgcs/Repair.antt =====
-- `_repair_failed_agents`, `_best_feasible_action` and `_repair_by_relocating_one` of
-- sidecar/stt_desktop/scheduler_engine/cgcs.py.
pub mod Best
pub mod Undo
pub mod Relocation
pub mod Elsewhere
pub mod Ending
pub mod Rounds
use academic_affairs_system.Common.{
  ℕ, zero, suc, ◌+◌, Bool, true, false, not, List, [], ◌∷◌, ◌++◌, Option, none, some, select,
  length, ltb, ◌==◌, if◌then◌else◌,
}
use academic_affairs_system.Common.Text.{Text, or_empty}
use academic_affairs_system.Common.Dict.{lookup, insert, erase}
use academic_affairs_system.Common.Keys.{Key, lt_on}
use academic_affairs_system.Common.Sort.{min_from}
use academic_affairs_system.Cgcs.Model.{ClassAgent, Action, action_eq, Distribution, Assignments}
use academic_affairs_system.Cgcs.Actions.{actions}
use academic_affairs_system.Cgcs.Checks.{is_feasible, blocking_class_ids}
use academic_affairs_system.Cgcs.Greedy.{full_penalty}

abbrev pub choice_key : Assignments → List Distribution → Action → Key
choice_key m ds a = (full_penalty a m ds, a.time.start, or_empty a.room_id)

-- `min(candidates, key=...)` of a list that may be empty.
abbrev pub first_least : Assignments → List Distribution → List Action → Option Action
first_least m ds [] = none
first_least m ds (a ∷ rest) = some (min_from (lt_on (choice_key m ds)) a rest)

unfoldable pub best_feasible_action : ClassAgent → Assignments → List Distribution → Option Action
unfolding full_penalty
best_feasible_action agent m ds =
    first_least m ds (select (λ a. is_feasible a m ds) (actions agent))

-- `plan = (penalty, candidate, blocker_id, replacement)`
pub record Plan : Type 0 where
  pub penalty : ℕ
  pub candidate : Action
  pub blocker_id : Text
  pub replacement : Action

-- `{agent.class_id: agent for agent in problem.agents}`
unfoldable pub agents_by_id : List ClassAgent → List (Text × ClassAgent) → List (Text × ClassAgent)
agents_by_id [] d = d
agents_by_id (g ∷ gs) d = agents_by_id gs (insert g.class_id g d)

-- `if best_plan is None or plan[0] < best_plan[0]: best_plan = plan`
abbrev pub better_plan : Plan → Option Plan → Option Plan
better_plan plan none = some plan
better_plan plan (some best) = if ltb plan.penalty best.penalty then some plan else some best

module _ (ds : List Distribution) (by_id : List (Text × ClassAgent)) (failed : ClassAgent) where
  -- What the `finally` clause leaves.
  abbrev pub restore : Text → Action → Assignments → Assignments
  restore blocker_id blocker_action m = insert blocker_id blocker_action (erase failed.class_id m)

  -- The body of the `try` once the candidate fits without its blocker, and the new best plan.
  abbrev pub plan_with :
      Action → Text → Action → Assignments → Option Action → Option Plan → Option Plan
  plan_with candidate blocker_id blocker_action without none best = best
  plan_with candidate blocker_id blocker_action without (some replacement) best =
      if action_eq replacement blocker_action
      then best
      else better_plan
          (record {
            penalty =
                full_penalty candidate without ds
                + full_penalty replacement (insert failed.class_id candidate without) ds;
            candidate = candidate;
            blocker_id = blocker_id;
            replacement = replacement;
          })
          best

  -- `agents_by_id[blocker_id]` is there for every class that is placed (`Repair.Relocation`).
  unfoldable pub relocate_blocker :
      Action → Text → Action → Assignments → Option Plan → Assignments × Option Plan
  unfolding best_feasible_action
  relocate_blocker candidate blocker_id blocker_action without best =
      let trial = insert failed.class_id candidate without in
      if not (is_feasible candidate without ds)
      then (restore blocker_id blocker_action without, best)
      else elim (lookup blocker_id by_id) [
        | none ↦ (restore blocker_id blocker_action trial, best)
        | some blocker_agent ↦ (
          restore blocker_id blocker_action trial,
          plan_with candidate blocker_id blocker_action without
              (best_feasible_action blocker_agent trial ds) best,
        )
      ]

  -- `if len(blocker_ids) != 1: continue`, then `assignments.pop(blocker_id)`.
  abbrev pub relocate_sole :
      Action → List Text → Assignments × Option Plan → Assignments × Option Plan
  relocate_sole candidate (blocker_id ∷ []) (m, best) = elim (lookup blocker_id m) [
    | none ↦ (m, best)
    | some blocker_action ↦
        relocate_blocker candidate blocker_id blocker_action (erase blocker_id m) best
  ]
  relocate_sole candidate _ s = s

  -- The loop over the failed agent's actions.
  unfoldable pub relocate_from : List Action → Assignments × Option Plan → Assignments × Option Plan
  unfolding relocate_blocker
  relocate_from [] s = s
  relocate_from (candidate ∷ rest) (m, best) =
      relocate_from rest (relocate_sole candidate (blocking_class_ids candidate m ds) (m, best))

  abbrev pub apply_plan : Assignments × Option Plan → Assignments × Bool
  apply_plan (m, none) = (m, false)
  apply_plan (m, some plan) =
      (insert plan.blocker_id plan.replacement (insert failed.class_id plan.candidate m), true)

  unfoldable pub repair_by_relocating_one : Assignments → Assignments × Bool
  unfolding relocate_from
  repair_by_relocating_one m = apply_plan (relocate_from (actions failed) (m, none))

-- The state of one pass: the assignments, the agents that remain, and `repaired_count`.
pub record Pass : Type 0 where
  pub assignments : Assignments
  pub remaining : List ClassAgent
  pub repaired_count : ℕ

abbrev pub after_relocation : ClassAgent → Pass → Assignments × Bool → Pass
after_relocation agent s (m, true) = record s {
  assignments = m;
  repaired_count = s.repaired_count + 1;
}
after_relocation agent s (m, false) = record s {
  assignments = m;
  remaining = s.remaining ++ agent ∷ [];
}

module _ (ds : List Distribution) (by_id : List (Text × ClassAgent)) where
  abbrev pub after_direct : ClassAgent → Pass → Option Action → Pass
  after_direct agent s (some a) = record s {
    assignments = insert agent.class_id a s.assignments;
    repaired_count = s.repaired_count + 1;
  }
  after_direct agent s none =
      after_relocation agent s (repair_by_relocating_one ds by_id agent s.assignments)

  unfoldable pub repair_pass : List ClassAgent → Pass → Pass
  unfolding repair_by_relocating_one best_feasible_action
  repair_pass [] s = s
  repair_pass (agent ∷ rest) s =
      repair_pass rest (after_direct agent s (best_feasible_action agent s.assignments ds))

  abbrev pub begin_pass : Assignments → Pass
  begin_pass m = record { assignments = m; remaining = []; repaired_count = 0 }

  -- The `while pending` loop on fuel; `none` means that the fuel ran out.
  unfoldable pub repair_rounds :
      ℕ → List ClassAgent → Assignments → Option (Assignments × List ClassAgent)
  unfolding repair_pass
  repair_rounds fuel [] m = some (m, [])
  repair_rounds zero (g ∷ gs) m = none
  repair_rounds (suc fuel) (g ∷ gs) m =
      let s = repair_pass (g ∷ gs) (begin_pass m) in
      let rest = repair_rounds fuel s.remaining s.assignments in
      if s.repaired_count == 0 then some (s.assignments, s.remaining) else rest

  -- A round that goes on has repaired a class, so one round for each class is enough fuel.
  unfoldable pub repair_failed_agents :
      List ClassAgent → Assignments → Option (Assignments × List ClassAgent)
  unfolding repair_rounds
  repair_failed_agents failed m = repair_rounds (length failed) failed m
