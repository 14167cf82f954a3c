-- ===== src/Examples/Greedy.antt =====
-- The greedy scheduler's theorems at the two classes, and a run of it.
use academic_affairs_system.Common.{
  ◌+◌, ◌≡◌, refl, ◌↔◌, true, none, some, List, [], ◌∷◌, arith, inl, inr, Elem,
}
use academic_affairs_system.Common.Text.{text}
use academic_affairs_system.Common.Dict.{insert}
use academic_affairs_system.Cgcs.Model.{ClassAgent, Assignments, action_eq}
use academic_affairs_system.Cgcs.Times.{any_common_bit, shares_bit, overlaps}
use academic_affairs_system.Cgcs.Times.Overlap.{Collide, overlaps_iff}
use academic_affairs_system.Cgcs.Rules.{index, violates, violates_type}
use academic_affairs_system.Cgcs.Rules.Symmetry.{violates_comm}
use academic_affairs_system.Cgcs.Actions.{room_actions, all_room_actions, unsorted_actions, actions}
use academic_affairs_system.Cgcs.Actions.Offers.{Offers, actions_iff}
use academic_affairs_system.Cgcs.Checks.{
  is_feasible, blocking_class_ids, incremental_soft_penalty, score, pair_penalties, add_ids,
  room_blockers, hard_blockers, distribution_penalty, breaks, soft_penalty_of, breaks_hard,
  has_room_clash, same_room_overlap, is_hard_for, is_soft_for,
}
use academic_affairs_system.Cgcs.Checks.Hard.{HardValid, HardValid-empty, HardValid-insert}
use academic_affairs_system.Cgcs.Greedy.Placing.{IsSound, IsSound-empty, IsSound-insert}
use academic_affairs_system.Cgcs.Repair.Undo.{IsIndex}
use academic_affairs_system.Cgcs.Repair.Relocation.{repair_by_relocating_one-IsSound}
use academic_affairs_system.Cgcs.Repair.Ending.{repair_failed_agents_total}
use academic_affairs_system.Cgcs.Checks.Blocking.{is_feasible_iff_unblocked}
use academic_affairs_system.Cgcs.Checks.Soft.{score-insert}
use academic_affairs_system.Cgcs.Greedy.{
  consecutive_positions, agent_order_key, ordered_agents, full_penalty, choose, place, place_all,
}
use academic_affairs_system.Cgcs.Greedy.Choice.{IsBestChoice, choose-IsBestChoice}
use academic_affairs_system.Cgcs.Repair.{
  best_feasible_action, agents_by_id, repair_failed_agents, repair_rounds, repair_pass,
  repair_by_relocating_one, relocate_from, relocate_blocker,
}
use academic_affairs_system.Cgcs.Repair.Best.{IsFirstFit, best_feasible_action-IsFirstFit}
use academic_affairs_system.Cgcs.Run.{GreedyResult, first_pass, run_cgcs_greedy}
use academic_affairs_system.Cgcs.Run.Correct.{
  IsCorrect, agents_by_id-IsIndex, run_cgcs_greedy-IsCorrect,
}
use academic_affairs_system.Examples.Data.{
  slot, maths, music, teacher, two_classes, maths_first, maths_second, music_first, only_music,
  only_maths,
}

-- What a run of the scheduler computes with.
unfoldable pub program : Unit {0}
unfolding action_eq any_common_bit shares_bit overlaps index violates violates_type actions
    room_actions all_room_actions unsorted_actions is_feasible has_room_clash breaks_hard breaks
    is_hard_for is_soft_for same_room_overlap blocking_class_ids add_ids room_blockers hard_blockers
    soft_penalty_of incremental_soft_penalty score distribution_penalty pair_penalties
    consecutive_positions agent_order_key ordered_agents full_penalty choose place place_all
    best_feasible_action agents_by_id repair_failed_agents repair_rounds repair_pass
    repair_by_relocating_one relocate_from relocate_blocker first_pass run_cgcs_greedy
program = tt

-- Music has one option and is placed first; maths goes to the second slot and breaks the spread.
run-two_classes :
    run_cgcs_greedy two_classes
    ≡ some (record {
      assignments = (text "u", music_first) ∷ (text "m", maths_second) ∷ [];
      failed = [];
      failed_labels = [];
      hard_violations = 0;
      metrics = record {
        time_penalty = 0;
        room_penalty = 0;
        distribution_penalty = 5;
        total_score = 5;
      };
    })
unfolding program
run-two_classes = refl

-- With maths in the only slot of music, the repair moves maths to its second slot.
repair-only_maths :
    repair_failed_agents two_classes.distributions
      (agents_by_id two_classes.agents [])
      (music ∷ [])
      only_maths
    ≡ some ((text "m", maths_second) ∷ (text "u", music_first) ∷ [], [])
unfolding program
repair-only_maths = refl

maths_first-feasible : is_feasible maths_first [] two_classes.distributions ≡ true
unfolding program
maths_first-feasible = refl

maths_second-feasible : is_feasible maths_second only_maths two_classes.distributions ≡ true
unfolding program
maths_second-feasible = refl

maths_first-Elem : Elem maths_first (actions maths)
unfolding program
maths_first-Elem = inl refl

only_maths-HardValid : HardValid two_classes.distributions only_maths
only_maths-HardValid =
    HardValid-insert two_classes.distributions maths_first []
      (HardValid-empty two_classes.distributions) maths_first-feasible

pub only_maths-IsSound : IsSound two_classes.agents two_classes.distributions only_maths
only_maths-IsSound =
    IsSound-insert two_classes.agents two_classes.distributions maths maths_first []
      (IsSound-empty two_classes.agents two_classes.distributions) (inl refl) maths_first-Elem
      maths_first-feasible

two_classes-IsIndex : IsIndex two_classes.agents (agents_by_id two_classes.agents [])
two_classes-IsIndex =
    agents_by_id-IsIndex two_classes.agents two_classes.agents [] (λ x i. i) (λ k g e. cc)

run_cgcs_greedy-IsCorrect_example :
    (r : GreedyResult) × (run_cgcs_greedy two_classes ≡ some r) × IsCorrect two_classes r
run_cgcs_greedy-IsCorrect_example = run_cgcs_greedy-IsCorrect two_classes

HardValid-insert_example :
    HardValid two_classes.distributions (insert (text "m") maths_second only_maths)
HardValid-insert_example =
    HardValid-insert two_classes.distributions maths_second only_maths only_maths-HardValid
      maths_second-feasible

choose-IsBestChoice_example :
    IsBestChoice only_music two_classes.distributions
      (actions maths)
      (choose only_music two_classes.distributions (actions maths) none)
choose-IsBestChoice_example =
    choose-IsBestChoice only_music two_classes.distributions (actions maths)

score-insert_example :
    (score (insert (text "m") maths_second only_music) two_classes.distributions).total_score
    ≡ (score only_music two_classes.distributions).total_score
      + full_penalty maths_second only_music two_classes.distributions
score-insert_example =
    score-insert maths_second only_music two_classes.distributions refl
      ((refl, (refl, tt)), ((refl, (refl, tt)), tt))

is_feasible_iff_unblocked_example :
    (is_feasible maths_first only_music two_classes.distributions ≡ true)
    ↔ (blocking_class_ids maths_first only_music two_classes.distributions ≡ [])
is_feasible_iff_unblocked_example =
    is_feasible_iff_unblocked maths_first only_music two_classes.distributions

overlaps_iff_example : (overlaps (slot 1) (slot 1) ≡ true) ↔ Collide (slot 1) (slot 1)
overlaps_iff_example = overlaps_iff (slot 1) (slot 1) (omega arith) (omega arith)

violates_comm_example :
    violates teacher maths_first music_first ≡ violates teacher music_first maths_first
violates_comm_example = violates_comm teacher maths_first music_first

actions_iff_example : Elem maths_first (actions maths) ↔ Offers maths maths_first
actions_iff_example = actions_iff maths maths_first

best_feasible_action-IsFirstFit_example :
    IsFirstFit maths only_music two_classes.distributions
      (best_feasible_action maths only_music two_classes.distributions)
best_feasible_action-IsFirstFit_example =
    best_feasible_action-IsFirstFit maths only_music two_classes.distributions

repair_by_relocating_one-IsSound_example :
    IsSound two_classes.agents two_classes.distributions
      (repair_by_relocating_one two_classes.distributions
        (agents_by_id two_classes.agents [])
        music
        only_maths).0
repair_by_relocating_one-IsSound_example =
    repair_by_relocating_one-IsSound two_classes.agents two_classes.distributions
      (agents_by_id two_classes.agents []) music two_classes-IsIndex (inr (inl refl)) only_maths
      only_maths-IsSound

repair_failed_agents_total_example :
    (r : Assignments × List ClassAgent) × (repair_failed_agents two_classes.distributions
        (agents_by_id two_classes.agents [])
        (music ∷ [])
        only_maths
      ≡ some r)
repair_failed_agents_total_example =
    repair_failed_agents_total two_classes.distributions (agents_by_id two_classes.agents [])
      (music ∷ []) only_maths
