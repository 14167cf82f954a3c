-- ===== src/Cgcs/Checks.antt =====
-- `_is_feasible`, `_incremental_soft_penalty`, `_blocking_class_ids` and `_score` of
-- sidecar/stt_desktop/scheduler_engine/cgcs.py.
pub mod Hard
pub mod Blocking
pub mod Soft
use academic_affairs_system.Common.{
  ℕ, ◌+◌, Bool, true, false, not, ◌&&◌, List, [], ◌∷◌, ◌++◌, Option, none, some, any, select,
  sum_of, if◌then◌else◌, map,
}
use academic_affairs_system.Common.Text.{Text, contains, is_truthy, set_add, option_text_eq}
use academic_affairs_system.Common.Dict.{lookup, values}
use academic_affairs_system.Cgcs.Model.{Action, Distribution, Assignments}
use academic_affairs_system.Cgcs.Times.{overlaps}
use academic_affairs_system.Cgcs.Rules.{violates}

-- `candidate.room_id == assigned.room_id and _overlaps(candidate.time, assigned.time)`
unfoldable pub same_room_overlap : Action → Action → Bool
same_room_overlap c a = option_text_eq c.room_id a.room_id && overlaps c.time a.time

-- `other = assignments.get(class_id)`, then `other and _violates(distribution, candidate, other)`
unfoldable pub breaks : Distribution → Action → Assignments → Text → Bool
breaks d c assignments class_id = elim (lookup class_id assignments) [
  | none ↦ false
  | some other ↦ violates d c other
]

unfoldable pub is_hard_for : Action → Distribution → Bool
is_hard_for c d = d.required && contains c.class_id d.class_ids

unfoldable pub is_soft_for : Action → Distribution → Bool
is_soft_for c d = not d.required && contains c.class_id d.class_ids

unfoldable pub has_room_clash : Action → Assignments → Bool
unfolding same_room_overlap
has_room_clash c assignments =
    if is_truthy c.room_id then any (same_room_overlap c) (values assignments) else false

unfoldable pub breaks_hard : Action → Assignments → Distribution → Bool
unfolding is_hard_for breaks
breaks_hard c assignments d = is_hard_for c d && any (breaks d c assignments) d.class_ids

unfoldable pub is_feasible : Action → Assignments → List Distribution → Bool
unfolding has_room_clash breaks_hard
is_feasible c assignments distributions =
    if has_room_clash c assignments
    then false
    else not (any (breaks_hard c assignments) distributions)

-- What the inner loop of `_incremental_soft_penalty` adds for one distribution.
unfoldable pub soft_penalty_of : Action → Assignments → Distribution → ℕ
unfolding is_soft_for breaks
soft_penalty_of c assignments d =
    if is_soft_for c d
    then sum_of (λ k. if breaks d c assignments k then d.penalty else 0) d.class_ids
    else 0

unfoldable pub incremental_soft_penalty : Action → Assignments → List Distribution → ℕ
unfolding soft_penalty_of
incremental_soft_penalty c assignments = sum_of (soft_penalty_of c assignments)

-- `blocker_ids.add(class_id)` for each of some ids.
unfoldable pub add_ids : List Text → List Text → List Text
add_ids [] ids = ids
add_ids (k ∷ ks) ids = add_ids ks (set_add k ids)

-- The keys of the entries that the set comprehension keeps.
unfoldable pub room_blockers : Action → Assignments → List Text
unfolding same_room_overlap
room_blockers c assignments =
    map (λ e. e.0) (select (λ e. is_truthy c.room_id && same_room_overlap c e.1) assignments)

unfoldable pub hard_blockers : Action → Assignments → List Distribution → List Text → List Text
unfolding is_hard_for breaks add_ids
hard_blockers c assignments [] ids = ids
hard_blockers c assignments (d ∷ ds) ids =
    hard_blockers c assignments ds
      (if is_hard_for c d then add_ids (select (breaks d c assignments) d.class_ids) ids else ids)

unfoldable pub blocking_class_ids : Action → Assignments → List Distribution → List Text
unfolding room_blockers hard_blockers add_ids
blocking_class_ids c assignments distributions =
    hard_blockers c assignments distributions (add_ids (room_blockers c assignments) [])

-- `left and right and _violates(distribution, left, right)`
abbrev pub both_break : Distribution → Option Action → Option Action → Bool
both_break d none right = false
both_break d (some left) none = false
both_break d (some left) (some right) = violates d left right

abbrev pub pair_breaks : Distribution → Assignments → Text → Text → Bool
pair_breaks d assignments left_id right_id =
    both_break d (lookup left_id assignments) (lookup right_id assignments)

-- The sum over `combinations(class_ids, 2)`.
unfoldable pub pair_penalties : Distribution → Assignments → List Text → ℕ
pair_penalties d assignments [] = 0
pair_penalties d assignments (left_id ∷ ids) =
    sum_of (λ right_id. if pair_breaks d assignments left_id right_id then d.penalty else 0) ids
    + pair_penalties d assignments ids

pub record Score : Type 0 where
  pub time_penalty : ℕ
  pub room_penalty : ℕ
  pub distribution_penalty : ℕ
  pub total_score : ℕ

unfoldable pub distribution_penalty : Assignments → Distribution → ℕ
unfolding pair_penalties
distribution_penalty assignments d =
    if d.required then 0 else pair_penalties d assignments d.class_ids

unfoldable pub score : Assignments → List Distribution → Score
unfolding distribution_penalty
score assignments distributions =
    let time = sum_of (λ a. a.time_penalty) (values assignments) in
    let room = sum_of (λ a. a.room_penalty) (values assignments) in
    let distribution = sum_of (distribution_penalty assignments) distributions in
    record {
      time_penalty = time;
      room_penalty = room;
      distribution_penalty = distribution;
      total_score = time + room + distribution;
    }
