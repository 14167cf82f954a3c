-- ===== src/Timetable.antt =====
-- `validate_move` of sidecar/stt_desktop/scheduling/timetable.py: whether a lesson of a candidate may
-- move to another time and room. The check of the whole solution by the service is a parameter,
-- and weekdays count from 1.
pub mod Moved
pub mod Conflicts
use academic_affairs_system.Common.{
  ℕ, ◌+◌, ◌-◌, ◌≡◌, Bool, true, false, not, ◌&&◌, ◌||◌, List, [], ◌∷◌, ◌++◌, Option, none, some,
  any, ltb, ◌==◌, if◌then◌else◌,
}
use academic_affairs_system.Common.Text.{
  Text, text_eq, option_text_eq, is_truthy, is_empty, contains,
}
use academic_affairs_system.Common.Dict.{lookup, insert}
use academic_affairs_system.Cgcs.Model.{
  TimeOption, ClassAgent, Action, Distribution, Assignments, Problem,
}
use academic_affairs_system.Cgcs.Times.{any_common_bit}
use academic_affairs_system.Cgcs.Rules.{violates}
use academic_affairs_system.Cgcs.Actions.{actions}
use academic_affairs_system.Cgcs.Repair.{agents_by_id}
use academic_affairs_system.CpSat.Limits.{has_day}

-- A row of the candidate's timetable; its lesson may have been deleted.
pub record Entry : Type 0 where
  pub lesson_id : Option Text
  pub weekday : ℕ
  pub start_slot : ℕ
  pub week_bits : Text
  pub duration_slots : ℕ
  pub room_id : Option Text

-- Where the lesson shall go.
pub record Request : Type 0 where
  pub lesson_id : Text
  pub weekday : ℕ
  pub start_slot : ℕ
  pub room_id : Option Text

pub data Conflict : Type 0 where
  option_not_allowed snapshot_entry_missing existing_entry_invalid : Conflict
  room_overlap : (other_id : Text) → Conflict
  hard_rule : (d : Distribution) (other_id : Text) → Conflict
  hard_issue : Conflict

pub data MoveError : Type 0 where
  no_entries lesson_not_in_candidate lesson_not_in_snapshot : MoveError

pub data MoveResult : Type 0 where
  refused : (e : MoveError) → MoveResult
  not_offered : (cs : List Conflict) → MoveResult
  checked : (cs : List Conflict) (m : Assignments) → MoveResult

-- `room_id or None`
abbrev pub requested_room : Option Text → Option Text
requested_room r = if is_truthy r then r else none

abbrev pub is_requested : Request → Action → Bool
is_requested r a =
    a.time.start == r.start_slot
    && has_day a.time.days r.weekday
    && option_text_eq a.room_id (requested_room r.room_id)

abbrev pub is_entry : Entry → Action → Bool
is_entry e a =
    a.time.start == e.start_slot
    && has_day a.time.days e.weekday
    && text_eq a.time.weeks e.week_bits
    && a.time.span == e.duration_slots
    && option_text_eq a.room_id e.room_id

-- `next((action for action in actions if ...), None)`
unfoldable pub first_where : (Action → Bool) → List Action → Option Action
first_where p [] = none
first_where p (a ∷ rest) = let later = first_where p rest in if p a then some a else later

-- `_bits_overlap` and `_overlaps`
abbrev pub bits_overlap : Text → Text → Bool
bits_overlap left right =
    if is_empty left || is_empty right then true else any_common_bit left right

unfoldable pub moved_overlaps : Action → Action → Bool
moved_overlaps left right =
    bits_overlap left.time.weeks right.time.weeks
    && bits_overlap left.time.days right.time.days
    && ltb left.time.start (right.time.start + right.time.span)
    && ltb right.time.start (left.time.start + left.time.span)

-- The conflicts found so far, and the assignments.
pub record Board : Type 0 where
  pub conflicts : List Conflict
  pub assignments : Assignments

abbrev pub add_conflict : Conflict → Board → Board
add_conflict c b = record b { conflicts = b.conflicts ++ c ∷ [] }

abbrev pub place_found : Text → Option Action → Board → Board
place_found id none b = add_conflict existing_entry_invalid b
place_found id (some a) b = record b { assignments = insert id a b.assignments }

abbrev pub place_agent : Text → Action → Entry → Text → Option ClassAgent → Board → Board
place_agent id requested e lesson_id none b = add_conflict snapshot_entry_missing b
place_agent id requested e lesson_id (some g) b =
    if text_eq lesson_id id
    then record b { assignments = insert lesson_id requested b.assignments }
    else place_found lesson_id (first_where (is_entry e) (actions g)) b

-- `agents.get(None)` finds nothing.
abbrev pub place_entry :
    List (Text × ClassAgent) → Text → Action → Entry → Option Text → Board → Board
place_entry by_id id requested e none b = add_conflict snapshot_entry_missing b
place_entry by_id id requested e (some lesson_id) b =
    place_agent id requested e lesson_id (lookup lesson_id by_id) b

unfoldable pub place_entries : List (Text × ClassAgent) → Text → Action → List Entry → Board → Board
unfolding first_where
place_entries by_id id requested [] b = b
place_entries by_id id requested (e ∷ es) b =
    place_entries by_id id requested es (place_entry by_id id requested e e.lesson_id b)

abbrev pub room_conflicts : Action → Text → Action → List Conflict
room_conflicts requested other_id other =
    if is_truthy requested.room_id
      && (option_text_eq requested.room_id other.room_id && moved_overlaps requested other)
    then room_overlap other_id ∷ []
    else []

unfoldable pub rule_conflicts : Text → Action → Text → Action → List Distribution → List Conflict
rule_conflicts id requested other_id other [] = []
rule_conflicts id requested other_id other (d ∷ ds) =
    let rest = rule_conflicts id requested other_id other ds in
    if d.required
      && (contains id d.class_ids && (contains other_id d.class_ids && violates d requested other))
    then hard_rule d other_id ∷ rest
    else rest

unfoldable pub other_conflicts : Text → Action → List Distribution → Assignments → List Conflict
unfolding moved_overlaps rule_conflicts
other_conflicts id requested ds [] = []
other_conflicts id requested ds ((other_id, other) ∷ m) =
    let rest = other_conflicts id requested ds m in
    if text_eq other_id id
    then rest
    else room_conflicts requested other_id other
      ++ (rule_conflicts id requested other_id other ds ++ rest)

abbrev pub judge_move : (Assignments → List Conflict) → Problem → Text → Action → Board → MoveResult
judge_move validate p id requested b =
    checked
      (b.conflicts
        ++ (other_conflicts id requested p.distributions b.assignments ++ validate b.assignments))
      b.assignments

abbrev pub move_to :
    (Assignments → List Conflict) → Problem → List Entry → Text → Option Action → MoveResult
move_to validate p entries id none = not_offered (option_not_allowed ∷ [])
move_to validate p entries id (some requested) = judge_move validate p id requested (
    place_entries (agents_by_id p.agents []) id requested entries
      (record { conflicts = []; assignments = [] }))

abbrev pub move_agent :
    (Assignments → List Conflict) → Problem → List Entry → Request → Option ClassAgent → MoveResult
move_agent validate p entries r none = refused lesson_not_in_snapshot
move_agent validate p entries r (some g) =
    move_to validate p entries r.lesson_id (first_where (is_requested r) (actions g))

abbrev pub has_entries : List Entry → Bool
has_entries [] = false
has_entries (e ∷ es) = true

unfoldable pub validate_move :
    (Assignments → List Conflict) → Problem → List Entry → Request → MoveResult
unfolding agents_by_id first_where place_entries other_conflicts
validate_move validate p entries r =
    if not (has_entries entries)
    then refused no_entries
    else if not (any (λ (e : Entry). option_text_eq e.lesson_id (some r.lesson_id)) entries)
    then refused lesson_not_in_candidate
    else move_agent validate p entries r (lookup r.lesson_id (agents_by_id p.agents []))
