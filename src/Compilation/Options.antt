-- ===== src/Compilation/Options.antt =====
-- The options of a lesson in `_build_problem` of sidecar/stt_desktop/scheduling/service.py: the rules and
-- preferences that apply to it, its times, and its rooms with the times at which they are not free.
pub mod Permitted
use academic_affairs_system.Common.{
  ℕ, ◌+◌, Bool, true, false, not, ◌&&◌, ◌||◌, List, [], ◌∷◌, ◌++◌, Option, none, some, any, select,
  sum_of, map, ltb, ◌==◌, if◌then◌else◌,
}
use academic_affairs_system.Common.Text.{
  Text, text, text_eq, contains, or_empty, is_empty, is_truthy, option_text_eq,
}
use academic_affairs_system.Common.Dict.{lookup}
use academic_affairs_system.Timetable.{bits_overlap}
use academic_affairs_system.Compilation.Rows.{
  Task, Lesson, Schedule, Slot, Named, RoomRow, Rule, Constraint, or_bits, or_number,
}
use academic_affairs_system.Compilation.Windows.{Window, day_enabled, day_bits}

-- A column that may be missing holds the id, or is not set.
abbrev pub is_or_unset : Option Text → Option Text → Bool
is_or_unset column id = not (is_truthy column) || option_text_eq column id

abbrev pub targets : Rule → Text → Option Text → Bool
targets r entity_type id = text_eq r.entity_type entity_type && option_text_eq (some r.entity_id) id

abbrev pub concerns : Task → Lesson → Rule → Bool
concerns task lesson r =
    targets r (text "teacher") task.primary_teacher_id
    || targets r (text "homeroom") (some task.homeroom_id)
    || targets r (text "lesson") (some lesson.id)

-- `lesson.get("week_bits") or task.get("week_bits") or ""`
abbrev pub weeks_of : Task → Lesson → Text → Text
weeks_of task lesson default = or_bits lesson.week_bits task.week_bits default

abbrev pub schedule_id : Option Schedule → Option Text
schedule_id none = none
schedule_id (some s) = some s.id

abbrev pub applies : Task → Lesson → Option Schedule → Rule → Bool
applies task lesson schedule r =
    concerns task lesson r
    && is_or_unset r.bell_schedule_id (schedule_id schedule)
    && bits_overlap r.week_bits (weeks_of task lesson [])

unfoldable pub applicable_rules : List Rule → Task → Lesson → Option Schedule → List Rule
applicable_rules rules task lesson schedule = select (applies task lesson schedule) rules

-- An entry of `_preferred_period_constraints`.
pub record Preference : Type 0 where
  pub required : Bool
  pub weight : ℕ
  pub periods : List ℕ
  pub teaching_task_ids : List Text
  pub lesson_ids : List Text

abbrev pub preference_of : Constraint → Preference
preference_of c = record {
  required = c.is_hard;
  weight = c.weight;
  periods = c.parameters.periods;
  teaching_task_ids = c.parameters.teaching_task_ids;
  lesson_ids = c.parameters.lesson_ids;
}

unfoldable pub preferred_period_constraints : List Constraint → List Preference
preferred_period_constraints cs =
    map preference_of (select (λ (c : Constraint). text_eq c.kind (text "preferred_periods")) cs)

-- The truth value of a list of ids.
abbrev pub names_none : List Text → Bool
names_none [] = true
names_none (x ∷ xs) = false

abbrev pub prefers : Task → Lesson → Preference → Bool
prefers task lesson q =
    (names_none q.teaching_task_ids && names_none q.lesson_ids)
    || contains task.id q.teaching_task_ids
    || contains lesson.id q.lesson_ids

abbrev pub has_period : ℕ → List ℕ → Bool
has_period n = any (λ k. k == n)

abbrev pub missed : ℕ → Preference → Bool
missed period q = not (has_period period q.periods)

abbrev pub window_ids : Window → List Text
window_ids w = map (λ (s : Slot). s.id) w.1

-- A rule for one slot concerns the windows with that slot.
abbrev pub matches_window : List Text → Rule → Bool
matches_window ids r = not (is_truthy r.time_slot_id) || contains (or_empty r.time_slot_id) ids

abbrev pub blocks : Rule → Bool
blocks r = not r.required && r.penalty == 0

-- `required_slot_ids`
abbrev pub required_slots : List Rule → List Text
required_slots rules =
    map (λ (r : Rule). or_empty r.time_slot_id)
      (select (λ (r : Rule). r.required && is_truthy r.time_slot_id) rules)

-- The windows that the loop over them does not skip.
unfoldable pub is_offered : Text → List Rule → List Preference → Window → Bool
is_offered bits rules preferences w =
    day_enabled bits w.0.weekday
    && not (any (λ (q : Preference). q.required && missed w.0.period_index q) preferences)
    && (names_none (required_slots rules) || contains w.0.id (required_slots rules))
    && not (any blocks (select (matches_window (window_ids w)) rules))

abbrev pub rule_penalty : Rule → ℕ
rule_penalty r = if r.required then 0 else r.penalty

abbrev pub preference_penalty : ℕ → Preference → ℕ
preference_penalty period q = if not q.required && missed period q then q.weight else 0

unfoldable pub window_penalty : List Rule → List Preference → Window → ℕ
window_penalty rules preferences w =
    sum_of rule_penalty (select (matches_window (window_ids w)) rules)
    + sum_of (preference_penalty w.0.period_index) preferences

-- The attributes of a `time` element, and the slots of its window.
pub record Emitted : Type 0 where
  pub days : Text
  pub weeks : Text
  pub start : ℕ
  pub length : ℕ
  pub period_index : ℕ
  pub penalty : ℕ
  pub window : List Text

abbrev pub emit : Text → ℕ → List Rule → List Preference → Window → Emitted
emit weeks duration rules preferences w = record {
  days = day_bits w.0.weekday;
  weeks = weeks;
  start = w.0.start_slot;
  length = duration;
  period_index = w.0.period_index;
  penalty = window_penalty rules preferences w;
  window = window_ids w;
}

unfoldable pub emitted_times :
    Task → Lesson → ℕ → List Rule → List Preference → List Window → List Emitted
unfolding is_offered
emitted_times task lesson duration rules preferences windows =
    map (emit (weeks_of task lesson (text "1")) duration rules preferences)
      (select (is_offered (or_bits lesson.day_bits task.day_bits []) rules preferences) windows)

-- The rules of a room that can concern the lesson; without a schedule there are none.
abbrev pub concerns_room : Task → Lesson → Text → Schedule → Rule → Bool
concerns_room task lesson room_id schedule r =
    text_eq r.entity_type (text "room")
    && text_eq r.entity_id room_id
    && is_or_unset r.bell_schedule_id (some schedule.id)
    && bits_overlap r.week_bits (weeks_of task lesson [])

abbrev pub room_rules : List Rule → Task → Lesson → Option Schedule → Text → List Rule
room_rules rules task lesson none room_id = []
room_rules rules task lesson (some s) room_id = select (concerns_room task lesson room_id s) rules

abbrev pub share_id : List Text → List Text → Bool
share_id ids others = any (λ id. contains id others) ids

-- Whether the room is not free at the time.
unfoldable pub is_closed : List Rule → Emitted → Bool
is_closed rules t =
    (not (names_none (required_slots rules)) && not (share_id (required_slots rules) t.window))
    || any blocks (select (matches_window t.window) rules)

unfoldable pub room_penalty : List Rule → Emitted → ℕ
room_penalty rules t = sum_of rule_penalty (select (matches_window t.window) rules)

abbrev pub room_ids_of_type : Text → List RoomRow → List Text
room_ids_of_type kind rooms =
    map (λ (r : RoomRow). r.id)
      (select (λ (r : RoomRow). option_text_eq r.room_type_id (some kind)) rooms)

abbrev pub has_room : Text → List RoomRow → Bool
has_room id = any (λ (r : RoomRow). text_eq r.id id)

abbrev pub named_with_id : Text → List Named → Option Named
named_with_id id [] = none
named_with_id id (n ∷ ns) =
    let later = named_with_id id ns in if text_eq n.id id then some n else later

abbrev pub default_room : Option Named → Option Text
default_room none = none
default_room (some n) = n.default_room_id

abbrev pub if_room : Option Text → List RoomRow → List Text
if_room none rooms = []
if_room (some id) rooms = if has_room id rooms then id ∷ [] else []

-- The fixed room, or all rooms of the type that is asked for, or the homeroom's own room.
unfoldable pub candidate_rooms : Task → List Named → List RoomRow → List Text
candidate_rooms task homerooms rooms =
    if is_truthy task.fixed_room_id && has_room (or_empty task.fixed_room_id) rooms
    then or_empty task.fixed_room_id ∷ []
    else if is_truthy task.required_room_type
    then room_ids_of_type (or_empty task.required_room_type) rooms
    else if_room (default_room (named_with_id task.homeroom_id homerooms)) rooms
