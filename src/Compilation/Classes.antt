-- ===== src/Compilation/Classes.antt =====
-- The element of one lesson in `_build_problem` of sidecar/stt_desktop/scheduling/service.py.
use academic_affairs_system.Common.{
  suc, Bool, ◌&&◌, List, [], ◌∷◌, ◌++◌, Option, none, some, map, any, select, ltb, if◌then◌else◌,
}
use academic_affairs_system.Common.Text.{Text, text, text_eq, is_empty, or_empty, is_truthy}
use academic_affairs_system.Xml.{decimal}
use academic_affairs_system.Compilation.Rows.{
  Task, Lesson, Schedule, Slot, Named, RoomRow, Rule, Snapshot, or_number,
}
use academic_affairs_system.Compilation.Windows.{slot_windows}
use academic_affairs_system.Compilation.Diagnostics.{Diagnostics}
use academic_affairs_system.Compilation.Schedules.{slots_of}
use academic_affairs_system.Compilation.Options.{
  applicable_rules, Preference, prefers, emitted_times, Emitted, room_rules, is_closed,
  room_penalty, candidate_rooms, named_with_id,
}
use academic_affairs_system.Compilation.Nodes.{
  RoomMark, unavailable_at, preferred_at, RoomNode, ClassNode,
}
use academic_affairs_system.Compilation.Constraints.{Groups}

-- `task_by_id`
abbrev pub task_with_id : Text → List Task → Option Task
task_with_id id [] = none
task_with_id id (t ∷ ts) =
    let later = task_with_id id ts in if text_eq t.id id then some t else later

abbrev pub active_tasks : Snapshot → List Task
active_tasks s = select (λ (t : Task). t.is_active) s.tasks

abbrev pub has_task : List Task → Text → Bool
has_task ts id = any (λ (t : Task). text_eq t.id id) ts

abbrev pub compiled_lessons : Snapshot → List Lesson
compiled_lessons s =
    select (λ (l : Lesson). l.enabled && has_task (active_tasks s) l.teaching_task_id) s.lessons

-- The rows that the loop uses beside the tasks and lessons.
pub record Inputs : Type 0 where
  pub snapshot : Snapshot
  pub by_schedule : List (Text × List Slot)
  pub fallback : Option Schedule
  pub rooms : List RoomRow
  pub preferences : List Preference

pub record Build : Type 0 where
  pub classes : List ClassNode
  pub by_teacher : Groups
  pub by_homeroom : Groups
  pub by_task : Groups
  pub diagnostics : Diagnostics
  pub unusable : List Text

-- `"-".join(value for value in ... if value)`
abbrev pub join_labels : List Text → Text
join_labels [] = []
join_labels (t ∷ ts) =
    let rest = join_labels ts in
    if is_empty t then rest else if is_empty rest then t else t ++ (text "-" ++ rest)

abbrev pub name_of : Option Named → Text
name_of none = []
name_of (some n) = n.name

abbrev pub lesson_label : Lesson → Text
lesson_label l =
    if is_truthy l.label
    then or_empty l.label
    else text "第" ++ (decimal (suc l.lesson_index) ++ text "课次")

abbrev pub teacher_named : Option Text → List Named → Option Named
teacher_named none teachers = none
teacher_named (some id) teachers = named_with_id id teachers

unfoldable pub class_label : Snapshot → Task → Lesson → Text
class_label s task lesson = join_labels (
    name_of (named_with_id task.homeroom_id s.homerooms)
    ∷ name_of (teacher_named task.primary_teacher_id s.teachers)
    ∷ name_of (named_with_id task.subject_id s.subjects)
    ∷ lesson_label lesson
    ∷ [])

abbrev pub schedule_slots : List (Text × List Slot) → Option Schedule → List Slot
schedule_slots by_schedule none = []
schedule_slots by_schedule (some s) = slots_of by_schedule s.id

-- How a time is marked for a room: not free, at a price, or not at all.
abbrev pub mark_of : List Rule → Emitted → List RoomMark
mark_of rules t =
    if is_closed rules t
    then unavailable_at t ∷ []
    else if ltb 0 (room_penalty rules t)
    then preferred_at t (room_penalty rules t) ∷ []
    else []

unfoldable pub marks_of : List Rule → List Emitted → List RoomMark
unfolding is_closed room_penalty
marks_of rules [] = []
marks_of rules (t ∷ ts) = mark_of rules t ++ marks_of rules ts

abbrev pub room_node : List Rule → Task → Lesson → Option Schedule → List Emitted → Text → RoomNode
room_node rules task lesson schedule times id = record {
  id = id;
  marks = marks_of (room_rules rules task lesson schedule id) times;
}

-- The times of a lesson on the schedule of its task.
unfoldable pub lesson_times : Inputs → Option Schedule → Task → Lesson → List Emitted
unfolding slot_windows applicable_rules emitted_times
lesson_times i schedule task lesson =
    let duration = or_number lesson.duration_slots task.duration_slots 1 in
    emitted_times task lesson duration (applicable_rules i.snapshot.rules task lesson schedule)
      (select (prefers task lesson) i.preferences)
      (slot_windows (schedule_slots i.by_schedule schedule) duration)

unfoldable pub class_node : Inputs → Option Schedule → Task → Lesson → ClassNode
unfolding lesson_times candidate_rooms class_label marks_of
class_node i schedule task lesson =
    let times = lesson_times i schedule task lesson in
    record {
      id = lesson.id;
      subject = task.subject_id;
      label = class_label i.snapshot task lesson;
      times = times;
      rooms =
          map (room_node i.snapshot.rules task lesson schedule times)
            (candidate_rooms task i.snapshot.homerooms i.rooms);
    }
