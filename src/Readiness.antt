-- ===== src/Readiness.antt =====
-- `validate_current_project` of sidecar/stt_desktop/scheduling/service.py: the errors that a project has
-- before a round is started. Hashes, times and messages are left out.
pub mod Ready
pub mod Tasks
use academic_affairs_system.Common.{
  ℕ, zero, suc, ◌+◌, Bool, true, false, not, ◌&&◌, ◌||◌, List, [], ◌∷◌, ◌++◌, Option, none, some,
  map, any, select, sum_of, length, ltb, ◌==◌, if◌then◌else◌,
}
use academic_affairs_system.Common.Text.{Text, text, text_eq, is_empty, is_truthy, or_empty}
use academic_affairs_system.Common.Dict.{lookup}
use academic_affairs_system.Common.Groups.{group_from}
use academic_affairs_system.Xml.{Element}
use academic_affairs_system.Compilation.Rows.{Task, Lesson, Named, RoomRow, CoursePlan, Snapshot}
use academic_affairs_system.Compilation.Diagnostics.{CompileError, CompileWarning, Diagnostics}
use academic_affairs_system.Compilation.Schedules.{or_nothing}
use academic_affairs_system.Compilation.Options.{named_with_id}
use academic_affairs_system.Compilation.Classes.{active_tasks}
use academic_affairs_system.Compilation.Build.{build_problem}

pub data ProjectIssue : Type 0 where
  compile_error : (e : CompileError) → ProjectIssue
  missing_primary_teacher : (task_id : Text) → ProjectIssue
  teacher_unavailable : (task_id teacher_id : Text) → ProjectIssue
  lesson_slots_mismatch : (task_id : Text) (expected actual : ℕ) → ProjectIssue
  fixed_room_unavailable : (task_id room_id : Text) → ProjectIssue
  fixed_room_type_mismatch : (task_id room_id room_type : Text) → ProjectIssue
  room_type_unavailable : (task_id room_type : Text) → ProjectIssue
  plan_slots_mismatch : (plan_id : Text) (expected actual : ℕ) → ProjectIssue

abbrev pub is_active_teacher : Option Named → Bool
is_active_teacher none = false
is_active_teacher (some t) = t.is_active

unfoldable pub teacher_issues : Snapshot → Task → List ProjectIssue
teacher_issues s task =
    let id = or_empty task.primary_teacher_id in
    if is_empty id
    then missing_primary_teacher task.id ∷ []
    else if is_active_teacher (named_with_id id s.teachers)
    then []
    else teacher_unavailable task.id id ∷ []

-- `lessons_by_task`, and the slots of the enabled lessons.
abbrev pub lessons_by_task : List Lesson → List (Text × List Lesson)
lessons_by_task lessons = group_from text_eq (λ (l : Lesson). l.teaching_task_id) lessons []

abbrev pub enabled_slots : List Lesson → ℕ
enabled_slots ls = sum_of (λ (l : Lesson). l.duration_slots) (select (λ (l : Lesson). l.enabled) ls)

unfoldable pub expanded_slots : Snapshot → Task → ℕ
unfolding group_from
expanded_slots s task = enabled_slots (or_nothing (lookup task.id (lessons_by_task s.lessons)))

unfoldable pub slot_issues : Snapshot → Task → List ProjectIssue
unfolding expanded_slots
slot_issues s task =
    if expanded_slots s task == task.weekly_slots
    then []
    else lesson_slots_mismatch task.id task.weekly_slots (expanded_slots s task) ∷ []

abbrev pub room_with_id : Text → List RoomRow → Option RoomRow
room_with_id id [] = none
room_with_id id (r ∷ rs) =
    let later = room_with_id id rs in if text_eq r.id id then some r else later

abbrev pub fixed_room : Snapshot → Task → Option RoomRow
fixed_room s task =
    let id = or_empty task.fixed_room_id in if is_empty id then none else room_with_id id s.rooms

abbrev pub is_active_room : Option RoomRow → Bool
is_active_room none = false
is_active_room (some r) = r.is_active

abbrev pub has_type : Text → RoomRow → Bool
has_type kind r = text_eq (or_empty r.room_type_id) kind

abbrev pub is_other_type : Text → Option RoomRow → Bool
is_other_type kind none = false
is_other_type kind (some r) = not (is_empty kind) && not (has_type kind r)

abbrev pub is_room_kind : Text → Bool
is_room_kind kind = not (is_empty kind) && not (text_eq kind (text "__no_room__"))

unfoldable pub room_issues : Snapshot → Task → List ProjectIssue
room_issues s task =
    let id = or_empty task.fixed_room_id in
    let kind = or_empty task.required_room_type in
    if not (is_empty id) && not (is_active_room (fixed_room s task))
    then fixed_room_unavailable task.id id ∷ []
    else if is_other_type kind (fixed_room s task)
    then fixed_room_type_mismatch task.id id kind ∷ []
    else if is_room_kind kind
        && not (any (has_type kind) (select (λ (r : RoomRow). r.is_active) s.rooms))
    then room_type_unavailable task.id kind ∷ []
    else []

unfoldable pub task_issues : Snapshot → List Task → List ProjectIssue
unfolding teacher_issues slot_issues room_issues
task_issues s [] = []
task_issues s (t ∷ ts) =
    teacher_issues s t ++ (slot_issues s t ++ (room_issues s t ++ task_issues s ts))

-- `active_tasks_by_plan`
unfoldable pub tasks_by_plan : List Task → List (Text × List Task)
unfolding group_from
tasks_by_plan tasks =
    group_from text_eq (λ (t : Task). or_empty t.course_plan_id)
      (select (λ (t : Task). is_truthy t.course_plan_id) tasks) []

abbrev pub planned_tasks : List (Text × List Task) → CoursePlan → List Task
planned_tasks by_plan plan = or_nothing (lookup plan.id by_plan)

abbrev pub weekly_total : List Task → ℕ
weekly_total = sum_of (λ (t : Task). t.weekly_slots)

abbrev pub plan_issue : CoursePlan → ℕ → List ProjectIssue
plan_issue plan assigned =
    if plan.weekly_slots == 0
    then []
    else if assigned == plan.weekly_slots
    then []
    else plan_slots_mismatch plan.id plan.weekly_slots assigned ∷ []

unfoldable pub plan_issues : List (Text × List Task) → List CoursePlan → List ProjectIssue
plan_issues by_plan [] = []
plan_issues by_plan (plan ∷ plans) =
    plan_issue plan (weekly_total (planned_tasks by_plan plan)) ++ plan_issues by_plan plans

unfoldable pub project_errors : Snapshot → List CoursePlan → List ProjectIssue
unfolding build_problem task_issues tasks_by_plan plan_issues
project_errors s plans =
    map compile_error (build_problem s).1.errors
    ++ (task_issues s (active_tasks s) ++ plan_issues (tasks_by_plan (active_tasks s)) plans)

pub record Report : Type 0 where
  pub ready : Bool
  pub active_task_count : ℕ
  pub active_lesson_count : ℕ
  pub option_count : ℕ
  pub compiled_limit_count : ℕ
  pub assigned_schedule_count : ℕ
  pub error_count : ℕ
  pub warning_count : ℕ
  pub errors : List ProjectIssue
  pub warnings : List CompileWarning

unfoldable pub validate_current_project : Snapshot → List CoursePlan → Report
unfolding project_errors build_problem
validate_current_project s plans =
    let d = (build_problem s).1 in
    let errors = project_errors s plans in
    record {
      ready = ltb (length errors) 1;
      active_task_count = length (active_tasks s);
      active_lesson_count = d.lesson_count;
      option_count = d.option_count;
      compiled_limit_count = d.compiled_limit_count;
      assigned_schedule_count = d.assigned_schedule_count;
      error_count = length errors;
      warning_count = length d.warnings;
      errors = errors;
      warnings = d.warnings;
    }
