-- ===== src/Compilation/Rows.antt =====
-- The rows of a snapshot that `_build_problem`, `_validate_solution` and `validate_current_project` of
-- sidecar/stt_desktop/scheduling/service.py read, with the columns of
-- sidecar/stt_desktop/storage/schema.py that they use. The checks of the schema make the numbers
-- natural, and a column of two values is a Bool.
use academic_affairs_system.Common.{ℕ, Bool, Option, List, ltb, if◌then◌else◌}
use academic_affairs_system.Common.Text.{Text, is_empty}

pub record Task : Type 0 where
  pub id : Text
  pub term_id : Option Text
  pub course_plan_id : Option Text
  pub homeroom_id : Text
  pub subject_id : Text
  pub primary_teacher_id : Option Text
  pub weekly_slots : ℕ
  pub duration_slots : ℕ
  pub required_room_type : Option Text
  pub fixed_room_id : Option Text
  pub is_active : Bool
  pub week_bits : Text
  pub day_bits : Text

pub record Lesson : Type 0 where
  pub id : Text
  pub teaching_task_id : Text
  pub lesson_index : ℕ
  pub duration_slots : ℕ
  pub week_bits : Text
  pub day_bits : Text
  pub label : Option Text
  pub enabled : Bool

pub record Schedule : Type 0 where
  pub id : Text
  pub term_id : Option Text
  pub is_default : Bool

pub record Slot : Type 0 where
  pub id : Text
  pub bell_schedule_id : Text
  pub weekday : ℕ
  pub period_index : ℕ
  pub start_slot : ℕ
  pub length_slots : ℕ
  pub active : Bool

-- A teacher, a homeroom or a subject; only teachers have a status.
pub record Named : Type 0 where
  pub id : Text
  pub name : Text
  pub is_active : Bool
  pub default_room_id : Option Text

pub record RoomRow : Type 0 where
  pub id : Text
  pub name : Text
  pub room_type_id : Option Text
  pub is_active : Bool

-- A row of `availability_rules`.
pub record Rule : Type 0 where
  pub entity_type : Text
  pub entity_id : Text
  pub bell_schedule_id : Option Text
  pub time_slot_id : Option Text
  pub week_bits : Text
  pub required : Bool
  pub penalty : ℕ

-- The JSON object of a constraint: the periods that are integers and not negative, and the numbers
-- of the limits, which are missing or read with `int`.
pub record Parameters : Type 0 where
  pub periods : List ℕ
  pub teaching_task_ids : List Text
  pub lesson_ids : List Text
  pub max : Option ℕ
  pub max_consecutive : Option ℕ
  pub resource_type : Text

pub record Constraint : Type 0 where
  pub id : Text
  pub kind : Text
  pub name : Text
  pub is_hard : Bool
  pub enabled : Bool
  pub weight : ℕ
  pub parameters : Parameters

-- A row of `timetable_template_assignments`.
pub record TemplateAssignment : Type 0 where
  pub entity_type : Text
  pub entity_id : Option Text
  pub bell_schedule_id : Text

-- A row of `course_plans`.
pub record CoursePlan : Type 0 where
  pub id : Text
  pub weekly_slots : ℕ

pub record Snapshot : Type 0 where
  pub project_name : Text
  pub schedules : List Schedule
  pub slots : List Slot
  pub teachers : List Named
  pub rooms : List RoomRow
  pub homerooms : List Named
  pub subjects : List Named
  pub tasks : List Task
  pub lessons : List Lesson
  pub rules : List Rule
  pub constraints : List Constraint
  pub template_assignments : List TemplateAssignment

-- `lesson.get(column) or task.get(column) or default`
abbrev pub or_bits : Text → Text → Text → Text
or_bits a b c = if is_empty a then (if is_empty b then c else b) else a

abbrev pub or_number : ℕ → ℕ → ℕ → ℕ
or_number a b c = if ltb 0 a then a else if ltb 0 b then b else c
