-- ===== src/Storage/Specs.antt =====
-- `ENTITY_SPECS` of sidecar/stt_desktop/storage/project.py: the table of each type of entity, the fields
-- that may be saved and those that a new entity needs. The order of listing is left out.
use academic_affairs_system.Common.{List, [], ◌∷◌}
use academic_affairs_system.Common.Text.{Text, text}

pub record EntitySpec : Type 0 where
  pub table : Text
  pub fields : List Text
  pub required : List Text

abbrev pub entity_specs : List (Text × EntitySpec)
entity_specs =
    (
      text "academic_year",
      record {
        table = text "academic_years";
        fields = text "name" ∷ text "start_date" ∷ text "end_date" ∷ [];
        required = text "name" ∷ [];
      },
    )
    ∷ (
      text "term",
      record {
        table = text "terms";
        fields =
            text "academic_year_id"
            ∷ text "name"
            ∷ text "start_date"
            ∷ text "end_date"
            ∷ text "week_count"
            ∷ text "day_count"
            ∷ text "active"
            ∷ [];
        required = text "name" ∷ [];
      },
    )
    ∷ (
      text "bell_schedule",
      record {
        table = text "bell_schedules";
        fields =
            text "term_id"
            ∷ text "name"
            ∷ text "day_count"
            ∷ text "slot_duration_minutes"
            ∷ text "is_default"
            ∷ text "display_config"
            ∷ [];
        required = text "name" ∷ [];
      },
    )
    ∷ (
      text "time_slot",
      record {
        table = text "time_slots";
        fields =
            text "bell_schedule_id"
            ∷ text "weekday"
            ∷ text "period_index"
            ∷ text "label"
            ∷ text "start_slot"
            ∷ text "length_slots"
            ∷ text "start_time_minutes"
            ∷ text "end_time_minutes"
            ∷ text "active"
            ∷ text "display_config"
            ∷ [];
        required =
            text "bell_schedule_id"
            ∷ text "weekday"
            ∷ text "period_index"
            ∷ text "label"
            ∷ text "start_time_minutes"
            ∷ text "end_time_minutes"
            ∷ [];
      },
    )
    ∷ (
      text "grade",
      record {
        table = text "grades";
        fields = text "name" ∷ text "code" ∷ text "sort_order" ∷ [];
        required = text "name" ∷ [];
      },
    )
    ∷ (
      text "teacher",
      record {
        table = text "teachers";
        fields = text "employee_no" ∷ text "name" ∷ text "department" ∷ text "status" ∷ [];
        required = text "name" ∷ [];
      },
    )
    ∷ (
      text "room_type",
      record {
        table = text "room_types";
        fields = text "name" ∷ text "code" ∷ text "description" ∷ [];
        required = text "name" ∷ [];
      },
    )
    ∷ (
      text "room",
      record {
        table = text "rooms";
        fields =
            text "room_type_id"
            ∷ text "name"
            ∷ text "room_no"
            ∷ text "capacity"
            ∷ text "status"
            ∷ [];
        required = text "name" ∷ [];
      },
    )
    ∷ (
      text "homeroom",
      record {
        table = text "homerooms";
        fields =
            text "grade_id"
            ∷ text "term_id"
            ∷ text "head_teacher_id"
            ∷ text "default_room_id"
            ∷ text "name"
            ∷ text "group_name"
            ∷ text "student_count"
            ∷ text "status"
            ∷ [];
        required = text "name" ∷ [];
      },
    )
    ∷ (
      text "subject",
      record {
        table = text "subjects";
        fields =
            text "name"
            ∷ text "code"
            ∷ text "category"
            ∷ text "default_duration_slots"
            ∷ text "requires_special_room"
            ∷ [];
        required = text "name" ∷ [];
      },
    )
    ∷ (
      text "course_plan",
      record {
        table = text "course_plans";
        fields =
            text "term_id"
            ∷ text "homeroom_id"
            ∷ text "subject_id"
            ∷ text "weekly_slots"
            ∷ text "duration_slots"
            ∷ text "allow_double_period"
            ∷ text "priority"
            ∷ text "week_bits"
            ∷ text "day_bits"
            ∷ [];
        required = text "homeroom_id" ∷ text "subject_id" ∷ text "weekly_slots" ∷ [];
      },
    )
    ∷ (
      text "teaching_task",
      record {
        table = text "teaching_tasks";
        fields =
            text "term_id"
            ∷ text "course_plan_id"
            ∷ text "homeroom_id"
            ∷ text "subject_id"
            ∷ text "primary_teacher_id"
            ∷ text "weekly_slots"
            ∷ text "duration_slots"
            ∷ text "required_room_type"
            ∷ text "fixed_room_id"
            ∷ text "status"
            ∷ text "week_bits"
            ∷ text "day_bits"
            ∷ [];
        required = text "homeroom_id" ∷ text "subject_id" ∷ text "weekly_slots" ∷ [];
      },
    )
    ∷ (
      text "task_lesson",
      record {
        table = text "task_lessons";
        fields =
            text "teaching_task_id"
            ∷ text "lesson_index"
            ∷ text "duration_slots"
            ∷ text "source_id"
            ∷ text "week_bits"
            ∷ text "day_bits"
            ∷ text "label"
            ∷ text "enabled"
            ∷ [];
        required = text "teaching_task_id" ∷ text "lesson_index" ∷ [];
      },
    )
    ∷ (
      text "availability_rule",
      record {
        table = text "availability_rules";
        fields =
            text "entity_type"
            ∷ text "entity_id"
            ∷ text "bell_schedule_id"
            ∷ text "time_slot_id"
            ∷ text "week_bits"
            ∷ text "day_bits"
            ∷ text "required"
            ∷ text "penalty"
            ∷ text "reason"
            ∷ [];
        required = text "entity_type" ∷ text "entity_id" ∷ [];
      },
    )
    ∷ (
      text "constraint",
      record {
        table = text "constraints";
        fields =
            text "type"
            ∷ text "name"
            ∷ text "severity"
            ∷ text "enabled"
            ∷ text "weight"
            ∷ text "parameters"
            ∷ [];
        required = text "type" ∷ text "name" ∷ [];
      },
    )
    ∷ (
      text "timetable_template_assignment",
      record {
        table = text "timetable_template_assignments";
        fields = text "entity_type" ∷ text "entity_id" ∷ text "bell_schedule_id" ∷ [];
        required = text "entity_type" ∷ text "bell_schedule_id" ∷ [];
      },
    )
    ∷ []
