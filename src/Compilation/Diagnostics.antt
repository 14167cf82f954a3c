-- ===== src/Compilation/Diagnostics.antt =====
-- What `_build_problem` of sidecar/stt_desktop/scheduling/service.py reports beside the problem.
use academic_affairs_system.Common.{ℕ, List}
use academic_affairs_system.Common.Text.{Text}

pub data CompileError : Type 0 where
  no_active_lessons no_bell_schedule no_active_time_slots : CompileError
  lesson_has_no_time_option : (lesson_id label : Text) → CompileError

pub data CompileWarning : Type 0 where
  assigned_schedule_has_no_active_slots : (task_id schedule_id : Text) → CompileWarning
  constraint_not_compiled : (constraint_id name : Text) → CompileWarning

pub record Diagnostics : Type 0 where
  pub errors : List CompileError
  pub warnings : List CompileWarning
  pub lesson_count : ℕ
  pub option_count : ℕ
  pub compiled_limit_count : ℕ
  pub assigned_schedule_count : ℕ
