-- ===== src/Compilation/Build.antt =====
-- `_build_problem` of sidecar/stt_desktop/scheduling/service.py: the loop over the lessons, the built-in
-- rules and the constraints of the user.
use academic_affairs_system.Common.{
  ◌+◌, Bool, true, false, not, List, [], ◌∷◌, ◌++◌, Option, none, some, length, select, ltb,
  if◌then◌else◌,
}
use academic_affairs_system.Common.Text.{Text, text, text_eq, is_empty}
use academic_affairs_system.Common.Groups.{add_to}
use academic_affairs_system.Xml.{Element}
use academic_affairs_system.Compilation.Rows.{
  Task, Lesson, Schedule, Slot, RoomRow, Constraint, Snapshot,
}
use academic_affairs_system.Compilation.Diagnostics.{
  CompileError, no_active_lessons, no_bell_schedule, no_active_time_slots,
  lesson_has_no_time_option, Diagnostics,
}
use academic_affairs_system.Compilation.Schedules.{
  slots_by_schedule, has_slots, default_schedule, Selection, schedule_for_task,
}
use academic_affairs_system.Compilation.Options.{preferred_period_constraints}
use academic_affairs_system.Compilation.Nodes.{
  ClassNode, DistributionNode, Document, document_element,
}
use academic_affairs_system.Compilation.Constraints.{
  Groups, distribution, Added, compile_user_constraints,
}
use academic_affairs_system.Compilation.Classes.{
  task_with_id, active_tasks, compiled_lessons, Inputs, Build, class_node,
}

abbrev pub if_no_time : ClassNode → List CompileError
if_no_time c = elim c.times [ [] ↦ lesson_has_no_time_option c.id c.label ∷ [] | t ∷ (ts → r) ↦ [] ]

abbrev pub note_class : ClassNode → Diagnostics → Diagnostics
note_class c d = record d {
  errors = d.errors ++ if_no_time c;
  option_count = d.option_count + length c.times;
}

-- Lessons without a teacher are in no teacher's group.
abbrev pub add_if_some : Option Text → Text → Groups → Groups
add_if_some none id groups = groups
add_if_some (some k) id groups = if is_empty k then groups else add_to text_eq k id groups

abbrev pub add_class : Task → Lesson → ClassNode → Selection → Build → Build
add_class task lesson c chosen b = record {
  classes = b.classes ++ c ∷ [];
  by_teacher = add_if_some task.primary_teacher_id lesson.id b.by_teacher;
  by_homeroom = add_to text_eq task.homeroom_id lesson.id b.by_homeroom;
  by_task = add_to text_eq task.id lesson.id b.by_task;
  diagnostics = note_class c chosen.diagnostics;
  unusable = chosen.unusable;
}

-- One lesson; each has a task, since only such lessons are compiled.
abbrev pub lesson_with : Inputs → Option Task → Lesson → Build → Build
lesson_with i none lesson b = b
lesson_with i (some task) lesson b =
    let chosen =
      schedule_for_task i.snapshot i.by_schedule i.fallback task b.diagnostics b.unusable in
    add_class task lesson (class_node i chosen.selected task lesson) chosen b

unfoldable pub build_lessons : Inputs → List Task → List Lesson → Build → Build
unfolding schedule_for_task class_node
build_lessons i tasks [] b = b
build_lessons i tasks (l ∷ ls) b =
    build_lessons i tasks ls (lesson_with i (task_with_id l.teaching_task_id tasks) l b)

abbrev pub is_missing : Option Schedule → Bool
is_missing none = true
is_missing (some s) = false

abbrev pub lacks_slots : List (Text × List Slot) → Option Schedule → Bool
lacks_slots by_schedule none = false
lacks_slots by_schedule (some s) = not (has_slots by_schedule s.id)

abbrev pub report : Bool → CompileError → List CompileError
report b e = if b then e ∷ [] else []

-- `not tasks or not lessons`: every lesson has a task.
abbrev pub first_errors : List Lesson → Inputs → List CompileError
first_errors lessons i =
    report (ltb (length lessons) 1) no_active_lessons
    ++ (report (is_missing i.fallback) no_bell_schedule
        ++ report (lacks_slots i.by_schedule i.fallback) no_active_time_slots)

unfoldable pub inputs_of : Snapshot → Inputs
unfolding slots_by_schedule default_schedule preferred_period_constraints
inputs_of s =
    let by_schedule = slots_by_schedule s.slots in
    record {
      snapshot = s;
      by_schedule = by_schedule;
      fallback = default_schedule (active_tasks s) s.schedules by_schedule;
      rooms = select (λ (r : RoomRow). r.is_active) s.rooms;
      preferences =
          preferred_period_constraints (select (λ (c : Constraint). c.enabled) s.constraints);
    }

unfoldable pub nothing_built : Snapshot → Build
unfolding inputs_of
nothing_built s = record {
  classes = [];
  by_teacher = [];
  by_homeroom = [];
  by_task = [];
  diagnostics = record {
    errors = first_errors (compiled_lessons s) (inputs_of s);
    warnings = [];
    lesson_count = length (compiled_lessons s);
    option_count = 0;
    compiled_limit_count = 0;
    assigned_schedule_count = 0;
  };
  unusable = [];
}

-- The built-in rules: the lessons of one teacher or homeroom do not overlap.
unfoldable pub builtin_nodes : Text → Groups → List DistributionNode
unfolding distribution
builtin_nodes prefix [] = []
builtin_nodes prefix ((id, ids) ∷ groups) =
    distribution (text "builtin-" ++ (prefix ++ (text "-" ++ id))) (text "NotOverlap") ids true 0
      (prefix ++ text "资源冲突") prefix
    ++ builtin_nodes prefix groups

unfoldable pub built : Snapshot → Build
unfolding build_lessons inputs_of nothing_built
built s = build_lessons (inputs_of s) (active_tasks s) (compiled_lessons s) (nothing_built s)

unfoldable pub added : Snapshot → Added
unfolding built builtin_nodes compile_user_constraints
added s =
    let b = built s in
    compile_user_constraints (select (λ (c : Constraint). c.enabled) s.constraints) b.by_task
      ((text "teacher", b.by_teacher) ∷ (text "homeroom", b.by_homeroom) ∷ [])
      (record {
        distributions =
            builtin_nodes (text "teacher") b.by_teacher
            ++ builtin_nodes (text "homeroom") b.by_homeroom;
        limits = [];
        diagnostics = b.diagnostics;
      })

unfoldable pub document_of : Snapshot → Document
unfolding built added inputs_of
document_of s = record {
  name = s.project_name;
  rooms = (inputs_of s).rooms;
  classes = (built s).classes;
  distributions = (added s).distributions;
  limits = (added s).limits;
}

-- The document, and the diagnostics.
unfoldable pub build_problem : Snapshot → Element × Diagnostics
unfolding document_of added document_element
build_problem s = (document_element (document_of s), (added s).diagnostics)
