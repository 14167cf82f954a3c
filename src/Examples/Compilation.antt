-- ===== src/Examples/Compilation.antt =====
-- A school of two lessons of one teacher, its document, and the theorems of the compilation at it.
use academic_affairs_system.Common.{
  ℕ, ◌+◌, ◌≡◌, ◌≢◌, refl, ap, ◌↔◌, true, false, none, some, List, [], ◌∷◌, arith, inl, inr, Elem,
}
use academic_affairs_system.Common.Text.{Text, text, text_eq}
use academic_affairs_system.Common.Groups.{group_from}
use academic_affairs_system.Cgcs.Model.{Action, Assignments, Problem}
use academic_affairs_system.Cgcs.Times.{any_common_bit, shares_bit, overlaps}
use academic_affairs_system.Cgcs.Rules.{violates, violates_type}
use academic_affairs_system.Cgcs.Checks.{
  is_feasible, has_room_clash, breaks_hard, breaks, same_room_overlap, is_hard_for,
}
use academic_affairs_system.Cgcs.Checks.Hard.{HardValid, HardValid-empty, HardValid-insert}
use academic_affairs_system.Cgcs.Parsing.{parse_problem}
use academic_affairs_system.Xml.{parsed, digits, decimal}
use academic_affairs_system.Compilation.Rows.{Task, Lesson, Schedule, Slot, Rule, Snapshot}
use academic_affairs_system.Compilation.Windows.{
  day_bits, day_bits_from, all_follow, windows_from, windows_on, slot_windows,
}
use academic_affairs_system.Compilation.Windows.Rising.{UniquePeriods}
use academic_affairs_system.Compilation.Windows.Runs.{IsWeekRun, slot_windows_iff}
use academic_affairs_system.Compilation.Schedules.{
  slots_by_schedule, default_schedule, assigned_id, schedule_for_task,
}
use academic_affairs_system.Compilation.Options.{
  applicable_rules, preferred_period_constraints, is_offered, window_penalty, Emitted,
  emitted_times, is_closed, room_penalty, candidate_rooms,
}
use academic_affairs_system.Compilation.Nodes.{document_element}
use academic_affairs_system.Compilation.Constraints.{
  unique_from, unique, distribution, compile_user_constraints,
}
use academic_affairs_system.Compilation.Classes.{class_label, marks_of, lesson_times, class_node}
use academic_affairs_system.Compilation.Build.{
  build_lessons, inputs_of, nothing_built, builtin_nodes, built, added, document_of, build_problem,
}
use academic_affairs_system.Compilation.Readback.Whole.{problem_of, parse_problem-document_element}
use academic_affairs_system.Compilation.Times.{UniqueSlots, IsTime, lesson_times_iff}
use academic_affairs_system.Compilation.Builtin.Apart.{ShareResource, build_problem-separates}

abbrev week : Text
week = text "1"

abbrev all_days : Text
all_days = text "11111"

abbrev pub slot : Text → ℕ → Slot
slot id period = record {
  id = id;
  bell_schedule_id = text "b";
  weekday = 1;
  period_index = period;
  start_slot = period + 8;
  length_slots = 1;
  active = true;
}

abbrev pub bells : List Slot
bells = slot (text "s2") 2 ∷ slot (text "s1") 1 ∷ []

abbrev pub task : Text → Text → Task
task id homeroom = record {
  id = id;
  term_id = none;
  course_plan_id = none;
  homeroom_id = homeroom;
  subject_id = text "j";
  primary_teacher_id = some (text "t");
  weekly_slots = 1;
  duration_slots = 1;
  required_room_type = none;
  fixed_room_id = none;
  is_active = true;
  week_bits = week;
  day_bits = all_days;
}

abbrev pub lesson : Text → Text → Lesson
lesson id task_id = record {
  id = id;
  teaching_task_id = task_id;
  lesson_index = 0;
  duration_slots = 1;
  week_bits = week;
  day_bits = all_days;
  label = some id;
  enabled = true;
}

-- The first period is closed to the second lesson.
abbrev not_first : Rule
not_first = record {
  entity_type = text "lesson";
  entity_id = text "y";
  bell_schedule_id = none;
  time_slot_id = some (text "s1");
  week_bits = [];
  required = false;
  penalty = 0;
}

abbrev pub bell_schedule : Schedule
bell_schedule = record { id = text "b"; term_id = none; is_default = true }

abbrev pub school : Snapshot
school = record {
  project_name = text "school";
  schedules = bell_schedule ∷ [];
  slots = bells;
  teachers = [];
  rooms = [];
  homerooms = [];
  subjects = [];
  tasks = task (text "m") (text "h1") ∷ task (text "n") (text "h2") ∷ [];
  lessons = lesson (text "x") (text "m") ∷ lesson (text "y") (text "n") ∷ [];
  rules = not_first ∷ [];
  constraints = [];
  template_assignments = [];
}

windows_of_two :
    slot_windows bells 2 ≡ (slot (text "s1") 1, slot (text "s1") 1 ∷ slot (text "s2") 2 ∷ []) ∷ []
unfolding slot_windows windows_on windows_from all_follow
windows_of_two = refl

bells-UniquePeriods : UniquePeriods bells
bells-UniquePeriods = ((λ t m e. one m), ((λ t m e. absurd m), tt))
  where
    one : {t : Slot} → Elem t (slot (text "s1") 1 ∷ []) → t.period_index ≢ 2
    one (inl e) = ground arith
    one (inr m) = absurd m

slot_windows_iff_example :
    Elem (slot (text "s1") 1, slot (text "s1") 1 ∷ slot (text "s2") 2 ∷ []) (slot_windows bells 2)
    ↔ IsWeekRun bells 2 (slot (text "s1") 1) (slot (text "s1") 1 ∷ slot (text "s2") 2 ∷ [])
slot_windows_iff_example =
    slot_windows_iff bells 2 (slot (text "s1") 1) (slot (text "s1") 1 ∷ slot (text "s2") 2 ∷ [])
      bells-UniquePeriods (omega arith)

abbrev pub second_period : Emitted
second_period = record {
  days = text "1000000";
  weeks = week;
  start = 10;
  length = 1;
  period_index = 2;
  penalty = 0;
  window = text "s2" ∷ [];
}

pub bells-UniqueSlots : UniqueSlots bells
bells-UniqueSlots = ((λ t m d e. bells-UniquePeriods.0 t m e), ((λ t m d e. absurd m), tt))

-- The lesson is left with the second period.
pub times_of_second_lesson :
    lesson_times
      (inputs_of school)
      (some bell_schedule)
      (task (text "n") (text "h2"))
      (lesson (text "y") (text "n"))
    ≡ second_period ∷ []
unfolding lesson_times inputs_of slots_by_schedule default_schedule preferred_period_constraints
    applicable_rules emitted_times is_offered window_penalty slot_windows windows_on windows_from
    all_follow day_bits day_bits_from group_from
times_of_second_lesson = refl

lesson_times_iff_example :
    Elem second_period (
      lesson_times
        (inputs_of school)
        (some bell_schedule)
        (task (text "n") (text "h2"))
        (lesson (text "y") (text "n")))
    ↔ IsTime school bell_schedule
        (task (text "n") (text "h2"))
        (lesson (text "y") (text "n"))
        second_period
lesson_times_iff_example =
    lesson_times_iff school bell_schedule (task (text "n") (text "h2"))
      (lesson (text "y") (text "n")) second_period bells-UniqueSlots

parse_problem-document_element_example :
    parse_problem (document_element (document_of school)) ≡ parsed (problem_of (document_of school))
parse_problem-document_element_example = parse_problem-document_element (document_of school)

abbrev pub placed : Text → ℕ → Action
placed id period = record {
  class_id = id;
  time = record {
    days = text "1000000";
    weeks = week;
    start = period + 8;
    span = 1;
    penalty = 0;
    period_index = some period;
  };
  room_id = none;
  time_penalty = 0;
  room_penalty = 0;
}

abbrev pub school_problem : Problem
school_problem = problem_of (document_of school)

-- What the compilation of the school and the checks of the scheduler compute with.
unfoldable pub compilation : Unit {0}
unfolding any_common_bit shares_bit overlaps violates violates_type is_feasible has_room_clash
    breaks_hard breaks is_hard_for same_room_overlap digits decimal lesson_times inputs_of
    slots_by_schedule default_schedule preferred_period_constraints applicable_rules emitted_times
    is_offered window_penalty slot_windows windows_on windows_from all_follow day_bits day_bits_from
    group_from candidate_rooms is_closed room_penalty class_label marks_of class_node build_lessons
    nothing_built schedule_for_task assigned_id builtin_nodes distribution unique unique_from
    compile_user_constraints built added document_of build_problem problem_of
compilation = tt

second_lesson-feasible :
    is_feasible
      (placed (text "y") 2)
      ((text "x", placed (text "x") 1) ∷ [])
      school_problem.distributions
    ≡ true
unfolding compilation
second_lesson-feasible = refl

first_lesson-feasible : is_feasible (placed (text "x") 1) [] school_problem.distributions ≡ true
unfolding compilation
first_lesson-feasible = refl

abbrev pub timetable : Assignments
timetable = (text "x", placed (text "x") 1) ∷ (text "y", placed (text "y") 2) ∷ []

timetable-HardValid : HardValid school_problem.distributions timetable
timetable-HardValid =
    HardValid-insert school_problem.distributions (placed (text "y") 2)
      ((text "x", placed (text "x") 1) ∷ [])
      (HardValid-insert school_problem.distributions (placed (text "x") 1) []
        (HardValid-empty school_problem.distributions) first_lesson-feasible)
      second_lesson-feasible

pub one_teacher :
    ShareResource school (text "t") (lesson (text "x") (text "m")) (lesson (text "y") (text "n"))
one_teacher = inl (
  record { compiled = inl refl; task = (task (text "m") (text "h1"), refl, refl) },
  record { compiled = inr (inl refl); task = (task (text "n") (text "h2"), refl, refl) },
)

pub school-parsed : parse_problem (build_problem school).0 ≡ parsed school_problem
unfolding build_problem
school-parsed = parse_problem-document_element (document_of school)

true_is_false : text "x" ≡ text "y" → true ≡ false
true_is_false e = ap (text_eq (text "x")) e

pub different : text "x" ≢ text "y"
different e = cc (true_is_false e)

build_problem-separates_example :
    overlaps (placed (text "x") 1).time (placed (text "y") 2).time ≡ false
build_problem-separates_example =
    build_problem-separates school school_problem (text "t") (lesson (text "x") (text "m"))
      (lesson (text "y") (text "n")) timetable (placed (text "x") 1) (placed (text "y") 2)
      school-parsed timetable-HardValid one_teacher refl refl refl different refl refl
