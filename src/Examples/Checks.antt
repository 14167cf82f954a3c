-- ===== src/Examples/Checks.antt =====
-- The checks of a solution and of a project at the school, and two of its times.
use academic_affairs_system.Common.{
  ℕ, ◌≡◌, refl, ap, ◌↔◌, true, none, some, List, [], ◌∷◌, inl, inr, Elem,
}
use academic_affairs_system.Common.Text.{Text, text}
use academic_affairs_system.Cgcs.Times.{any_common_bit, shares_bit, overlaps}
use academic_affairs_system.Xml.{
  Element, element, end, children_of, descendants, read_digits, int_of, parsed,
}
use academic_affairs_system.Compilation.Rows.{Constraint, Lesson, Snapshot, Slot}
use academic_affairs_system.Compilation.Readback.{time_option}
use academic_affairs_system.Compilation.Times.{IsTime}
use academic_affairs_system.Compilation.Windows.{day_bits, day_bits_from}
use academic_affairs_system.Compilation.Options.{
  Emitted, applicable_rules, preferred_period_constraints, window_penalty,
}
use academic_affairs_system.Compilation.Schedules.{slots_by_schedule}
use academic_affairs_system.Compilation.Build.{inputs_of}
use academic_affairs_system.Common.Groups.{group_from}
use academic_affairs_system.Compilation.Shared.{shared_slot-overlaps}
use academic_affairs_system.Validation
use academic_affairs_system.Validation.{
  Placement, days_from, placements_of, resource_ids, day_measure, day_issues, id_issues,
  resource_issues, constraint_issues, judge, Verdict, validate_solution,
}
use academic_affairs_system.Validation.Judged.{is_hard_limit, Kept, validate_solution-hard_iff}
use academic_affairs_system.Readiness.{validate_current_project}
use academic_affairs_system.Readiness.Tasks.{IsReady}
use academic_affairs_system.Readiness.Ready.{validate_current_project-ready_iff}
use academic_affairs_system.Examples.Compilation.{
  school, bell_schedule, bells, slot, task, lesson, second_period,
}

-- A double lesson from the first period, and a single one in the second.
abbrev double_lesson : Lesson
double_lesson = record (lesson (text "z") (text "m")) { duration_slots = 2 }

abbrev double_first : Emitted
double_first = record {
  days = text "1000000";
  weeks = text "1";
  start = 9;
  length = 2;
  period_index = 1;
  penalty = 0;
  window = text "s1" ∷ text "s2" ∷ [];
}

abbrev first_slot : Slot
first_slot = slot (text "s1") 1

abbrev second_slot : Slot
second_slot = slot (text "s2") 2

double_first-IsTime :
    IsTime school bell_schedule (task (text "m") (text "h1")) double_lesson double_first
unfolding applicable_rules inputs_of preferred_period_constraints slots_by_schedule group_from
    window_penalty day_bits day_bits_from
double_first-IsTime = record {
  first = first_slot;
  window = first_slot ∷ second_slot ∷ [];
  run = record {
    weekday = inl refl;
    begins = (second_slot ∷ [], refl);
    size = refl;
    adjoins = (refl, refl, tt);
    within = within;
  };
  permitted = record {
    day = refl;
    periods = λ q m. absurd m;
    slots = λ r m. absurd m;
    free = λ r m. absurd m;
  };
  written = refl;
}
  where
    within : (x : Slot) → Elem x (first_slot ∷ second_slot ∷ []) → Elem x bells × (x.weekday ≡ 1)
    within x (inl e) = (inr (inl e), ap (λ (y : Slot). y.weekday) e)
    within x (inr (inl e)) = (inl e, ap (λ (y : Slot). y.weekday) e)
    within x (inr (inr m)) = absurd m

single_second-IsTime :
    IsTime school bell_schedule
      (task (text "m") (text "h1"))
      (lesson (text "x") (text "m"))
      second_period
unfolding applicable_rules inputs_of preferred_period_constraints slots_by_schedule group_from
    window_penalty day_bits day_bits_from
single_second-IsTime = record {
  first = second_slot;
  window = second_slot ∷ [];
  run = record {
    weekday = inl refl;
    begins = ([], refl);
    size = refl;
    adjoins = tt;
    within = within;
  };
  permitted = record {
    day = refl;
    periods = λ q m. absurd m;
    slots = λ r m. absurd m;
    free = λ r m. absurd m;
  };
  written = refl;
}
  where
    within : (x : Slot) → Elem x (second_slot ∷ []) → Elem x bells × (x.weekday ≡ 1)
    within x (inl e) = (inl e, ap (λ (y : Slot). y.weekday) e)
    within x (inr m) = absurd m

double_takes_second : Elem second_slot double_first-IsTime.window
unfolding double_first-IsTime
double_takes_second = inr (inl refl)

single_takes_second : Elem second_slot single_second-IsTime.window
unfolding single_second-IsTime
single_takes_second = inl refl

weeks_meet : shares_bit double_first.weeks second_period.weeks ≡ true
unfolding shares_bit any_common_bit
weeks_meet = refl

all_units : (y : Slot) → Elem y school.slots → y.length_slots ≡ 1
all_units y (inl e) = ap (λ (z : Slot). z.length_slots) e
all_units y (inr (inl e)) = ap (λ (z : Slot). z.length_slots) e
all_units y (inr (inr m)) = absurd m

shared_slot-overlaps_example :
    overlaps (time_option double_first) (time_option second_period) ≡ true
shared_slot-overlaps_example =
    shared_slot-overlaps school bell_schedule (task (text "m") (text "h1"))
      (task (text "m") (text "h1")) double_lesson (lesson (text "x") (text "m")) double_first
      second_period double_first-IsTime single_second-IsTime second_slot all_units
      double_takes_second single_takes_second weeks_meet

-- At most one lesson a day.
abbrev one_a_day : Constraint
one_a_day = record {
  id = text "c";
  kind = text "max_daily_lessons";
  name = text "one";
  is_hard = true;
  enabled = true;
  weight = 1;
  parameters = record {
    periods = [];
    teaching_task_ids = [];
    lesson_ids = [];
    max = some 1;
    max_consecutive = none;
    resource_type = text "teacher";
  };
}

abbrev strict_school : Snapshot
strict_school = record school { constraints = one_a_day ∷ [] }

abbrev solved : Text → Text → Element
solved id start =
    element (text "class")
      ((text "id", id)
        ∷ (text "days", text "1000000")
        ∷ (text "start", start)
        ∷ (text "length", text "1")
        ∷ [])
      end

abbrev solution : Element
solution =
    element (text "solution") []
      (children_of (solved (text "x") (text "9") ∷ solved (text "y") (text "10") ∷ []))

abbrev placed : Text → Text → Text → ℕ → Placement
placed id task_id homeroom start = record {
  lesson_id = id;
  task_id = task_id;
  teacher_id = some (text "t");
  homeroom_id = homeroom;
  weekday = 1;
  start = start;
  span = 1;
}

abbrev both : List Placement
both = placed (text "x") (text "m") (text "h1") 9 ∷ placed (text "y") (text "n") (text "h2") 10 ∷ []

placements : placements_of strict_school (descendants (text "class") solution) ≡ parsed both
unfolding placements_of descendants days_from int_of read_digits
placements = refl

abbrev verdict : Verdict
verdict = record {
  hard_issues =
      record {
        constraint_id = text "c";
        resource = Validation.teacher;
        resource_id = text "t";
        weekday = 1;
        limit = 1;
        excess = 1;
      }
      ∷ [];
  soft_issues = [];
  soft_penalty = 0;
}

judged : validate_solution strict_school solution ≡ parsed verdict
unfolding validate_solution placements_of descendants days_from int_of read_digits judge
    constraint_issues resource_issues id_issues day_issues day_measure resource_ids
judged = refl

validate_solution-hard_iff_example : (verdict.hard_issues ≡ []) ↔ (
    (c : Constraint)
    → Elem c strict_school.constraints
    → c.enabled ≡ true
    → is_hard_limit c ≡ true
    → Kept c both)
validate_solution-hard_iff_example =
    validate_solution-hard_iff strict_school solution both verdict placements judged

validate_current_project-ready_iff_example :
    ((validate_current_project school []).ready ≡ true) ↔ IsReady school []
validate_current_project-ready_iff_example = validate_current_project-ready_iff school []
