-- ===== src/Compilation/Schedules.antt =====
-- The choice of a bell schedule in `_build_problem` of sidecar/stt_desktop/scheduling/service.py: the
-- default of the eligible schedules, and the schedule that a template assigns to a task.
use academic_affairs_system.Common.{
  ◌+◌, Bool, true, false, not, ◌&&◌, ◌||◌, List, [], ◌∷◌, ◌++◌, Option, none, some, any, select,
  if◌then◌else◌,
}
use academic_affairs_system.Common.Text.{
  Text, text, text_eq, contains, or_empty, is_empty, is_truthy, option_text_eq,
}
use academic_affairs_system.Common.Dict.{lookup}
use academic_affairs_system.Common.Groups.{group_from}
use academic_affairs_system.Compilation.Rows.{Task, Schedule, Slot, TemplateAssignment, Snapshot}
use academic_affairs_system.Compilation.Diagnostics.{
  Diagnostics, assigned_schedule_has_no_active_slots,
}

abbrev pub or_nothing {ℓ} : {A : Type ℓ} → Option (List A) → List A
or_nothing none = []
or_nothing (some xs) = xs

-- `slots_by_schedule`
unfoldable pub slots_by_schedule : List Slot → List (Text × List Slot)
unfolding group_from
slots_by_schedule slots =
    group_from text_eq (λ (s : Slot). s.bell_schedule_id) (select (λ (s : Slot). s.active) slots) []

abbrev pub slots_of : List (Text × List Slot) → Text → List Slot
slots_of by_schedule id = or_nothing (lookup id by_schedule)

abbrev pub has_slots : List (Text × List Slot) → Text → Bool
has_slots by_schedule id = elim (slots_of by_schedule id) [ [] ↦ false | s ∷ (ss → r) ↦ true ]

-- `not task_terms or item.get("term_id") in task_terms`
abbrev pub serves_terms : List Task → Schedule → Bool
serves_terms tasks schedule =
    let with_term = select (λ (t : Task). is_truthy t.term_id) tasks in
    not (any (λ (t : Task). true) with_term)
    || any (λ (t : Task). option_text_eq t.term_id schedule.term_id) with_term

-- `next((item for item in items if ...), None)`
abbrev pub first_schedule : (Schedule → Bool) → List Schedule → Option Schedule
first_schedule p [] = none
first_schedule p (s ∷ ss) = let later = first_schedule p ss in if p s then some s else later

abbrev pub or_else : Option Schedule → Option Schedule → Option Schedule
or_else none later = later
or_else (some s) later = some s

abbrev pub head_of : List Schedule → Option Schedule
head_of [] = none
head_of (s ∷ ss) = some s

unfoldable pub default_schedule :
    List Task → List Schedule → List (Text × List Slot) → Option Schedule
default_schedule tasks schedules by_schedule =
    let eligible = select (serves_terms tasks) schedules in
    let with_slots = select (λ (s : Schedule). has_slots by_schedule s.id) eligible in
    or_else (first_schedule (λ (s : Schedule). s.is_default) with_slots)
      (or_else (head_of with_slots) (head_of eligible))

-- `assignment_ids`: a later row for the same entity replaces an earlier one.
abbrev pub is_for : Text → Text → TemplateAssignment → Bool
is_for entity_type entity_id a =
    text_eq a.entity_type entity_type && text_eq (or_empty a.entity_id) entity_id

abbrev pub last_assigned : (TemplateAssignment → Bool) → List TemplateAssignment → Text → Text
last_assigned p [] found = found
last_assigned p (a ∷ rest) found = last_assigned p rest (if p a then a.bell_schedule_id else found)

abbrev pub assigned_to : List TemplateAssignment → Text → Text → Text
assigned_to assignments entity_type entity_id =
    last_assigned (is_for entity_type entity_id) assignments []

-- `or` of two ids, the empty one being false.
abbrev pub or_id : Text → Text → Text
or_id [] next = next
or_id (c ∷ cs) next = c ∷ cs

-- The homeroom's schedule goes before the teacher's, the subject's and that of all.
unfoldable pub assigned_id : List TemplateAssignment → Task → Text
assigned_id assignments task = or_id (assigned_to assignments (text "homeroom") task.homeroom_id) (
    or_id (assigned_to assignments (text "teacher") (or_empty task.primary_teacher_id)) (
      or_id (assigned_to assignments (text "subject") task.subject_id)
        (assigned_to assignments (text "all") [])))

-- The schedule of a task, the diagnostics, and the tasks that were warned about.
pub record Selection : Type 0 where
  pub selected : Option Schedule
  pub diagnostics : Diagnostics
  pub unusable : List Text

abbrev pub count_assigned : Diagnostics → Diagnostics
count_assigned d = record d { assigned_schedule_count = d.assigned_schedule_count + 1 }

abbrev pub warn_unusable : Task → Text → Diagnostics → Diagnostics
warn_unusable task id d = record d {
  warnings = d.warnings ++ assigned_schedule_has_no_active_slots task.id id ∷ [];
}

abbrev pub fall_back : Option Schedule → Task → Text → Diagnostics → List Text → Selection
fall_back fallback task id d unusable =
    if not (is_empty id) && not (contains task.id unusable)
    then record {
      selected = fallback;
      diagnostics = warn_unusable task id d;
      unusable = unusable ++ task.id ∷ [];
    }
    else record { selected = fallback; diagnostics = d; unusable = unusable }

-- The assigned schedule is used if it is there and has slots.
abbrev pub select_assigned :
    Option Schedule → Option Schedule → Bool → Task → Text → Diagnostics → List Text → Selection
select_assigned none fallback usable task id d unusable = fall_back fallback task id d unusable
select_assigned (some s) fallback usable task id d unusable =
    if usable
    then record { selected = some s; diagnostics = count_assigned d; unusable = unusable }
    else fall_back fallback task id d unusable

abbrev pub schedule_named : Text → List Schedule → Option Schedule
schedule_named id = first_schedule (λ (s : Schedule). text_eq s.id id)

unfoldable pub schedule_for_task :
    Snapshot
    → List (Text × List Slot)
    → Option Schedule
    → Task
    → Diagnostics
    → List Text
    → Selection
unfolding assigned_id
schedule_for_task snapshot by_schedule fallback task d unusable =
    let id = assigned_id snapshot.template_assignments task in
    select_assigned (schedule_named id snapshot.schedules) fallback
      (not (is_empty id) && has_slots by_schedule id) task id d unusable
