-- ===== src/Validation.antt =====
-- `_validate_solution` of sidecar/stt_desktop/scheduling/service.py: the limits of the user, checked on the
-- elements of a solution.
pub mod Occupied
pub mod Longest
pub mod Limits
pub mod Judged
use academic_affairs_system.Common.{
  ℕ, zero, suc, ◌+◌, ◌-◌, ◌*◌, max, Bool, true, false, not, ◌&&◌, ◌||◌, List, [], ◌∷◌, ◌++◌, Option,
  none, some, map, any, select, sum_of, ltb, ◌==◌, if◌then◌else◌,
}
use academic_affairs_system.Common.Text.{
  Text, text, text_eq, contains, is_empty, is_truthy, or_empty, set_add,
}
use academic_affairs_system.CpSat.Limits.{weekdays, numbers_from}
use academic_affairs_system.Xml.Strings.{number_attribute}
use academic_affairs_system.Xml.{
  Element, descendants, attribute, int_of, Parsed, parsed, value_error, ◌>>=◌,
}
use academic_affairs_system.Compilation.Rows.{Task, Lesson, Constraint, Parameters, Snapshot}
use academic_affairs_system.Compilation.Options.{names_none}
use academic_affairs_system.Compilation.Constraints.{is_limit_kind, limit_number}
use academic_affairs_system.Compilation.Classes.{task_with_id}

-- One lesson on one weekday.
pub record Placement : Type 0 where
  pub lesson_id : Text
  pub task_id : Text
  pub teacher_id : Option Text
  pub homeroom_id : Text
  pub weekday : ℕ
  pub start : ℕ
  pub span : ℕ

-- `lesson_to_task`: a lesson stands with its task, whether or not it is active.
abbrev pub lesson_with_id : Text → List Lesson → Option Lesson
lesson_with_id id [] = none
lesson_with_id id (l ∷ ls) =
    let later = lesson_with_id id ls in if text_eq l.id id then some l else later

abbrev pub task_of_lesson : List Task → Option Lesson → Option Task
task_of_lesson tasks none = none
task_of_lesson tasks (some l) = task_with_id l.teaching_task_id tasks

-- The weekdays that the mask names, counted from 1, or the first.
unfoldable pub days_from : ℕ → Text → List ℕ
days_from n [] = []
days_from n (b ∷ bits) =
    let later = days_from (n + 1) bits in if b == b'1' then n ∷ later else later

abbrev pub or_first : List ℕ → List ℕ
or_first [] = 1 ∷ []
or_first (d ∷ ds) = d ∷ ds

abbrev pub placements_on : Element → Task → ℕ → ℕ → List ℕ → List Placement
placements_on node task start span days =
    map
      (λ weekday. record {
        lesson_id = attribute (text "id") [] node;
        task_id = task.id;
        teacher_id = task.primary_teacher_id;
        homeroom_id = task.homeroom_id;
        weekday = weekday;
        start = start;
        span = span;
      })
      days

abbrev pub placed_node : Element → Option Task → Parsed (List Placement)
placed_node node none = parsed []
placed_node node (some task) = number_attribute (text "start") (text "0") node >>= λ start.
    number_attribute (text "length") (text "1") node >>= λ span.
    parsed (
      placements_on node task start span (or_first (days_from 1 (attribute (text "days") [] node))))

unfoldable pub placements_of : Snapshot → List Element → Parsed (List Placement)
unfolding int_of days_from
placements_of s [] = parsed []
placements_of s (node ∷ nodes) =
    placed_node node
      (task_of_lesson s.tasks (lesson_with_id (attribute (text "id") [] node) s.lessons))
    >>= λ here. placements_of s nodes >>= λ later. parsed (here ++ later)

-- The constraint concerns the placement.
abbrev pub scoped : Constraint → Placement → Bool
scoped c p =
    (names_none c.parameters.teaching_task_ids && names_none c.parameters.lesson_ids)
    || contains p.task_id c.parameters.teaching_task_ids
    || contains p.lesson_id c.parameters.lesson_ids

-- "teacherId" and "homeroomId".
pub data Resource : Type 0 where
  teacher homeroom : Resource

abbrev pub resource_id : Resource → Placement → Text
resource_id teacher p = or_empty p.teacher_id
resource_id homeroom p = p.homeroom_id

-- A known type selects its resource; any other text selects both.
abbrev pub selected_resources : Text → List Resource
selected_resources kind =
    if text_eq kind (text "teacher")
    then teacher ∷ []
    else if text_eq kind (text "homeroom")
    then homeroom ∷ []
    else teacher ∷ homeroom ∷ []

-- The ids of a set, in the order in which they are met.
unfoldable pub resource_ids : Resource → List Placement → List Text → List Text
resource_ids r [] seen = seen
resource_ids r (p ∷ ps) seen =
    resource_ids r ps (if is_empty (resource_id r p) then seen else set_add (resource_id r p) seen)

-- The placements of a day are not sorted by `start`: what is measured, a sum or a set, does not depend
-- on their order.
abbrev pub taken_by : Resource → Text → ℕ → Placement → Bool
taken_by r id weekday p = text_eq (resource_id r p) id && p.weekday == weekday

abbrev pub placed_on : Resource → Text → ℕ → List Placement → List Placement
placed_on r id weekday = select (taken_by r id weekday)

-- A set of numbers, in rising order.
unfoldable pub add_number : ℕ → List ℕ → List ℕ
add_number n [] = n ∷ []
add_number n (k ∷ ks) =
    let rest = add_number n ks in
    if ltb n k then n ∷ k ∷ ks else if n == k then k ∷ ks else k ∷ rest

unfoldable pub add_numbers : List ℕ → List ℕ → List ℕ
unfolding add_number
add_numbers [] set = set
add_numbers (n ∷ ns) set = add_numbers ns (add_number n set)

-- `sorted(occupied)`
unfoldable pub occupied : List Placement → List ℕ → List ℕ
unfolding add_numbers
occupied [] set = set
occupied (p ∷ ps) set = occupied ps (add_numbers (numbers_from p.start p.span) set)

-- The loop over the sorted periods: the last period, the run that ends there and the longest so far.
unfoldable pub longest_from : Option ℕ → ℕ → ℕ → List ℕ → ℕ
longest_from previous current longest [] = longest
longest_from none current longest (p ∷ ps) = longest_from (some p) 1 (max longest 1) ps
longest_from (some q) current longest (p ∷ ps) =
    let next = if p == q + 1 then current + 1 else 1 in
    longest_from (some p) next (max longest next) ps

unfoldable pub longest_run : List ℕ → ℕ
unfolding longest_from
longest_run = longest_from none 0 0

-- What the limit measures on a day.
unfoldable pub day_measure : Constraint → List Placement → ℕ
unfolding occupied longest_run
day_measure c ps =
    if text_eq c.kind (text "max_daily_lessons")
    then sum_of (λ (p : Placement). p.span) ps
    else longest_run (occupied ps [])

pub record Issue : Type 0 where
  pub constraint_id : Text
  pub resource : Resource
  pub resource_id : Text
  pub weekday : ℕ
  pub limit : ℕ
  pub excess : ℕ

abbrev pub issue_if : Constraint → Resource → Text → ℕ → ℕ → List Issue
issue_if c r id weekday measure =
    if ltb (limit_number c) measure
    then record {
      constraint_id = c.id;
      resource = r;
      resource_id = id;
      weekday = weekday;
      limit = limit_number c;
      excess = measure - limit_number c;
    }
      ∷ []
    else []

unfoldable pub day_issues : Constraint → Resource → Text → List Placement → List ℕ → List Issue
unfolding day_measure
day_issues c r id ps [] = []
day_issues c r id ps (weekday ∷ rest) =
    issue_if c r id weekday (day_measure c (placed_on r id weekday ps)) ++ day_issues c r id ps rest

unfoldable pub id_issues : Constraint → Resource → List Placement → List Text → List Issue
unfolding day_issues
id_issues c r ps [] = []
id_issues c r ps (id ∷ ids) = day_issues c r id ps weekdays ++ id_issues c r ps ids

unfoldable pub resource_issues : Constraint → List Placement → List Resource → List Issue
unfolding id_issues resource_ids
resource_issues c ps [] = []
resource_issues c ps (r ∷ rs) = id_issues c r ps (resource_ids r ps []) ++ resource_issues c ps rs

unfoldable pub constraint_issues : Constraint → List Placement → List Issue
unfolding resource_issues
constraint_issues c ps =
    resource_issues c (select (scoped c) ps) (selected_resources c.parameters.resource_type)

pub record Verdict : Type 0 where
  pub hard_issues : List Issue
  pub soft_issues : List Issue
  pub soft_penalty : ℕ

abbrev pub add_issues : Constraint → List Issue → Verdict → Verdict
add_issues c issues v =
    if c.is_hard then record v { hard_issues = v.hard_issues ++ issues } else record {
      hard_issues = v.hard_issues;
      soft_issues = v.soft_issues ++ issues;
      soft_penalty = v.soft_penalty + sum_of (λ (i : Issue). c.weight * i.excess) issues;
    }

unfoldable pub judge : List Constraint → List Placement → Verdict → Verdict
unfolding constraint_issues
judge [] ps v = v
judge (c ∷ cs) ps v =
    judge cs ps (if is_limit_kind c.kind then add_issues c (constraint_issues c ps) v else v)

unfoldable pub validate_solution : Snapshot → Element → Parsed Verdict
unfolding descendants placements_of judge
validate_solution s solution = placements_of s (descendants (text "class") solution) >>= λ ps.
    parsed (
      judge (select (λ (c : Constraint). c.enabled) s.constraints) ps
        (record { hard_issues = []; soft_issues = []; soft_penalty = 0 }))
