-- ===== src/Compilation/Constraints.antt =====
-- `_distribution`, `_resource_limit` and `_compile_user_constraints` of
-- sidecar/stt_desktop/scheduling/service.py: the nodes that the constraints of the user add.
use academic_affairs_system.Common.{
  ℕ, ◌+◌, max, Bool, not, ◌&&◌, ◌||◌, List, [], ◌∷◌, ◌++◌, Option, none, some, map, length, select,
  ltb, leb, if◌then◌else◌,
}
use academic_affairs_system.Common.Text.{Text, text, text_eq, contains, is_empty, set_add}
use academic_affairs_system.Common.Dict.{lookup}
use academic_affairs_system.Xml.{decimal}
use academic_affairs_system.Compilation.Rows.{Constraint}
use academic_affairs_system.Compilation.Diagnostics.{Diagnostics, constraint_not_compiled}
use academic_affairs_system.Compilation.Schedules.{or_nothing}
use academic_affairs_system.Compilation.Options.{names_none}
use academic_affairs_system.Compilation.Nodes.{DistributionNode, LimitNode}

-- The ids of lessons by the id of a teacher, a homeroom or a task.
abbrev pub Groups : Type 0
Groups = List (Text × List Text)

-- `dict.fromkeys(ids)`
unfoldable pub unique_from : List Text → List Text → List Text
unique_from [] seen = seen
unique_from (id ∷ ids) seen = unique_from ids (set_add id seen)

unfoldable pub unique : List Text → List Text
unfolding unique_from
unique ids = unique_from ids []

-- The nodes added so far, and the diagnostics.
pub record Added : Type 0 where
  pub distributions : List DistributionNode
  pub limits : List LimitNode
  pub diagnostics : Diagnostics

-- `_distribution`: nothing for fewer than two lessons.
unfoldable pub distribution :
    Text → Text → List Text → Bool → ℕ → Text → Text → List DistributionNode
unfolding unique
distribution id kind lesson_ids required penalty name scope =
    if ltb (length (unique lesson_ids)) 2
    then []
    else record {
      id = id;
      kind = kind;
      required = required;
      penalty = penalty;
      name = name;
      scope = scope;
      class_ids = unique lesson_ids;
    }
      ∷ []

-- `_resource_limit`: nothing for no lessons.
unfoldable pub resource_limit :
    Text → Text → List Text → Bool → ℕ → ℕ → Text → Text → List LimitNode
unfolding unique
resource_limit id kind lesson_ids required penalty limit name scope =
    if names_none (unique lesson_ids)
    then []
    else record {
      id = id;
      kind = kind;
      required = required;
      penalty = penalty;
      limit = limit;
      name = name;
      scope = scope;
      class_ids = unique lesson_ids;
    }
      ∷ []

abbrev pub all_lessons : Groups → List Text
all_lessons [] = []
all_lessons ((k, ids) ∷ groups) = ids ++ all_lessons groups

abbrev pub explicit_ids : Constraint → Groups → List Text
explicit_ids c by_task = select (λ id. contains id (all_lessons by_task)) c.parameters.lesson_ids

abbrev pub task_lessons : List Text → Groups → List Text
task_lessons [] by_task = []
task_lessons (id ∷ ids) by_task = or_nothing (lookup id by_task) ++ task_lessons ids by_task

-- `lesson_ids`
abbrev pub scoped_ids : Constraint → Groups → List Text
scoped_ids c by_task = explicit_ids c by_task ++ task_lessons c.parameters.teaching_task_ids by_task

-- The lists of lessons whose days shall differ.
abbrev pub if_found : Option (List Text) → List (List Text)
if_found none = []
if_found (some ids) = ids ∷ []

abbrev pub task_groups : List Text → Groups → List (List Text)
task_groups [] by_task = []
task_groups (id ∷ ids) by_task = if_found (lookup id by_task) ++ task_groups ids by_task

abbrev pub all_groups : Groups → List (List Text)
all_groups = map (λ (g : Text × List Text). g.1)

abbrev pub or_all : List (List Text) → Groups → List (List Text)
or_all [] by_task = all_groups by_task
or_all (t ∷ ts) by_task = t ∷ ts

abbrev pub spacing_targets : Constraint → Groups → List (List Text)
spacing_targets c by_task =
    let explicit = explicit_ids c by_task in
    or_all
      (task_groups c.parameters.teaching_task_ids by_task
        ++ (if names_none explicit then [] else explicit ∷ []))
      by_task

abbrev pub user_id : Constraint → Text
user_id c = text "user-" ++ c.id

unfoldable pub spacing_nodes : Constraint → ℕ → List (List Text) → List DistributionNode
unfolding distribution decimal
spacing_nodes c index [] = []
spacing_nodes c index (target ∷ rest) =
    distribution (user_id c ++ (text "-" ++ decimal index)) (text "DifferentDays") target c.is_hard
      c.weight c.name (text "custom")
    ++ spacing_nodes c (index + 1) rest

-- `max(1, int(parameters.get(key, default)))`
abbrev pub limit_or : Option ℕ → ℕ → ℕ
limit_or none default = max 1 default
limit_or (some n) default = max 1 n

abbrev pub limit_number : Constraint → ℕ
limit_number c =
    if text_eq c.kind (text "max_daily_lessons")
    then limit_or c.parameters.max 6
    else limit_or c.parameters.max_consecutive 3

abbrev pub in_scope : List Text → List Text → List Text
in_scope lesson_ids group = select (λ id. names_none lesson_ids || contains id lesson_ids) group

-- The limits of one kind of resource; those without a lesson in scope are skipped.
unfoldable pub group_limits : Constraint → List Text → Text → Groups → List LimitNode
unfolding resource_limit
group_limits c lesson_ids resource_type [] = []
group_limits c lesson_ids resource_type ((resource_id, ids) ∷ groups) =
    resource_limit (user_id c ++ (text "-" ++ (resource_type ++ (text "-" ++ resource_id)))) c.kind
      (in_scope lesson_ids ids) c.is_hard c.weight (limit_number c) c.name resource_type
    ++ group_limits c lesson_ids resource_type groups

-- `groups` are the lessons by teacher and by homeroom, under the name of the resource.
unfoldable pub limit_nodes : Constraint → List Text → List (Text × Groups) → List LimitNode
unfolding group_limits
limit_nodes c lesson_ids [] = []
limit_nodes c lesson_ids ((resource_type, groups) ∷ rest) =
    let later = limit_nodes c lesson_ids rest in
    if not (is_empty c.parameters.resource_type)
      && not (text_eq c.parameters.resource_type resource_type)
    then later
    else group_limits c lesson_ids resource_type groups ++ later

abbrev pub pair_kinds : List Text
pair_kinds =
    text "NotOverlap"
    ∷ text "SameRoom"
    ∷ text "DifferentTime"
    ∷ text "DifferentDays"
    ∷ text "DifferentWeeks"
    ∷ text "SameDays"
    ∷ text "SameStart"
    ∷ text "SameTime"
    ∷ text "Precedence"
    ∷ text "Consecutive"
    ∷ []

abbrev pub is_limit_kind : Text → Bool
is_limit_kind kind =
    text_eq kind (text "max_daily_lessons") || text_eq kind (text "consecutive_limit")

abbrev pub add_distributions : List DistributionNode → Added → Added
add_distributions ds a = record a { distributions = a.distributions ++ ds }

abbrev pub add_limits : List LimitNode → Added → Added
add_limits ls a = record {
  distributions = a.distributions;
  limits = a.limits ++ ls;
  diagnostics = record (a.diagnostics) {
    compiled_limit_count = a.diagnostics.compiled_limit_count + length ls;
  };
}

abbrev pub warn_not_compiled : Constraint → Added → Added
warn_not_compiled c a = record a {
  diagnostics = record (a.diagnostics) {
    warnings = a.diagnostics.warnings ++ constraint_not_compiled c.id c.name ∷ [];
  };
}

-- One constraint, by its type.
unfoldable pub compile_constraint : Groups → List (Text × Groups) → Constraint → Added → Added
unfolding distribution spacing_nodes limit_nodes
compile_constraint by_task resources c a =
    let lesson_ids = scoped_ids c by_task in
    if text_eq c.kind (text "same_day_spacing")
    then add_distributions (spacing_nodes c 0 (spacing_targets c by_task)) a
    else if text_eq c.kind (text "preferred_periods")
    then a
    else if is_limit_kind c.kind
    then add_limits (limit_nodes c lesson_ids resources) a
    else if contains c.kind pair_kinds && leb 2 (length lesson_ids)
    then add_distributions
        (distribution (user_id c) c.kind lesson_ids c.is_hard c.weight c.name (text "custom")) a
    else warn_not_compiled c a

unfoldable pub compile_user_constraints :
    List Constraint → Groups → List (Text × Groups) → Added → Added
unfolding compile_constraint
compile_user_constraints [] by_task resources a = a
compile_user_constraints (c ∷ cs) by_task resources a =
    compile_user_constraints cs by_task resources (compile_constraint by_task resources c a)
