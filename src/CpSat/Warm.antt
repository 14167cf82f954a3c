-- ===== src/CpSat/Warm.antt =====
-- The classes of a solution's XML, which `_build_solution_xml` of
-- sidecar/stt_desktop/scheduler_engine/cgcs.py writes, and `_greedy_assignments`, `_action_key` and
-- `_selected_candidate_ordinals` of sidecar/stt_desktop/scheduler_engine/cp_sat.py, which read them.
pub mod Alike
pub mod Kept
use academic_affairs_system.Common.{
  ℕ, ◌+◌, ◌≡◌, Bool, true, false, not, ◌&&◌, List, [], ◌∷◌, ◌++◌, Option, none, some, map, ◌==◌,
  if◌then◌else◌,
}
use academic_affairs_system.Common.Text.{
  Text, text_eq, text_lt, option_text_eq, is_truthy, is_empty, set_add,
}
use academic_affairs_system.Common.Dict.{lookup, insert}
use academic_affairs_system.Common.Sort.{sort_by}
use academic_affairs_system.Cgcs.Model.{
  ClassAgent, Action, action_eq, option_eq, Assignments, Problem,
}
use academic_affairs_system.Cgcs.Actions.{actions}
use academic_affairs_system.Cgcs.Repair.{agents_by_id}
use academic_affairs_system.CpSat.Candidates.{Candidate}

-- `_action_key`: what a class element says of its action.
pub record ActionKey : Type 0 where
  pub days : Text
  pub weeks : Text
  pub start : ℕ
  pub span : ℕ
  pub period_index : Option ℕ
  pub room_id : Option Text

abbrev pub action_key_of : Action → ActionKey
action_key_of a = record {
  days = a.time.days;
  weeks = a.time.weeks;
  start = a.time.start;
  span = a.time.span;
  period_index = a.time.period_index;
  room_id = a.room_id;
}

unfoldable pub key_eq : ActionKey → ActionKey → Bool
key_eq a b =
    text_eq a.days b.days
    && text_eq a.weeks b.weeks
    && a.start == b.start
    && a.span == b.span
    && option_eq a.period_index b.period_index
    && option_text_eq a.room_id b.room_id

-- A `class` element: its id and the other attributes.
abbrev pub ClassNode : Type 0
ClassNode = Text × ActionKey

abbrev pub class_node : Action → ClassNode
class_node a = (
  a.class_id,
  record (action_key_of a) { room_id = if is_truthy a.room_id then a.room_id else none },
)

abbrev pub node_for : Option Action → List ClassNode
node_for none = []
node_for (some a) = class_node a ∷ []

unfoldable pub nodes_for : List Text → Assignments → List ClassNode
nodes_for [] assignments = []
nodes_for (class_id ∷ ids) assignments =
    node_for (lookup class_id assignments) ++ nodes_for ids assignments

-- The elements in the order of `sorted(assignments)`.
unfoldable pub solution_nodes : Assignments → List ClassNode
unfolding nodes_for
solution_nodes assignments =
    nodes_for (sort_by text_lt (map (λ (e : Text × Action). e.0) assignments)) assignments

-- `selected`: elements without an id are left out.
unfoldable pub select_nodes : List ClassNode → List (Text × ActionKey) → List (Text × ActionKey)
select_nodes [] selected = selected
select_nodes ((class_id, key) ∷ nodes) selected =
    select_nodes nodes (if is_empty class_id then selected else insert class_id key selected)

unfoldable pub action_with_key : ActionKey → List Action → Option Action
unfolding key_eq
action_with_key key [] = none
action_with_key key (a ∷ rest) =
    let later = action_with_key key rest in if key_eq (action_key_of a) key then some a else later

abbrev pub agent_action : ActionKey → Option ClassAgent → Option Action
agent_action key none = none
agent_action key (some agent) = action_with_key key (actions agent)

abbrev pub keep_action : Text → Option Action → Assignments → Assignments
keep_action class_id none assignments = assignments
keep_action class_id (some a) assignments = insert class_id a assignments

unfoldable pub assign_selected :
    List (Text × ClassAgent) → List (Text × ActionKey) → Assignments → Assignments
unfolding action_with_key
assign_selected by_id [] assignments = assignments
assign_selected by_id ((class_id, key) ∷ rest) assignments =
    assign_selected by_id rest
      (keep_action class_id (agent_action key (lookup class_id by_id)) assignments)

unfoldable pub greedy_assignments : Problem → List ClassNode → Assignments
unfolding agents_by_id select_nodes assign_selected
greedy_assignments p nodes = assign_selected (agents_by_id p.agents []) (select_nodes nodes []) []
