-- ===== src/Cgcs/Actions.antt =====
-- `_actions` of sidecar/stt_desktop/scheduler_engine/cgcs.py.
pub mod Offers
use academic_affairs_system.Common.{
  ℕ, ◌+◌, Bool, true, false, ◌&&◌, List, [], ◌∷◌, ◌++◌, Option, none, some, any, select, sum_of,
  ◌==◌, if◌then◌else◌,
}
use academic_affairs_system.Common.Text.{Text, text_eq, or_empty}
use academic_affairs_system.Common.Keys.{Key, lt_on}
use academic_affairs_system.Common.Sort.{sort_by}
use academic_affairs_system.Cgcs.Model.{
  TimeOption, TimeKey, RoomOption, ClassAgent, Action, base_penalty,
}

abbrev pub time_key : TimeOption → TimeKey
time_key t = (t.days, t.weeks, t.start)

abbrev pub time_key_eq : TimeKey → TimeKey → Bool
time_key_eq (days, weeks, start) (days', weeks', start') =
    text_eq days days' && text_eq weeks weeks' && start == start'

-- `time_key in room.unavailable_times`
abbrev pub is_unavailable : RoomOption → TimeOption → Bool
is_unavailable room time = any (time_key_eq (time_key time)) room.unavailable_times

abbrev pub timed_penalty : RoomOption → TimeOption → ℕ
timed_penalty room time =
    sum_of (λ e. e.1) (select (λ e. time_key_eq e.0 (time_key time)) room.timed_penalties)

abbrev pub room_action : ClassAgent → RoomOption → TimeOption → Action
room_action agent room time = record {
  class_id = agent.class_id;
  time = time;
  room_id = some room.room_id;
  time_penalty = time.penalty;
  room_penalty = room.penalty + timed_penalty room time;
}

abbrev pub free_action : ClassAgent → TimeOption → Action
free_action agent time = record {
  class_id = agent.class_id;
  time = time;
  room_id = none;
  time_penalty = time.penalty;
  room_penalty = 0;
}

unfoldable pub room_actions : ClassAgent → RoomOption → List TimeOption → List Action
room_actions agent room [] = []
room_actions agent room (time ∷ times) =
    let rest = room_actions agent room times in
    if is_unavailable room time then rest else room_action agent room time ∷ rest

unfoldable pub all_room_actions : ClassAgent → List RoomOption → List Action
unfolding room_actions
all_room_actions agent [] = []
all_room_actions agent (room ∷ rooms) =
    room_actions agent room agent.time_options ++ all_room_actions agent rooms

unfoldable pub free_actions : ClassAgent → List TimeOption → List Action
free_actions agent [] = []
free_actions agent (time ∷ times) = free_action agent time ∷ free_actions agent times

abbrev pub action_key : Action → Key
action_key a = (base_penalty a, a.time.start, or_empty a.room_id)

-- The options before they are sorted: in each room if the class has room options, else in none.
unfoldable pub unsorted_actions : List RoomOption → ClassAgent → List Action
unfolding all_room_actions free_actions
unsorted_actions [] agent = free_actions agent agent.time_options
unsorted_actions (room ∷ rooms) agent = all_room_actions agent (room ∷ rooms)

unfoldable pub actions : ClassAgent → List Action
unfolding unsorted_actions
actions agent = sort_by (lt_on action_key) (unsorted_actions agent.room_options agent)
