-- ===== src/Compilation/Readback.antt =====
-- The document that `_build_problem` of sidecar/stt_desktop/scheduling/service.py writes, read back by
-- `parse_problem` of sidecar/stt_desktop/scheduler_engine/cgcs.py: the options of a class.
pub mod Agents
pub mod Rules
pub mod Whole
use academic_affairs_system.Common.{
  ℕ, ◌≡◌, refl, ap, ◌∙◌, Bool, true, false, not, List, [], ◌∷◌, ◌++◌, Option, none, some, map,
  select, arith, Bool-cases, inl, inr, if◌then◌else◌,
}
use academic_affairs_system.Common.Text.{Text, text, is_empty}
use academic_affairs_system.Cgcs.Model.{TimeOption, TimeKey, RoomOption, Room, ClassAgent}
use academic_affairs_system.Cgcs.Parsing.{
  parse_time, parse_unavailable, parse_preference, parse_room_option, or_next,
}
use academic_affairs_system.Xml.{
  Element, children_of, children_tagged, findall, int_of, decimal, Parsed, parsed, ◌>>=◌, parse_all,
}
use academic_affairs_system.Xml.Numbers.{int_of-decimal}
use academic_affairs_system.Compilation.Options.{Emitted}
use academic_affairs_system.Compilation.Nodes.{
  RoomMark, unavailable_at, preferred_at, RoomNode, ClassNode, time_element, mark_element,
  room_element,
}

-- What the scheduler sees of a time.
abbrev pub time_option : Emitted → TimeOption
time_option t = record {
  days = t.days;
  weeks = t.weeks;
  start = t.start;
  span = t.length;
  penalty = t.penalty;
  period_index = some t.period_index;
}

abbrev pub key_of : Emitted → TimeKey
key_of t = (t.days, t.weeks, t.start)

abbrev pub closed_keys : List RoomMark → List TimeKey
closed_keys [] = []
closed_keys (unavailable_at t ∷ ms) = key_of t ∷ closed_keys ms
closed_keys (preferred_at t n ∷ ms) = closed_keys ms

abbrev pub priced_keys : List RoomMark → List (TimeKey × ℕ)
priced_keys [] = []
priced_keys (unavailable_at t ∷ ms) = priced_keys ms
priced_keys (preferred_at t n ∷ ms) = (key_of t, n) ∷ priced_keys ms

abbrev pub room_option : RoomNode → RoomOption
room_option r = record {
  room_id = r.id;
  penalty = 0;
  unavailable_times = closed_keys r.marks;
  timed_penalties = priced_keys r.marks;
}

abbrev pub with_room_id : List RoomNode → List RoomNode
with_room_id = select (λ (r : RoomNode). not (is_empty r.id))

abbrev pub agent_of : ClassNode → ClassAgent
agent_of c = record {
  class_id = c.id;
  label = or_next c.label (or_next c.subject c.id);
  time_options = map time_option c.times;
  room_options = map room_option (with_room_id c.rooms);
}

pub parse_time-time_element : (t : Emitted) → parse_time (time_element t) ≡ parsed (time_option t)
unfolding parse_time
parse_time-time_element t =
    rw
      (
        int_of-decimal t.start,
        int_of-decimal t.length,
        int_of-decimal t.penalty,
        int_of-decimal t.period_index,
      )
      refl

closed_marks :
    (ms : List RoomMark)
    → parse_all parse_unavailable
        (children_tagged (text "unavailable") (children_of (map mark_element ms)))
      ≡ parsed (closed_keys ms)
unfolding children_tagged parse_unavailable
closed_marks [] = refl
closed_marks (unavailable_at t ∷ ms) = rw (int_of-decimal t.start, closed_marks ms) refl
closed_marks (preferred_at t n ∷ ms) = closed_marks ms

priced_marks :
    (ms : List RoomMark)
    → parse_all parse_preference
        (children_tagged (text "preference") (children_of (map mark_element ms)))
      ≡ parsed (priced_keys ms)
unfolding children_tagged parse_preference
priced_marks [] = refl
priced_marks (unavailable_at t ∷ ms) = priced_marks ms
priced_marks (preferred_at t n ∷ ms) =
    rw (int_of-decimal t.start, int_of-decimal n, priced_marks ms) refl

pub parse_room_option-room_element :
    (r : RoomNode) → parse_room_option (room_element r) ≡ parsed (room_option r)
unfolding parse_room_option findall int_of
parse_room_option-room_element r = rw (closed_marks r.marks, priced_marks r.marks) refl
