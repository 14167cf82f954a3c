-- ===== src/Compilation/Readback/Agents.antt =====
-- The classes of the document, read back.
use academic_affairs_system.Common.{
  ◌≡◌, refl, ◌∙◌, Bool, true, false, not, ◌&&◌, List, [], ◌∷◌, map, select, arith,
}
use mathlib.Core.List.{append-nil}
use academic_affairs_system.Common.Text.{Text, text, text_eq, is_empty}
use academic_affairs_system.Cgcs.Parsing.{
  parse_time, parse_room_option, has_id, is_agent, is_none_left, parse_agent,
}
use academic_affairs_system.Xml.{
  children_of, tag_of, children_tagged, findall, descendants, descendants_in, parsed, parse_all,
}
use academic_affairs_system.Xml.Search.{
  children_tagged-append, children_tagged-map, children_tagged-other, descendants_in-append,
  descendants_in-map, descendants_in-other, parse_all-map, select-append, select-map, select-none,
}
use academic_affairs_system.Compilation.Options.{Emitted}
use academic_affairs_system.Compilation.Nodes.{
  RoomMark, unavailable_at, preferred_at, RoomNode, ClassNode, DistributionNode, LimitNode,
  time_element, mark_element, room_element, class_element, member_element, distribution_element,
  limit_element,
}
use academic_affairs_system.Compilation.Readback.{
  time_option, room_option, with_room_id, agent_of, parse_time-time_element,
  parse_room_option-room_element,
}

findall_times : (c : ClassNode) → findall (text "time") (class_element c) ≡ map time_element c.times
unfolding findall
findall_times c =
    children_tagged-append (text "time") (map time_element c.times) (map room_element c.rooms)
    ∙ rw
        (
          children_tagged-map (text "time") time_element c.times (λ x. refl),
          children_tagged-other (text "time") room_element c.rooms (λ x. refl),
        )
        (append-nil (map time_element c.times))

findall_rooms : (c : ClassNode) → findall (text "room") (class_element c) ≡ map room_element c.rooms
unfolding findall
findall_rooms c =
    children_tagged-append (text "room") (map time_element c.times) (map room_element c.rooms)
    ∙ rw
        (
          children_tagged-other (text "room") time_element c.times (λ x. refl),
          children_tagged-map (text "room") room_element c.rooms (λ x. refl),
        )
        refl

pub parse_agent-class_element :
    (c : ClassNode) → parse_agent (class_element c) ≡ parsed (agent_of c)
unfolding parse_agent
parse_agent-class_element c =
    rw
      (
        findall_times c,
        findall_rooms c,
        select-map has_id room_element (λ (r : RoomNode). not (is_empty r.id)) c.rooms (λ r. refl),
        parse_all-map parse_time time_element time_option c.times parse_time-time_element,
        parse_all-map parse_room_option room_element room_option (with_room_id c.rooms)
            parse_room_option-room_element,
      )
      refl

-- The classes that the parser keeps: those with an id and a time.
abbrev pub has_times : List Emitted → Bool
has_times [] = false
has_times (t ∷ ts) = true

abbrev pub is_kept : ClassNode → Bool
is_kept c = not (is_empty c.id) && has_times c.times

is_agent-class_element : (c : ClassNode) → is_agent (class_element c) ≡ is_kept c
unfolding is_agent
is_agent-class_element c = rw (findall_times c) (kept c.times)
  where
    kept :
        (ts : List Emitted)
        → not (is_empty c.id) && not (is_none_left (map time_element ts))
          ≡ not (is_empty c.id) && has_times ts
    kept [] = refl
    kept (t ∷ ts) = refl

pub agents_of_classes :
    (cs : List ClassNode)
    → parse_all parse_agent (select is_agent (map class_element cs))
      ≡ parsed (map agent_of (select is_kept cs))
agents_of_classes cs =
    rw (select-map is_agent class_element is_kept cs is_agent-class_element) (
      parse_all-map parse_agent class_element agent_of (select is_kept cs)
        parse_agent-class_element)

-- Below a class there is neither a class nor a rule.
module _ (tag : Text) where
  pub record IsForeign : Type 0 where
    pub time : text_eq (text "time") tag ≡ false
    pub room : text_eq (text "room") tag ≡ false
    pub unavailable : text_eq (text "unavailable") tag ≡ false
    pub preference : text_eq (text "preference") tag ≡ false

  module _ (f : IsForeign) where
    below_mark : (m : RoomMark) → descendants tag (mark_element m) ≡ []
    unfolding descendants
    below_mark (unavailable_at t) = refl
    below_mark (preferred_at t n) = refl

    mark_tag : (m : RoomMark) → text_eq (tag_of (mark_element m)) tag ≡ false
    mark_tag (unavailable_at t) = f.unavailable
    mark_tag (preferred_at t n) = f.preference

    below_room : (r : RoomNode) → descendants tag (room_element r) ≡ []
    unfolding descendants
    below_room r = descendants_in-other tag mark_element r.marks mark_tag below_mark

    below_time : (t : Emitted) → descendants tag (time_element t) ≡ []
    unfolding descendants
    below_time t = refl

    pub below_class : (c : ClassNode) → descendants tag (class_element c) ≡ []
    unfolding descendants
    below_class c =
        descendants_in-append tag (map time_element c.times) (map room_element c.rooms)
        ∙ rw
            (
              descendants_in-other tag time_element c.times (λ x. f.time) below_time,
              descendants_in-other tag room_element c.rooms (λ x. f.room) below_room,
            )
            refl

class-IsForeign : IsForeign (text "class")
class-IsForeign = record { time = refl; room = refl; unavailable = refl; preference = refl }

pub distribution-IsForeign : IsForeign (text "distribution")
distribution-IsForeign = record { time = refl; room = refl; unavailable = refl; preference = refl }

pub classes_found :
    (cs : List ClassNode)
    → descendants_in (text "class") (children_of (map class_element cs)) ≡ map class_element cs
classes_found cs =
    descendants_in-map (text "class") class_element cs (λ c. refl)
      (below_class (text "class") class-IsForeign)

-- The classes that a rule names are no agents.
members_found :
    (ids : List Text)
    → descendants_in (text "class") (children_of (map member_element ids)) ≡ map member_element ids
unfolding descendants
members_found ids = descendants_in-map (text "class") member_element ids (λ i. refl) (λ i. refl)

no_agent_member : (id : Text) → is_agent (member_element id) ≡ false
unfolding is_agent findall children_tagged
no_agent_member id = ground arith

no_agents_in :
    (ids : List Text)
    → select is_agent (descendants_in (text "class") (children_of (map member_element ids))) ≡ []
no_agents_in ids = rw (members_found ids) (select-none is_agent member_element ids no_agent_member)

pub no_agents_in_distributions :
    (ds : List DistributionNode)
    → select is_agent (descendants_in (text "class") (children_of (map distribution_element ds)))
      ≡ []
unfolding descendants_in
no_agents_in_distributions [] = refl
no_agents_in_distributions (d ∷ ds) =
    select-append is_agent
      (descendants_in (text "class") (children_of (map member_element d.class_ids)))
      (descendants_in (text "class") (children_of (map distribution_element ds)))
    ∙ rw (no_agents_in d.class_ids) (no_agents_in_distributions ds)

pub no_agents_in_limits :
    (ls : List LimitNode)
    → select is_agent (descendants_in (text "class") (children_of (map limit_element ls))) ≡ []
unfolding descendants_in
no_agents_in_limits [] = refl
no_agents_in_limits (l ∷ ls) =
    select-append is_agent
      (descendants_in (text "class") (children_of (map member_element l.class_ids)))
      (descendants_in (text "class") (children_of (map limit_element ls)))
    ∙ rw (no_agents_in l.class_ids) (no_agents_in_limits ls)
