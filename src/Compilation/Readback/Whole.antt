-- ===== src/Compilation/Readback/Whole.antt =====
-- The whole document of `_build_problem`, read back by `parse_problem`.
use academic_affairs_system.Common.{◌≡◌, refl, ap, not, List, [], ◌∷◌, ◌++◌, map, select}
use mathlib.Core.List.{append-nil}
use academic_affairs_system.Common.Text.{Text, text, is_empty}
use academic_affairs_system.Cgcs.Model.{Room, Problem}
use academic_affairs_system.Xml.Strings.{strip}
use academic_affairs_system.Cgcs.Parsing.{
  has_id, is_agent, parse_room, parse_distribution, parse_limit, parse_problem,
}
use academic_affairs_system.Xml.{
  Element, attribute, children_of, findall, findall_each, findall_in, descendants, descendants_in,
  parsed,
}
use academic_affairs_system.Xml.Search.{
  children_tagged-map, descendants_in-map, descendants_in-other, select-append, select-map,
}
use academic_affairs_system.Compilation.Rows.{RoomRow}
use academic_affairs_system.Compilation.Nodes.{
  Document, class_element, member_element, distribution_element, limit_element, listed_room,
  document_element,
}
use academic_affairs_system.Compilation.Readback.{agent_of}
use academic_affairs_system.Compilation.Readback.Agents.{
  is_kept, agents_of_classes, below_class, distribution-IsForeign, classes_found,
  no_agents_in_distributions, no_agents_in_limits,
}
use academic_affairs_system.Compilation.Readback.Rules.{
  distribution_rules, limit_rules, rules_of, parse_distribution-node, parse_limit-node,
  parse_each-map,
}

abbrev pub room_of : RoomRow → Room
room_of r = record { room_id = r.id; name = strip r.name }

-- The problem that a document states, written down from its nodes.
unfoldable pub problem_of : Document → Problem
problem_of d = record {
  name = d.name;
  rooms = map room_of (select (λ (r : RoomRow). not (is_empty r.id)) d.rooms);
  agents = map agent_of (select is_kept d.classes);
  distributions = rules_of distribution_rules d.distributions;
  resource_limits = rules_of limit_rules d.limits;
}

no_members :
    (ids : List Text)
    → descendants_in (text "distribution") (children_of (map member_element ids)) ≡ []
unfolding descendants
no_members ids =
    descendants_in-other (text "distribution") member_element ids (λ i. refl) (λ i. refl)

module _ (d : Document) where
  agents_found :
      select is_agent (descendants (text "class") (document_element d))
      ≡ select is_agent (map class_element d.classes)
  unfolding document_element descendants
  agents_found =
      rw
        (
          descendants_in-other (text "class") listed_room d.rooms (λ x. refl) (λ x. refl),
          classes_found d.classes,
          select-append is_agent (map class_element d.classes)
              (in_distributions ++ (in_limits ++ [])),
          select-append is_agent in_distributions (in_limits ++ []),
          select-append is_agent in_limits [],
          no_agents_in_distributions d.distributions,
          no_agents_in_limits d.limits,
        )
        (append-nil (select is_agent (map class_element d.classes)))
    where
      in_distributions : List Element
      in_distributions =
          descendants_in (text "class") (children_of (map distribution_element d.distributions))

      in_limits : List Element
      in_limits = descendants_in (text "class") (children_of (map limit_element d.limits))

  distributions_found :
      descendants (text "distribution") (document_element d)
      ≡ map distribution_element d.distributions
  unfolding document_element descendants
  distributions_found =
      rw
        (
          descendants_in-other (text "distribution") listed_room d.rooms (λ x. refl) (λ x. refl),
          descendants_in-other (text "distribution") class_element d.classes (λ x. refl)
              (below_class (text "distribution") distribution-IsForeign),
          descendants_in-map (text "distribution") distribution_element d.distributions (λ x. refl)
              (λ x. no_members x.class_ids),
          descendants_in-other (text "distribution") limit_element d.limits (λ x. refl)
              (λ x. no_members x.class_ids),
        )
        (append-nil (map distribution_element d.distributions))

  limits_found :
      findall_in (text "limits") (text "limit") (document_element d) ≡ map limit_element d.limits
  unfolding document_element findall findall_each
  limits_found =
      rw (children_tagged-map (text "limit") limit_element d.limits (λ x. refl))
        (append-nil (map limit_element d.limits))

  rooms_found :
      findall_in (text "rooms") (text "room") (document_element d) ≡ map listed_room d.rooms
  unfolding document_element findall findall_each
  rooms_found =
      rw (children_tagged-map (text "room") listed_room d.rooms (λ x. refl))
        (append-nil (map listed_room d.rooms))

  name_found : attribute (text "name") (text "stt-problem") (document_element d) ≡ d.name
  unfolding document_element
  name_found = refl

map_rooms : (rs : List RoomRow) → map parse_room (map listed_room rs) ≡ map room_of rs
map_rooms [] = refl
map_rooms (r ∷ rs) = ap (λ z. room_of r ∷ z) (map_rooms rs)

-- The parser reads from a document that was written exactly the problem that its nodes state: it
-- raises nowhere, takes no class of a rule for an agent, and drops only rooms without an id, classes
-- without an id or a time, rules of unknown type, and rules that name too few classes.
pub parse_problem-document_element :
    (d : Document) → parse_problem (document_element d) ≡ parsed (problem_of d)
unfolding parse_problem problem_of
parse_problem-document_element d =
    rw
      (
        agents_found d,
        distributions_found d,
        limits_found d,
        rooms_found d,
        agents_of_classes d.classes,
        parse_each-map parse_distribution distribution_element distribution_rules d.distributions
            parse_distribution-node,
        parse_each-map parse_limit limit_element limit_rules d.limits parse_limit-node,
        select-map has_id listed_room (λ (r : RoomRow). not (is_empty r.id)) d.rooms (λ r. refl),
        map_rooms (select (λ (r : RoomRow). not (is_empty r.id)) d.rooms),
        name_found d,
      )
      refl
