-- ===== src/Compilation/Nodes.antt =====
-- The nodes of the document that `_build_problem` of sidecar/stt_desktop/scheduling/service.py writes, and
-- the document made of them.
use academic_affairs_system.Common.{ℕ, Bool, List, [], ◌∷◌, ◌++◌, map, if◌then◌else◌}
use academic_affairs_system.Common.Text.{Text, text}
use academic_affairs_system.Xml.{Element, element, end, children_of, decimal}
use academic_affairs_system.Compilation.Rows.{RoomRow}
use academic_affairs_system.Compilation.Options.{Emitted}

-- An emitted time at which a room is not free, or costs something.
pub data RoomMark : Type 0 where
  unavailable_at : (t : Emitted) → RoomMark
  preferred_at : (t : Emitted) (penalty : ℕ) → RoomMark

pub record RoomNode : Type 0 where
  pub id : Text
  pub marks : List RoomMark

pub record ClassNode : Type 0 where
  pub id : Text
  pub subject : Text
  pub label : Text
  pub times : List Emitted
  pub rooms : List RoomNode

pub record DistributionNode : Type 0 where
  pub id : Text
  pub kind : Text
  pub required : Bool
  pub penalty : ℕ
  pub name : Text
  pub scope : Text
  pub class_ids : List Text

pub record LimitNode : Type 0 where
  pub id : Text
  pub kind : Text
  pub required : Bool
  pub penalty : ℕ
  pub limit : ℕ
  pub name : Text
  pub scope : Text
  pub class_ids : List Text

pub record Document : Type 0 where
  pub name : Text
  pub rooms : List RoomRow
  pub classes : List ClassNode
  pub distributions : List DistributionNode
  pub limits : List LimitNode

abbrev pub time_element : Emitted → Element
time_element t =
    element (text "time")
      ((text "days", t.days)
        ∷ (text "weeks", t.weeks)
        ∷ (text "start", decimal t.start)
        ∷ (text "length", decimal t.length)
        ∷ (text "periodIndex", decimal t.period_index)
        ∷ (text "penalty", decimal t.penalty)
        ∷ [])
      end

-- `{key: time_attrs[key] for key in ("days", "weeks", "start")}`
abbrev pub time_key : Emitted → List (Text × Text)
time_key t = (text "days", t.days) ∷ (text "weeks", t.weeks) ∷ (text "start", decimal t.start) ∷ []

abbrev pub mark_element : RoomMark → Element
mark_element (unavailable_at t) = element (text "unavailable") (time_key t) end
mark_element (preferred_at t penalty) =
    element (text "preference") (time_key t ++ (text "penalty", decimal penalty) ∷ []) end

abbrev pub room_element : RoomNode → Element
room_element r =
    element (text "room") ((text "id", r.id) ∷ (text "penalty", text "0") ∷ [])
      (children_of (map mark_element r.marks))

abbrev pub class_element : ClassNode → Element
class_element c =
    element (text "class")
      ((text "id", c.id) ∷ (text "subject", c.subject) ∷ (text "label", c.label) ∷ [])
      (children_of (map time_element c.times ++ map room_element c.rooms))

-- `str(required).lower()`
abbrev pub flag : Bool → Text
flag b = if b then text "true" else text "false"

abbrev pub member_element : Text → Element
member_element id = element (text "class") ((text "id", id) ∷ []) end

-- The penalty is written for a rule that is not required.
abbrev pub penalty_attribute : Bool → ℕ → List (Text × Text)
penalty_attribute required penalty = if required then [] else (text "penalty", decimal penalty) ∷ []

abbrev pub distribution_element : DistributionNode → Element
distribution_element d =
    element (text "distribution")
      ((text "id", d.id)
        ∷ (text "type", d.kind)
        ∷ (text "required", flag d.required)
        ∷ (text "name", d.name)
        ∷ (text "scope", d.scope)
        ∷ penalty_attribute d.required d.penalty)
      (children_of (map member_element d.class_ids))

abbrev pub limit_element : LimitNode → Element
limit_element l =
    element (text "limit")
      ((text "id", l.id)
        ∷ (text "type", l.kind)
        ∷ (text "required", flag l.required)
        ∷ (text "limit", decimal l.limit)
        ∷ (text "name", l.name)
        ∷ (text "scope", l.scope)
        ∷ penalty_attribute l.required l.penalty)
      (children_of (map member_element l.class_ids))

abbrev pub listed_room : RoomRow → Element
listed_room r = element (text "room") ((text "id", r.id) ∷ (text "name", r.name) ∷ []) end

abbrev pub group_element : Text → List Element → Element
group_element tag es = element tag [] (children_of es)

-- The root, with its four groups.
unfoldable pub document_element : Document → Element
unfolding decimal
document_element d =
    element (text "problem")
      ((text "name", d.name)
        ∷ (text "nrDays", text "7")
        ∷ (text "nrWeeks", text "60")
        ∷ (text "slotsPerDay", text "256")
        ∷ [])
      (children_of (
        group_element (text "rooms") (map listed_room d.rooms)
        ∷ group_element (text "classes") (map class_element d.classes)
        ∷ group_element (text "distributions") (map distribution_element d.distributions)
        ∷ group_element (text "limits") (map limit_element d.limits)
        ∷ []))
