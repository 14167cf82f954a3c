-- ===== src/CpSat/Sources.antt =====
-- `HardConflictSource` and `_distribution_conflict_source` of
-- sidecar/stt_desktop/scheduler_engine/cp_sat.py: why two candidates exclude each other.
use academic_affairs_system.Common.{
  ℕ, Bool, ◌&&◌, List, [], ◌∷◌, ◌++◌, Option, none, some, any, if◌then◌else◌,
}
use academic_affairs_system.Common.Text.{Text, text, text_eq}
use academic_affairs_system.Common.Dict.{lookup, insert}
use academic_affairs_system.Cgcs.Model.{
  Distribution, DistributionType, not_overlap, same_room, different_time, different_days,
  different_weeks, same_days, same_start, same_time, precedence, consecutive,
  different_week_same_day_same_start, other,
}

pub record HardConflictSource : Type 0 where
  pub code : Text
  pub constraint_id : Text
  pub constraint_type : Text
  pub constraint_name : Text
  pub constraint_scope : Text
  pub room_id : Text

unfoldable pub source_eq : HardConflictSource → HardConflictSource → Bool
source_eq a b =
    text_eq a.code b.code
    && text_eq a.constraint_id b.constraint_id
    && text_eq a.constraint_type b.constraint_type
    && text_eq a.constraint_name b.constraint_name
    && text_eq a.constraint_scope b.constraint_scope
    && text_eq a.room_id b.room_id

-- `sources.setdefault(key, set()).add(source)`
abbrev sources_or_none : Option (List HardConflictSource) → List HardConflictSource
sources_or_none none = []
sources_or_none (some l) = l

unfoldable pub add_source :
    List ℕ
    → HardConflictSource
    → List (List ℕ × List HardConflictSource)
    → List (List ℕ × List HardConflictSource)
unfolding source_eq
add_source key source sources =
    let old = sources_or_none (lookup key sources) in
    insert key (if any (source_eq source) old then old else old ++ source ∷ []) sources

abbrev pub room_source : Text → HardConflictSource
room_source room_id = record {
  code = text "room_overlap";
  constraint_id = [];
  constraint_type = [];
  constraint_name = [];
  constraint_scope = [];
  room_id = room_id;
}

-- The strings of `distribution_type`.
unfoldable pub type_name : DistributionType → Text
type_name not_overlap = text "NotOverlap"
type_name same_room = text "SameRoom"
type_name different_time = text "DifferentTime"
type_name different_days = text "DifferentDays"
type_name different_weeks = text "DifferentWeeks"
type_name same_days = text "SameDays"
type_name same_start = text "SameStart"
type_name same_time = text "SameTime"
type_name precedence = text "Precedence"
type_name consecutive = text "Consecutive"
type_name different_week_same_day_same_start = text "DifferentWeekSameDaySameStart"
type_name (other t) = t

-- `type_codes.get(distribution_type, "hard_constraint")`
unfoldable pub type_code : DistributionType → Text
type_code not_overlap = text "not_overlap"
type_code same_room = text "same_room"
type_code different_time = text "different_time"
type_code different_days = text "different_days"
type_code different_weeks = text "different_weeks"
type_code same_days = text "same_days"
type_code same_start = text "same_start"
type_code same_time = text "same_time"
type_code precedence = text "precedence"
type_code consecutive = text "consecutive"
type_code different_week_same_day_same_start = text "different_week_same_day_same_start"
type_code (other t) = text "hard_constraint"

unfoldable pub conflict_code : Text → DistributionType → Text
unfolding type_code
conflict_code scope t =
    if text_eq scope (text "auto-homeroom")
    then text "homeroom_overlap"
    else if text_eq scope (text "auto-teacher")
    then text "teacher_overlap"
    else if text_eq scope (text "auto-room")
    then text "room_overlap"
    else type_code t

unfoldable pub distribution_conflict_source : Distribution → HardConflictSource
unfolding conflict_code type_name
distribution_conflict_source d = record {
  code = conflict_code d.scope d.distribution_type;
  constraint_id = d.distribution_id;
  constraint_type = type_name d.distribution_type;
  constraint_name = d.name;
  constraint_scope = d.scope;
  room_id = [];
}
