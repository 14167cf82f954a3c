-- ===== src/Cgcs/Model.antt =====
-- The dataclasses of sidecar/stt_desktop/scheduler_engine/cgcs.py. Numbers are naturals: the
-- columns they come from are checked to be so in storage/schema.py.
use academic_affairs_system.Common.{ℕ, Bool, true, false, Option, none, some, List, ◌&&◌, ◌==◌}
use academic_affairs_system.Common.{◌+◌}
use academic_affairs_system.Common.Text.{Text, text_eq, option_text_eq}

pub record TimeOption : Type 0 where
  pub days : Text
  pub weeks : Text
  pub start : ℕ
  pub span : ℕ
  pub penalty : ℕ
  pub period_index : Option ℕ

-- A time of a room, by days, weeks and start.
abbrev pub TimeKey : Type 0
TimeKey = Text × Text × ℕ

pub record RoomOption : Type 0 where
  pub room_id : Text
  pub penalty : ℕ
  pub unavailable_times : List TimeKey
  pub timed_penalties : List (TimeKey × ℕ)

pub record Room : Type 0 where
  pub room_id : Text
  pub name : Text

pub record ClassAgent : Type 0 where
  pub class_id : Text
  pub label : Text
  pub time_options : List TimeOption
  pub room_options : List RoomOption

pub record Action : Type 0 where
  pub class_id : Text
  pub time : TimeOption
  pub room_id : Option Text
  pub time_penalty : ℕ
  pub room_penalty : ℕ

abbrev pub base_penalty : Action → ℕ
base_penalty a = a.time_penalty + a.room_penalty

-- The values of `distribution_type`; `other` is any string that `_violates` does not know.
pub data DistributionType : Type 0 where
  not_overlap same_room different_time different_days different_weeks : DistributionType
  same_days same_start same_time precedence consecutive : DistributionType
  different_week_same_day_same_start : DistributionType
  other : Text → DistributionType

pub record Distribution : Type 0 where
  pub distribution_id : Text
  pub distribution_type : DistributionType
  pub required : Bool
  pub penalty : ℕ
  pub class_ids : List Text
  pub name : Text
  pub scope : Text

pub data LimitType : Type 0 where
  max_daily_lessons consecutive_limit : LimitType

pub record ResourceLimit : Type 0 where
  pub constraint_id : Text
  pub limit_type : LimitType
  pub required : Bool
  pub penalty : ℕ
  pub limit : ℕ
  pub class_ids : List Text
  pub name : Text
  pub scope : Text

pub record Problem : Type 0 where
  pub name : Text
  pub rooms : List Room
  pub agents : List ClassAgent
  pub distributions : List Distribution
  pub resource_limits : List ResourceLimit

-- `assignments: dict[str, Action]`
abbrev pub Assignments : Type 0
Assignments = List (Text × Action)

abbrev pub option_eq : Option ℕ → Option ℕ → Bool
option_eq none none = true
option_eq none (some b) = false
option_eq (some a) none = false
option_eq (some a) (some b) = a == b

-- `==` of two frozen dataclasses compares them field by field.
unfoldable pub time_eq : TimeOption → TimeOption → Bool
time_eq a b =
    text_eq a.days b.days
    && text_eq a.weeks b.weeks
    && a.start == b.start
    && a.span == b.span
    && a.penalty == b.penalty
    && option_eq a.period_index b.period_index

unfoldable pub action_eq : Action → Action → Bool
unfolding time_eq
action_eq a b =
    text_eq a.class_id b.class_id
    && time_eq a.time b.time
    && option_text_eq a.room_id b.room_id
    && a.time_penalty == b.time_penalty
    && a.room_penalty == b.room_penalty
