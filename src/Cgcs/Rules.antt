-- ===== src/Cgcs/Rules.antt =====
-- `_violates`, `_violates_precedence` and `_violates_consecutive` of
-- sidecar/stt_desktop/scheduler_engine/cgcs.py.
pub mod Symmetry
use academic_affairs_system.Common.{
  ℕ, suc, ◌+◌, ◌-◌, Bool, true, false, not, ◌&&◌, ◌||◌, List, [], ◌∷◌, Option, none, some, ltb,
  ◌==◌, if◌then◌else◌,
}
use academic_affairs_system.Common.Text.{Text, text_eq, option_text_eq}
use academic_affairs_system.Cgcs.Model.{
  TimeOption, Action, Distribution, DistributionType, not_overlap, same_room, different_time,
  different_days, different_weeks, same_days, same_start, same_time, precedence, consecutive,
  different_week_same_day_same_start, other,
}
use academic_affairs_system.Cgcs.Times.{overlaps, shares_week, shares_day}

-- `class_ids.index(x)`. Python raises ValueError for a string that is not in the list; here it is
-- the list's length. The callers take their ids from the list or test that they are in it.
unfoldable pub index : Text → List Text → ℕ
index x [] = 0
index x (y ∷ ys) = if text_eq y x then 0 else suc (index x ys)

unfoldable pub violates_precedence : Distribution → Action → Action → Bool
violates_precedence d left right =
    let left_index = index left.class_id d.class_ids in
    let right_index = index right.class_id d.class_ids in
    if left_index == right_index
      || not (shares_week left.time right.time)
      || not (shares_day left.time right.time)
    then false
    else if ltb left_index right_index
    then ltb right.time.start (left.time.start + left.time.span)
    else ltb left.time.start (right.time.start + right.time.span)

-- The last disjunct of `_violates_consecutive`, on the optional period indices.
abbrev pub gap : Option ℕ → Option ℕ → TimeOption → TimeOption → Bool
gap (some p) (some q) earlier later = not (q == p + 1)
gap (some p) none earlier later = not (earlier.start + earlier.span == later.start)
gap none q earlier later = not (earlier.start + earlier.span == later.start)

unfoldable pub not_adjacent : TimeOption → TimeOption → Bool
not_adjacent earlier later =
    not (text_eq earlier.weeks later.weeks)
    || not (text_eq earlier.days later.days)
    || gap earlier.period_index later.period_index earlier later

unfoldable pub violates_consecutive : Distribution → Action → Action → Bool
violates_consecutive d left right =
    let left_index = index left.class_id d.class_ids in
    let right_index = index right.class_id d.class_ids in
    if not ((left_index - right_index) + (right_index - left_index) == 1)
    then false
    else if ltb left_index right_index
    then not_adjacent left.time right.time
    else not_adjacent right.time left.time

-- The tests of `_violates`, by the distribution's type.
unfoldable pub violates_type : DistributionType → Distribution → Action → Action → Bool
violates_type not_overlap d left right = overlaps left.time right.time
violates_type same_room d left right = not (option_text_eq left.room_id right.room_id)
violates_type different_time d left right =
    shares_week left.time right.time
    && shares_day left.time right.time
    && left.time.start == right.time.start
violates_type different_days d left right =
    shares_week left.time right.time && shares_day left.time right.time
violates_type different_weeks d left right = shares_week left.time right.time
violates_type same_days d left right = not (text_eq left.time.days right.time.days)
violates_type same_start d left right = not (left.time.start == right.time.start)
violates_type same_time d left right =
    not (text_eq left.time.days right.time.days)
    || not (text_eq left.time.weeks right.time.weeks)
    || not (left.time.start == right.time.start)
    || not (left.time.span == right.time.span)
violates_type precedence d left right = violates_precedence d left right
violates_type consecutive d left right = violates_consecutive d left right
violates_type different_week_same_day_same_start d left right =
    shares_week left.time right.time
    || not (text_eq left.time.days right.time.days)
    || not (left.time.start == right.time.start)
violates_type (other t) d left right = false

unfoldable pub violates : Distribution → Action → Action → Bool
violates d left right = violates_type d.distribution_type d left right
