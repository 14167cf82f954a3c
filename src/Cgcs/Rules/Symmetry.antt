-- ===== src/Cgcs/Rules/Symmetry.antt =====
-- `_violates` does not depend on the order of its two actions.
use academic_affairs_system.Common.{◌≡◌, refl, ap, not, arith}
use academic_affairs_system.Common.Text.{text_eq_comm, option_text_eq_comm}
use academic_affairs_system.Cgcs.Model.{
  Action, Distribution, DistributionType, not_overlap, same_room, different_time, different_days,
  different_weeks, same_days, same_start, same_time, precedence, consecutive,
  different_week_same_day_same_start, other,
}
use academic_affairs_system.Cgcs.Times.Overlap.{overlaps_comm, shares_week_comm, shares_day_comm}
use academic_affairs_system.Cgcs.Rules.{
  violates, violates_type, violates_precedence, violates_consecutive,
}

violates_precedence_comm :
    (d : Distribution) (l r : Action) → violates_precedence d l r ≡ violates_precedence d r l
unfolding violates_precedence
violates_precedence_comm d l r =
    ground (arith, shares_week_comm l.time r.time, shares_day_comm l.time r.time)

violates_consecutive_comm :
    (d : Distribution) (l r : Action) → violates_consecutive d l r ≡ violates_consecutive d r l
unfolding violates_consecutive
violates_consecutive_comm d l r = ground arith

violates_type_comm :
    (t : DistributionType) (d : Distribution) (l r : Action)
    → violates_type t d l r ≡ violates_type t d r l
unfolding violates_type
violates_type_comm not_overlap d l r = overlaps_comm l.time r.time
violates_type_comm same_room d l r = ap not (option_text_eq_comm l.room_id r.room_id)
violates_type_comm different_time d l r =
    ground (arith, shares_week_comm l.time r.time, shares_day_comm l.time r.time)
violates_type_comm different_days d l r =
    ground (arith, shares_week_comm l.time r.time, shares_day_comm l.time r.time)
violates_type_comm different_weeks d l r = shares_week_comm l.time r.time
violates_type_comm same_days d l r = ap not (text_eq_comm l.time.days r.time.days)
violates_type_comm same_start d l r = ground arith
violates_type_comm same_time d l r =
    ground (arith, text_eq_comm l.time.days r.time.days, text_eq_comm l.time.weeks r.time.weeks)
violates_type_comm precedence d l r = violates_precedence_comm d l r
violates_type_comm consecutive d l r = violates_consecutive_comm d l r
violates_type_comm different_week_same_day_same_start d l r =
    ground (arith, shares_week_comm l.time r.time, text_eq_comm l.time.days r.time.days)
violates_type_comm (other t) d l r = refl

-- Whether two actions break a distribution does not depend on which of them is named first, for
-- every type of distribution, the ordered ones (Precedence, Consecutive) included.
pub violates_comm : (d : Distribution) (l r : Action) → violates d l r ≡ violates d r l
unfolding violates
violates_comm d l r = violates_type_comm d.distribution_type d l r
