-- ===== src/Cgcs/Times.antt =====
-- `_overlaps`, `_shares_week`, `_shares_day` and `_shares_bit` of
-- sidecar/stt_desktop/scheduler_engine/cgcs.py.
pub mod Overlap
use academic_affairs_system.Common.{
  ℕ, ◌+◌, Bool, true, false, ◌&&◌, ◌||◌, List, [], ◌∷◌, ltb, ◌==◌, if◌then◌else◌,
}
use academic_affairs_system.Common.Text.{Text, is_empty}
use academic_affairs_system.Cgcs.Model.{TimeOption}

-- `any(left_bit == "1" and right_bit == "1" for left_bit, right_bit in zip(left, right))`
unfoldable pub any_common_bit : Text → Text → Bool
any_common_bit [] right = false
any_common_bit (l ∷ left) [] = false
any_common_bit (l ∷ left) (r ∷ right) = (l == b'1' && r == b'1') || any_common_bit left right

-- A mask that is missing stands for every day or week.
unfoldable pub shares_bit : Text → Text → Bool
shares_bit left right = if is_empty left || is_empty right then true else any_common_bit left right

unfoldable pub shares_week : TimeOption → TimeOption → Bool
shares_week left right = shares_bit left.weeks right.weeks

unfoldable pub shares_day : TimeOption → TimeOption → Bool
shares_day left right = shares_bit left.days right.days

unfoldable pub overlaps : TimeOption → TimeOption → Bool
unfolding shares_week shares_day
overlaps left right =
    shares_week left right
    && shares_day left right
    && ltb left.start (right.start + right.span)
    && ltb right.start (left.start + left.span)
