-- ===== src/Compilation/Windows/Days.antt =====
-- The mask of a weekday.
use academic_affairs_system.Common.{ℕ, ◌≡◌, Elem, arith, ◌==◌}
use academic_affairs_system.CpSat.Limits.{has_day, weekdays}
use academic_affairs_system.Compilation.Windows.{day_bits_from, day_bits}

-- The bits of the weekday and of no other day are set.
pub has_day-day_bits :
    (weekday day : ℕ) → Elem day weekdays → has_day (day_bits weekday) day ≡ (day == weekday)
unfolding day_bits day_bits_from
has_day-day_bits weekday day m = ground (arith, m)
