-- ===== src/Compilation/Windows.antt =====
-- `_day_enabled`, `_day_bits` and `_slot_windows` of sidecar/stt_desktop/scheduling/service.py.
pub mod Adjacent
pub mod Rising
pub mod Runs
pub mod Days
use academic_affairs_system.Common.{
  ℕ, zero, suc, ◌+◌, ◌-◌, Bool, true, false, ◌&&◌, ◌||◌, List, [], ◌∷◌, ◌++◌, length, select, ltb,
  ◌==◌, if◌then◌else◌,
}
use academic_affairs_system.Common.Text.{Text, is_empty}
use academic_affairs_system.Common.Sort.{sort_by}
use academic_affairs_system.CpSat.Limits.{has_day, weekdays, numbers_from}
use academic_affairs_system.Compilation.Rows.{Slot}

-- The weekday counts from 1; a mask that does not reach it allows it.
abbrev pub day_enabled : Text → ℕ → Bool
day_enabled bits weekday =
    if is_empty bits || ltb (length bits) weekday then true else has_day bits weekday

abbrev pub day_bit : ℕ → ℕ → ℕ
day_bit weekday n = if n == weekday then 49 else 48

unfoldable pub day_bits_from : ℕ → List ℕ → Text
day_bits_from weekday [] = []
day_bits_from weekday (n ∷ ns) = day_bit weekday n ∷ day_bits_from weekday ns

-- `_day_bits(weekday)`, of seven days.
unfoldable pub day_bits : ℕ → Text
unfolding day_bits_from
day_bits weekday = day_bits_from weekday weekdays

abbrev pub take {ℓ} : {A : Type ℓ} → ℕ → List A → List A
take zero xs = []
take (suc n) [] = []
take (suc n) (x ∷ xs) = x ∷ take n xs

-- One slot directly follows the other.
abbrev pub follows : Slot → Slot → Bool
follows left right =
    right.period_index == left.period_index + 1
    && right.start_slot == left.start_slot + left.length_slots

-- `all(... for left, right in zip(window, window[1:]))`
unfoldable pub all_follow : List Slot → Bool
all_follow [] = true
all_follow (s ∷ []) = true
all_follow (s ∷ t ∷ rest) = follows s t && all_follow (t ∷ rest)

-- The slots of a window; its first slot is the option's.
abbrev pub Window : Type 0
Window = Slot × List Slot

abbrev pub is_window : ℕ → List Slot → Bool
is_window duration window = length window == duration && all_follow window

unfoldable pub windows_from : ℕ → List Slot → List Window
unfolding all_follow
windows_from duration [] = []
windows_from duration (s ∷ rest) =
    let later = windows_from duration rest in
    let window = take duration (s ∷ rest) in
    if is_window duration window then (s, window) ∷ later else later

abbrev pub period_lt : Slot → Slot → Bool
period_lt a b = ltb a.period_index b.period_index

abbrev pub day_slots : ℕ → List Slot → List Slot
day_slots weekday slots = sort_by period_lt (select (λ (s : Slot). s.weekday == weekday) slots)

unfoldable pub windows_on : ℕ → List Slot → List ℕ → List Window
unfolding windows_from
windows_on duration slots [] = []
windows_on duration slots (weekday ∷ rest) =
    windows_from duration (day_slots weekday slots) ++ windows_on duration slots rest

unfoldable pub slot_windows : List Slot → ℕ → List Window
unfolding windows_on
slot_windows slots duration = windows_on duration slots weekdays
