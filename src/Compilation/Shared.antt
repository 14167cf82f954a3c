-- ===== src/Compilation/Shared.antt =====
-- Times that take one slot of a schedule overlap for the scheduler.
use academic_affairs_system.Common.{
  ℕ, ◌+◌, ◌≤◌, ◌<◌, ◌≡◌, refl, sym, ap, ◌∙◌, subst, inl, inr, true, List, [], ◌∷◌, arith, Elem,
  Elem-select, length, select,
}
use academic_affairs_system.Common.Text.{text_eq}
use academic_affairs_system.Cgcs.Times.{
  any_common_bit, shares_bit, shares_week, shares_day, overlaps,
}
use academic_affairs_system.CpSat.Limits.{weekdays}
use academic_affairs_system.Compilation.Rows.{Task, Lesson, Schedule, Slot, Snapshot}
use academic_affairs_system.Compilation.Windows.{day_bits_from, day_bits}
use academic_affairs_system.Compilation.Windows.Adjacent.{Adjoining}
use academic_affairs_system.Compilation.Options.{Emitted}
use academic_affairs_system.Compilation.Readback.{time_option}
use academic_affairs_system.Compilation.Times.{slots_of-select, IsTime, duration}

-- A slot of a run of unit slots starts within the run.
within_run :
    (s : Slot) (rest : List Slot) (x : Slot)
    → Adjoining (s ∷ rest)
    → ((y : Slot) → Elem y (s ∷ rest) → y.length_slots ≡ 1)
    → Elem x (s ∷ rest)
    → (s.start_slot ≤ x.start_slot) × (x.start_slot < s.start_slot + length (s ∷ rest))
within_run s rest x a u (inl e) =
    let same = ap (λ (y : Slot). y.start_slot) e in (omega (arith, same), omega (arith, same))
within_run s [] x a u (inr m) = absurd m
within_run s (t ∷ rest) x a u (inr m) =
    let (low, high) = within_run t rest x a.2 (λ y n. u y (inr n)) m in
    (omega (arith, low, a.1, u s (inl refl)), omega (arith, high, a.1, u s (inl refl)))

shares_bit-day_bits : (w : ℕ) → Elem w weekdays → shares_bit (day_bits w) (day_bits w) ≡ true
unfolding shares_bit any_common_bit day_bits day_bits_from
shares_bit-day_bits w m = ground arith

module _ (s : Snapshot) (schedule : Schedule) where
  starts_within :
      (task : Task) (lesson : Lesson) (t : Emitted) (h : IsTime s schedule task lesson t) (x : Slot)
      → ((y : Slot) → Elem y s.slots → y.length_slots ≡ 1)
      → Elem x h.window
      → (h.first.start_slot ≤ x.start_slot)
        × (x.start_slot < h.first.start_slot + duration s schedule task lesson)
  starts_within task lesson t h x u m =
      let (rest, e) = h.run.begins in
      let (low, high) =
        within_run h.first rest x (subst Adjoining e h.run.adjoins)
          (λ y n. u y (in_table y (subst (Elem y) (sym e) n))) (subst (Elem x) e m) in
      (low, omega (arith, high, h.run.size, ap length e))
    where
      in_table : (y : Slot) → Elem y h.window → Elem y s.slots
      in_table y n =
          (Elem-select (λ (z : Slot). z.active) y s.slots
            (Elem-select (λ (z : Slot). text_eq z.bell_schedule_id schedule.id) y
              (select (λ (z : Slot). z.active) s.slots)
              (subst (Elem y) (slots_of-select s.slots schedule.id) (h.run.within y n).0)).0).0

  -- If every slot of the project takes one unit of the grid, and the windows of two times that are
  -- offered on one schedule have a slot in common, then the scheduler takes the times to overlap,
  -- provided that their weeks do.
  pub shared_slot-overlaps :
      (task other_task : Task) (lesson other : Lesson) (t u : Emitted)
      (h : IsTime s schedule task lesson t) (g : IsTime s schedule other_task other u) (x : Slot)
      → ((y : Slot) → Elem y s.slots → y.length_slots ≡ 1)
      → Elem x h.window
      → Elem x g.window
      → shares_bit t.weeks u.weeks ≡ true
      → overlaps (time_option t) (time_option u) ≡ true
  unfolding overlaps shares_week shares_day
  shared_slot-overlaps task other_task lesson other t u h g x unit m n weeks =
      let (low, high) = starts_within task lesson t h x unit m in
      let (low', high') = starts_within other_task other u g x unit n in
      ground (
        arith,
        weeks,
        days,
        ap (λ (z : Emitted). z.start) h.written,
        ap (λ (z : Emitted). z.length) h.written,
        ap (λ (z : Emitted). z.start) g.written,
        ap (λ (z : Emitted). z.length) g.written,
        low,
        high,
        low',
        high',
      )
    where
      same_day : h.first.weekday ≡ g.first.weekday
      same_day = sym (h.run.within x m).1 ∙ (g.run.within x n).1

      days : shares_bit t.days u.days ≡ true
      days =
          subst (λ z. shares_bit z u.days ≡ true) (sym (ap (λ (z : Emitted). z.days) h.written))
            (subst (λ z. shares_bit (day_bits h.first.weekday) z ≡ true)
              (sym (ap (λ (z : Emitted). z.days) g.written))
              (subst (λ z. shares_bit (day_bits h.first.weekday) (day_bits z) ≡ true) same_day
                (shares_bit-day_bits h.first.weekday h.run.weekday)))
