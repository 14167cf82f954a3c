-- ===== src/Compilation/Windows/Rising.antt =====
-- The sorted slots of a day rise strictly where no two slots share a weekday and a period.
use academic_affairs_system.Common.{
  ℕ, ◌<◌, ◌≡◌, ◌≢◌, sym, ◌∙◌, inl, inr, Bool, true, false, List, [], ◌∷◌, arith, Elem, Elem-select,
  Bool-cases, select, ◌==◌, subst,
}
use academic_affairs_system.Common.Sort.{insert_by, sort_by, Elem-insert_by, Elem-sort_by}
use academic_affairs_system.Compilation.Rows.{Slot}
use academic_affairs_system.Compilation.Windows.{period_lt, day_slots}

-- No two of the slots have one weekday and one period, as the table's key demands.
abbrev pub UniquePeriods : List Slot → Type 0
UniquePeriods [] = Unit
UniquePeriods (s ∷ rest) =
    ((t : Slot) → Elem t rest → t.weekday ≡ s.weekday → t.period_index ≢ s.period_index)
    × UniquePeriods rest

abbrev pub IsRising : List Slot → Type 0
IsRising [] = Unit
IsRising (s ∷ rest) = ((t : Slot) → Elem t rest → s.period_index < t.period_index) × IsRising rest

abbrev DistinctPeriods : List Slot → Type 0
DistinctPeriods [] = Unit
DistinctPeriods (s ∷ rest) =
    ((t : Slot) → Elem t rest → t.period_index ≢ s.period_index) × DistinctPeriods rest

insert_by-IsRising :
    (s : Slot) (ts : List Slot)
    → ((t : Slot) → Elem t ts → t.period_index ≢ s.period_index)
    → IsRising ts
    → IsRising (insert_by period_lt s ts)
insert_by-IsRising s [] d r = ((λ t m. absurd m), tt)
insert_by-IsRising s (t ∷ ts) d r = elim (Bool-cases (period_lt t s)) [
  | inl e ↦ rw e (below e, insert_by-IsRising s ts (λ u m. d u (inr m)) r.1)
  | inr e ↦ rw e (above e, r)
]
  where
    below :
        period_lt t s ≡ true
        → (u : Slot) → Elem u (insert_by period_lt s ts)
        → t.period_index < u.period_index
    below e u m = elim (Elem-insert_by period_lt s u ts m) [
      | inl u_is_s ↦
          subst (λ (w : Slot). t.period_index < w.period_index) (sym u_is_s) (ground arith)
      | inr m' ↦ r.0 u m'
    ]

    above : period_lt t s ≡ false → (u : Slot) → Elem u (t ∷ ts) → s.period_index < u.period_index
    above e u (inl u_is_t) =
        subst (λ (w : Slot). s.period_index < w.period_index) (sym u_is_t)
          (ground (arith, d t (inl (λ i. t))))
    above e u (inr m) = ground (arith, d t (inl (λ i. t)), r.0 u m)

sort_by-IsRising : (ts : List Slot) → DistinctPeriods ts → IsRising (sort_by period_lt ts)
sort_by-IsRising [] d = tt
sort_by-IsRising (t ∷ ts) d =
    insert_by-IsRising t (sort_by period_lt ts) (λ u m. d.0 u (Elem-sort_by period_lt u ts m))
      (sort_by-IsRising ts d.1)

module _ (weekday : ℕ) where
  abbrev pub on_day : Slot → Bool
  on_day s = s.weekday == weekday

  pub weekday-of_day : (t : Slot) (ts : List Slot) → Elem t (select on_day ts) → t.weekday ≡ weekday
  weekday-of_day t ts m = ground (arith, Elem-select on_day t ts m)

  select-DistinctPeriods : (ts : List Slot) → UniquePeriods ts → DistinctPeriods (select on_day ts)
  select-DistinctPeriods [] u = tt
  select-DistinctPeriods (t ∷ ts) u = elim (Bool-cases (on_day t)) [
    | inl e ↦ rw e (apart e, select-DistinctPeriods ts u.1)
    | inr e ↦ rw e (select-DistinctPeriods ts u.1)
  ]
    where
      apart :
          on_day t ≡ true → (v : Slot) → Elem v (select on_day ts) → v.period_index ≢ t.period_index
      apart e v m = u.0 v (Elem-select on_day v ts m).0 (weekday-of_day v ts m ∙ ground arith)

  pub day_slots-IsRising : (ts : List Slot) → UniquePeriods ts → IsRising (day_slots weekday ts)
  day_slots-IsRising ts u = sort_by-IsRising (select on_day ts) (select-DistinctPeriods ts u)
