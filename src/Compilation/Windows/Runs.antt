-- ===== src/Compilation/Windows/Runs.antt =====
-- `_slot_windows` finds exactly the runs of adjacent periods.
use academic_affairs_system.Common.{
  ℕ, zero, suc, ◌+◌, ◌<◌, ◌≡◌, ◌↔◌, refl, sym, ap, ◌∙◌, inl, inr, true, List, [], ◌∷◌, arith, Elem,
  Elem-select, select_keeps, Elem-append, Elem-append_left, Elem-append_right, Bool-cases, length,
  select, subst,
}
use academic_affairs_system.Common.Sort.{Elem-sort_by, sort_by_keeps}
use academic_affairs_system.CpSat.Limits.{weekdays}
use academic_affairs_system.Compilation.Rows.{Slot}
use academic_affairs_system.Compilation.Windows.{
  take, is_window, windows_from, period_lt, day_slots, windows_on, slot_windows,
}
use academic_affairs_system.Compilation.Windows.Adjacent.{
  Adjoining, Adjoining-of_all_follow, all_follow-of_Adjoining, Adjoining-later, Elem-take,
}
use academic_affairs_system.Compilation.Windows.Rising.{
  UniquePeriods, IsRising, weekday-of_day, day_slots-IsRising, on_day,
}

-- A run of that many adjoining slots of the list.
pub record IsRun (ts : List Slot) (duration : ℕ) (s : Slot) (w : List Slot) : Type 0 where
  pub begins : (rest : List Slot) × (w ≡ s ∷ rest)
  pub size : length w ≡ duration
  pub adjoins : Adjoining w
  pub within : (x : Slot) → Elem x w → Elem x ts

module _ (d : ℕ) where
  IsRun-of_windows :
      (ts : List Slot) (s : Slot) (w : List Slot)
      → 0 < d
      → Elem (s, w) (windows_from d ts)
      → IsRun ts d s w
  unfolding windows_from
  IsRun-of_windows [] s w p m = absurd m
  IsRun-of_windows (t ∷ ts) s w p m = elim (Bool-cases (is_window d (take d (t ∷ ts)))) [
    | inl e ↦ elim (rw e at m) [
      | inl same ↦ here e (ap (λ q. q.0) same) (ap (λ q. q.1) same)
      | inr later ↦ further (IsRun-of_windows ts s w p later)
    ]
    | inr e ↦ further (IsRun-of_windows ts s w p (rw e at m))
  ]
    where
      further : IsRun ts d s w → IsRun (t ∷ ts) d s w
      further r = record {
        begins = r.begins;
        size = r.size;
        adjoins = r.adjoins;
        within = λ x i. inr (r.within x i);
      }

      starts : (n : ℕ) → 0 < n → (rest : List Slot) × (take n (t ∷ ts) ≡ t ∷ rest)
      starts zero q = absurd (omega (arith, q))
      starts (suc n) q = (take n ts, refl)

      run_here : is_window d (take d (t ∷ ts)) ≡ true → IsRun (t ∷ ts) d t (take d (t ∷ ts))
      run_here e = record {
        begins = starts d p;
        size = ground arith;
        adjoins = Adjoining-of_all_follow (take d (t ∷ ts)) (ground arith);
        within = λ x i. Elem-take d (t ∷ ts) x i;
      }

      here :
          is_window d (take d (t ∷ ts)) ≡ true → s ≡ t → w ≡ take d (t ∷ ts) → IsRun (t ∷ ts) d s w
      here e a b =
          subst (λ z. IsRun (t ∷ ts) d z w) (sym a)
            (subst (λ z. IsRun (t ∷ ts) d t z) (sym b) (run_here e))

-- In a rising list the slot of the next period is the next slot.
next_slot :
    (s u : Slot) (ts : List Slot)
    → IsRising (s ∷ ts)
    → u.period_index ≡ s.period_index + 1
    → Elem u ts
    → (vs : List Slot) × (ts ≡ u ∷ vs)
next_slot s u [] r q m = absurd m
next_slot s u (v ∷ vs) r q (inl e) = (vs, ap (λ z. z ∷ vs) (sym e))
next_slot s u (v ∷ vs) r q (inr m) = absurd (omega (arith, r.0 v (inl refl), r.1.0 u m, q))

-- What comes later in a run from the head stands in the rest.
run_in_tail :
    (s x : Slot) (rest ts : List Slot)
    → Adjoining (s ∷ rest)
    → Elem x rest
    → Elem x (s ∷ ts)
    → Elem x ts
run_in_tail s x rest ts a m (inr n) = n
run_in_tail s x rest ts a m (inl e) =
    absurd (omega (arith, Adjoining-later s rest x a m, ap (λ (y : Slot). y.period_index) e))

-- In a rising list a run that starts at the head is the front of the list.
take_run :
    (s : Slot) (rest ts : List Slot)
    → IsRising (s ∷ ts)
    → Adjoining (s ∷ rest)
    → ((x : Slot) → Elem x rest → Elem x (s ∷ ts))
    → take (length (s ∷ rest)) (s ∷ ts) ≡ s ∷ rest
take_run s [] ts r a i = refl
take_run s (u ∷ rest) ts r a i =
    let (vs, e) =
      next_slot s u ts r a.0 (run_in_tail s u (u ∷ rest) ts a (inl refl) (i u (inl refl))) in
    ap (λ z. s ∷ z)
      (ap (take (length (u ∷ rest))) e
        ∙ take_run u rest vs (subst IsRising e r.1) a.2
            (λ x m. subst (Elem x) e (run_in_tail s x (u ∷ rest) ts a (inr m) (i x (inr m)))))

module _ (d : ℕ) where
  windows-of_IsRun :
      (ts : List Slot) (s : Slot) (rest : List Slot)
      → IsRising ts
      → length (s ∷ rest) ≡ d
      → Adjoining (s ∷ rest)
      → ((x : Slot) → Elem x (s ∷ rest) → Elem x ts)
      → Elem (s, s ∷ rest) (windows_from d ts)
  unfolding windows_from
  windows-of_IsRun [] s rest r n a i = absurd (i s (inl refl))
  windows-of_IsRun (t ∷ ts) s rest r n a i = elim (i s (inl refl)) [
    | inl e ↦ subst (λ z. Elem (s, s ∷ rest) (windows_from d (z ∷ ts))) e (front e)
    | inr m ↦ behind (windows-of_IsRun ts s rest r.1 n a (in_rest m))
  ]
    where
      front : s ≡ t → Elem (s, s ∷ rest) (windows_from d (s ∷ ts))
      front e =
          let taken =
            take_run s rest ts (subst (λ z. IsRising (z ∷ ts)) (sym e) r) a
              (λ x m. subst (λ z. Elem x (z ∷ ts)) (sym e) (i x (inr m))) in
          let same = subst (λ k. take k (s ∷ ts) ≡ s ∷ rest) n taken in
          let good : is_window d (s ∷ rest) ≡ true =
            ground (arith, all_follow-of_Adjoining (s ∷ rest) a) in
          rw (same, good) (inl refl)

      in_rest : Elem s ts → (x : Slot) → Elem x (s ∷ rest) → Elem x ts
      in_rest m x (inl e) = subst (λ z. Elem z ts) (sym e) m
      in_rest m x (inr k) = elim (i x (inr k)) [
        | inl e ↦ absurd (
            omega
              (arith, Adjoining-later s rest x a k, ap (λ (y : Slot). y.period_index) e, r.0 s m))
        | inr q ↦ q
      ]

      behind : Elem (s, s ∷ rest) (windows_from d ts) → Elem (s, s ∷ rest) (windows_from d (t ∷ ts))
      behind m = elim (Bool-cases (is_window d (take d (t ∷ ts)))) [
        | inl e ↦ rw e (inr m)
        | inr e ↦ rw e m
      ]

-- A window over the week: its slots are slots of one of the seven days.
pub record IsWeekRun (ts : List Slot) (d : ℕ) (s : Slot) (w : List Slot) : Type 0 where
  pub weekday : Elem s.weekday weekdays
  pub begins : (rest : List Slot) × (w ≡ s ∷ rest)
  pub size : length w ≡ d
  pub adjoins : Adjoining w
  pub within : (x : Slot) → Elem x w → Elem x ts × (x.weekday ≡ s.weekday)

module _ (ts : List Slot) (d : ℕ) (s : Slot) (w : List Slot) where
  on_weekday :
      (weekday : ℕ)
      → 0 < d
      → Elem weekday weekdays
      → Elem (s, w) (windows_from d (day_slots weekday ts))
      → IsWeekRun ts d s w
  on_weekday weekday p j m = record {
    weekday = subst (λ k. Elem k weekdays) (sym (day_of s first)) j;
    begins = run.begins;
    size = run.size;
    adjoins = run.adjoins;
    within = λ x i. (in_table x i, day_of x i ∙ sym (day_of s first));
  }
    where
      run : IsRun (day_slots weekday ts) d s w
      run = IsRun-of_windows d (day_slots weekday ts) s w p m

      first : Elem s w
      first = subst (Elem s) (sym run.begins.1) (inl refl)

      selected : (x : Slot) → Elem x w → Elem x (select (on_day weekday) ts)
      selected x i = Elem-sort_by period_lt x (select (on_day weekday) ts) (run.within x i)

      day_of : (x : Slot) → Elem x w → x.weekday ≡ weekday
      day_of x i = weekday-of_day weekday x ts (selected x i)

      in_table : (x : Slot) → Elem x w → Elem x ts
      in_table x i = (Elem-select (on_day weekday) x ts (selected x i)).0

  on_some_weekday :
      (days : List ℕ)
      → Elem (s, w) (windows_on d ts days)
      → (weekday : ℕ) × Elem weekday days × Elem (s, w) (windows_from d (day_slots weekday ts))
  unfolding windows_on
  on_some_weekday [] m = absurd m
  on_some_weekday (n ∷ ns) m =
      elim (Elem-append (s, w) (windows_from d (day_slots n ts)) (windows_on d ts ns) m) [
        | inl a ↦ (n, inl refl, a)
        | inr b ↦ let (k, i, e) = on_some_weekday ns b in (k, inr i, e)
      ]

  on_weekday_of :
      (days : List ℕ) (weekday : ℕ)
      → Elem weekday days
      → Elem (s, w) (windows_from d (day_slots weekday ts))
      → Elem (s, w) (windows_on d ts days)
  unfolding windows_on
  on_weekday_of [] k i m = absurd i
  on_weekday_of (n ∷ ns) k (inl e) m =
      Elem-append_left (s, w) (windows_from d (day_slots n ts)) (windows_on d ts ns)
        (subst (λ z. Elem (s, w) (windows_from d (day_slots z ts))) e m)
  on_weekday_of (n ∷ ns) k (inr i) m =
      Elem-append_right (s, w) (windows_from d (day_slots n ts)) (windows_on d ts ns)
        (on_weekday_of ns k i m)

-- Where no two slots share a weekday and a period, and for a duration of at least one, the windows
-- of the slots are exactly the runs of that many slots of one of the seven days in which each slot is
-- the period after the one before it and starts where that one ends; the slot of the window is its
-- first.
pub slot_windows_iff :
    (ts : List Slot) (d : ℕ) (s : Slot) (w : List Slot)
    → UniquePeriods ts
    → 0 < d
    → Elem (s, w) (slot_windows ts d) ↔ IsWeekRun ts d s w
unfolding slot_windows
slot_windows_iff ts d s w u p = (found, complete)
  where
    found : Elem (s, w) (windows_on d ts weekdays) → IsWeekRun ts d s w
    found m = let (k, i, e) = on_some_weekday ts d s w weekdays m in on_weekday ts d s w k p i e

    on_the_day : (r : IsWeekRun ts d s w) (x : Slot) → Elem x w → Elem x (day_slots s.weekday ts)
    on_the_day r x i =
        sort_by_keeps period_lt x (select (on_day s.weekday) ts)
          (select_keeps (on_day s.weekday) x ts (r.within x i).0 (ground (arith, (r.within x i).1)))

    complete : IsWeekRun ts d s w → Elem (s, w) (windows_on d ts weekdays)
    complete r =
        let (rest, e) = r.begins in
        on_weekday_of ts d s w weekdays s.weekday r.weekday (
          subst (λ z. Elem (s, z) (windows_from d (day_slots s.weekday ts))) (sym e)
            (windows-of_IsRun d (day_slots s.weekday ts) s rest (day_slots-IsRising s.weekday ts u)
              (ap length (sym e) ∙ r.size) (subst Adjoining e r.adjoins)
              (λ x i. on_the_day r x (subst (Elem x) (sym e) i))))
