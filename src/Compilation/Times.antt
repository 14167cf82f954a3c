-- ===== src/Compilation/Times.antt =====
-- The times that `_build_problem` of sidecar/stt_desktop/scheduling/service.py offers to a lesson.
use academic_affairs_system.Common.{
  ℕ, ◌<◌, ◌≡◌, ◌≢◌, ◌↔◌, refl, sym, ap, ◌∙◌, subst, inl, inr, Bool, true, false, List, [], ◌∷◌,
  ◌++◌, some, arith, Elem, Elem-select, select_keeps, select, map, Bool-cases, if◌then◌else◌,
}
use mathlib.Core.List.{append_assoc, append-nil}
use academic_affairs_system.Common.Text.{Text, text, text_eq, text_eq_iff}
use academic_affairs_system.Common.Dict.{lookup}
use academic_affairs_system.Common.Groups.{add_to, group_from}
use academic_affairs_system.Compilation.Rows.{
  Task, Lesson, Schedule, Slot, Rule, Snapshot, or_bits, or_number,
}
use academic_affairs_system.Compilation.Windows.{Window, slot_windows}
use academic_affairs_system.Compilation.Windows.Rising.{UniquePeriods}
use academic_affairs_system.Compilation.Windows.Runs.{IsWeekRun, slot_windows_iff}
use academic_affairs_system.Compilation.Schedules.{or_nothing, slots_by_schedule, slots_of}
use academic_affairs_system.Compilation.Options.{
  applicable_rules, Preference, prefers, weeks_of, is_offered, Emitted, emit, emitted_times,
}
use academic_affairs_system.Compilation.Options.Permitted.{IsPermitted, is_offered_iff}
use academic_affairs_system.Compilation.Build.{inputs_of}
use academic_affairs_system.Compilation.Classes.{lesson_times}

-- No two slots have one schedule, one weekday and one period.
abbrev pub UniqueSlots : List Slot → Type 0
UniqueSlots [] = Unit
UniqueSlots (s ∷ rest) =
    ((t : Slot)
      → Elem t rest
      → t.bell_schedule_id ≡ s.bell_schedule_id
      → t.weekday ≡ s.weekday
      → t.period_index ≢ s.period_index)
    × UniqueSlots rest

module _ {A : Type 0} (key : A → Text) (k : Text) where
  add_to-lookup :
      (x : A) (g : List (Text × List A))
      → or_nothing (lookup k (add_to text_eq (key x) x g))
        ≡ or_nothing (lookup k g) ++ (if text_eq (key x) k then x ∷ [] else [])
  add_to-lookup x [] = elim (Bool-cases (text_eq (key x) k)) [
    | inl e ↦ rw e refl
    | inr e ↦ rw e refl
  ]
  add_to-lookup x ((j, ys) ∷ g) = elim (Bool-cases (text_eq j (key x))) [
    | inl e ↦ elim (Bool-cases (text_eq j k)) [
      | inl f ↦ rw (e, f, same e f) refl
      | inr f ↦ rw (e, f, other e f) (sym (append-nil (or_nothing (lookup k g))))
    ]
    | inr e ↦ elim (Bool-cases (text_eq j k)) [
      | inl f ↦ rw (e, f, apart e f) (sym (append-nil ys))
      | inr f ↦ rw (e, f) (add_to-lookup x g)
    ]
  ]
    where
      same : text_eq j (key x) ≡ true → text_eq j k ≡ true → text_eq (key x) k ≡ true
      same e f = ground (arith, text_eq_iff j (key x), text_eq_iff j k, text_eq_iff (key x) k)

      other : text_eq j (key x) ≡ true → text_eq j k ≡ false → text_eq (key x) k ≡ false
      other e f = ground (arith, text_eq_iff j (key x), text_eq_iff j k, text_eq_iff (key x) k)

      apart : text_eq j (key x) ≡ false → text_eq j k ≡ true → text_eq (key x) k ≡ false
      apart e f = ground (arith, text_eq_iff j (key x), text_eq_iff j k, text_eq_iff (key x) k)

  -- A group holds the elements with its key, in their order.
  pub group_from-lookup :
      (xs : List A) (g : List (Text × List A))
      → or_nothing (lookup k (group_from text_eq key xs g))
        ≡ or_nothing (lookup k g) ++ select (λ x. text_eq (key x) k) xs
  unfolding group_from
  group_from-lookup [] g = sym (append-nil (or_nothing (lookup k g)))
  group_from-lookup (x ∷ xs) g = elim (Bool-cases (text_eq (key x) k)) [
    | inl e ↦
        group_from-lookup xs (add_to text_eq (key x) x g)
        ∙ rw (add_to-lookup x g, e)
            (append_assoc (or_nothing (lookup k g)) (x ∷ []) (select (λ z. text_eq (key z) k) xs))
    | inr e ↦
        group_from-lookup xs (add_to text_eq (key x) x g)
        ∙ rw (add_to-lookup x g, e)
            (ap (λ z. z ++ select (λ z. text_eq (key z) k) xs)
              (append-nil (or_nothing (lookup k g))))
  ]

-- The slots of a schedule are its active rows.
pub slots_of-select :
    (ts : List Slot) (id : Text)
    → slots_of (slots_by_schedule ts) id
      ≡ select (λ (t : Slot). text_eq t.bell_schedule_id id) (select (λ (t : Slot). t.active) ts)
unfolding slots_by_schedule
slots_of-select ts id =
    group_from-lookup (λ (t : Slot). t.bell_schedule_id) id (select (λ (t : Slot). t.active) ts) []

UniqueSlots-select : (p : Slot → Bool) (ts : List Slot) → UniqueSlots ts → UniqueSlots (select p ts)
UniqueSlots-select p [] u = tt
UniqueSlots-select p (t ∷ ts) u = elim (Bool-cases (p t)) [
  | inl e ↦ rw e ((λ v m. u.0 v (Elem-select p v ts m).0), UniqueSlots-select p ts u.1)
  | inr e ↦ rw e (UniqueSlots-select p ts u.1)
]

UniquePeriods-of_schedule :
    (id : Text) (ts : List Slot)
    → UniqueSlots ts
    → UniquePeriods (select (λ (t : Slot). text_eq t.bell_schedule_id id) ts)
UniquePeriods-of_schedule id [] u = tt
UniquePeriods-of_schedule id (t ∷ ts) u = elim (Bool-cases (text_eq t.bell_schedule_id id)) [
  | inl e ↦ rw e (apart e, UniquePeriods-of_schedule id ts u.1)
  | inr e ↦ rw e (UniquePeriods-of_schedule id ts u.1)
]
  where
    apart :
        text_eq t.bell_schedule_id id ≡ true
        → (v : Slot) → Elem v (select (λ (w : Slot). text_eq w.bell_schedule_id id) ts)
        → v.weekday ≡ t.weekday
        → v.period_index ≢ t.period_index
    apart e v m d =
        let (n, f) = Elem-select (λ (w : Slot). text_eq w.bell_schedule_id id) v ts m in
        u.0 v n
          ((text_eq_iff v.bell_schedule_id id).0 f ∙ sym ((text_eq_iff t.bell_schedule_id id).0 e))
          d

-- The slots of a schedule have distinct periods.
pub slots_of-UniquePeriods :
    (ts : List Slot) (id : Text)
    → UniqueSlots ts
    → UniquePeriods (slots_of (slots_by_schedule ts) id)
slots_of-UniquePeriods ts id u = subst UniquePeriods (sym (slots_of-select ts id)) (
    UniquePeriods-of_schedule id (select (λ (t : Slot). t.active) ts)
      (UniqueSlots-select (λ (t : Slot). t.active) ts u))

module _ {A B : Type 0} (f : A → B) where
  pub Elem-map : (y : B) (xs : List A) → Elem y (map f xs) → (x : A) × Elem x xs × (y ≡ f x)
  Elem-map y [] m = absurd m
  Elem-map y (x ∷ xs) (inl e) = (x, inl refl, e)
  Elem-map y (x ∷ xs) (inr m) = let (z, n, e) = Elem-map y xs m in (z, inr n, e)

  pub map_keeps : (x : A) (xs : List A) → Elem x xs → Elem (f x) (map f xs)
  map_keeps x [] m = absurd m
  map_keeps x (y ∷ ys) (inl e) = inl (ap f e)
  map_keeps x (y ∷ ys) (inr m) = inr (map_keeps x ys m)

duration_positive : (a b : ℕ) → 0 < or_number a b 1
duration_positive a b = ground arith

module _ (s : Snapshot) (schedule : Schedule) (task : Task) (lesson : Lesson) where
  abbrev pub duration : ℕ
  duration = or_number lesson.duration_slots task.duration_slots 1

  abbrev pub rules : List Rule
  rules = applicable_rules s.rules task lesson (some schedule)

  abbrev pub preferences : List Preference
  preferences = select (prefers task lesson) (inputs_of s).preferences

  abbrev pub schedule_rows : List Slot
  schedule_rows = slots_of (slots_by_schedule s.slots) schedule.id

  abbrev allowed : Window → Bool
  allowed = is_offered (or_bits lesson.day_bits task.day_bits []) rules preferences

  abbrev pub write : Window → Emitted
  write = emit (weeks_of task lesson (text "1")) duration rules preferences

  -- A time comes from a run of the schedule's slots that the lesson may take.
  pub record IsTime (t : Emitted) : Type 0 where
    pub first : Slot
    pub window : List Slot
    pub run : IsWeekRun schedule_rows duration first window
    pub permitted :
        IsPermitted (or_bits lesson.day_bits task.day_bits []) rules preferences (first, window)
    pub written : t ≡ write (first, window)

  -- If no two slots of the project have one schedule, weekday and period, then the times offered to a
  -- lesson on a schedule are exactly those of the runs of adjoining slots of the lesson's length on
  -- one of the seven days that its day mask, its required periods, the slots it must start at and the
  -- rules that block slots allow.
  pub lesson_times_iff :
      (t : Emitted)
      → UniqueSlots s.slots
      → Elem t (lesson_times (inputs_of s) (some schedule) task lesson) ↔ IsTime t
  unfolding lesson_times emitted_times inputs_of
  lesson_times_iff t u = (found, offered)
    where
      windows : List Window
      windows = slot_windows schedule_rows duration

      run_iff :
          (a : Slot) (w : List Slot) → Elem (a, w) windows ↔ IsWeekRun schedule_rows duration a w
      run_iff a w =
          slot_windows_iff schedule_rows duration a w (slots_of-UniquePeriods s.slots schedule.id u)
            (duration_positive lesson.duration_slots task.duration_slots)

      found : Elem t (map write (select allowed windows)) → IsTime t
      found m =
          let (w, n, e) = Elem-map write t (select allowed windows) m in
          let (i, h) = Elem-select allowed w windows n in
          record {
            first = w.0;
            window = w.1;
            run = (run_iff w.0 w.1).0 i;
            permitted =
                (is_offered_iff (or_bits lesson.day_bits task.day_bits []) rules preferences w).0 h;
            written = e;
          }

      offered : IsTime t → Elem t (map write (select allowed windows))
      offered h =
          subst (λ z. Elem z (map write (select allowed windows))) (sym h.written)
            (map_keeps write (h.first, h.window) (select allowed windows)
              (select_keeps allowed (h.first, h.window) windows ((run_iff h.first h.window).1 h.run)
                ((is_offered_iff (or_bits lesson.day_bits task.day_bits []) rules preferences
                    (h.first, h.window)).1
                  h.permitted)))
