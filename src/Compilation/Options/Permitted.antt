-- ===== src/Compilation/Options/Permitted.antt =====
-- What the rules and the preferences of a lesson ask of a window.
use academic_affairs_system.Common.{
  ◌≡◌, ◌↔◌, refl, sym, ◌∙◌, subst, ◌⊎◌, inl, inr, Bool, true, false, ◌&&◌, ◌||◌, List, [], ◌∷◌,
  arith, Elem, Elem-select, select_keeps, any, any-false, select, Bool-cases,
}
use academic_affairs_system.Common.Text.{Text, text_eq_iff, contains, is_truthy, or_empty}
use academic_affairs_system.Compilation.Rows.{Rule}
use academic_affairs_system.Compilation.Windows.{Window, day_enabled}
use academic_affairs_system.Compilation.Options.{
  Preference, has_period, missed, window_ids, matches_window, blocks, required_slots, names_none,
  is_offered,
}

any-none :
    {A : Type 0} (p : A → Bool) (xs : List A)
    → ((x : A) → Elem x xs → p x ≡ false)
    → any p xs ≡ false
any-none p [] h = refl
any-none p (x ∷ xs) h = rw (h x (inl refl)) (any-none p xs (λ y m. h y (inr m)))

-- A rule that demands a slot.
abbrev pub demands : Rule → Bool
demands r = r.required && is_truthy r.time_slot_id

-- Which windows a lesson may take.
pub record IsPermitted (bits : Text) (rules : List Rule) (preferences : List Preference)
    (w : Window) : Type 0 where
  -- The mask has the weekday.
  pub day : day_enabled bits w.0.weekday ≡ true
  -- Every required preference names the period.
  pub periods :
      (q : Preference)
      → Elem q preferences
      → q.required ≡ true
      → has_period w.0.period_index q.periods ≡ true
  -- If rules demand slots, one of them demands the first slot of the window.
  pub slots :
      (r : Rule)
      → Elem r rules
      → demands r ≡ true
      → (t : Rule) × Elem t rules × (demands t ≡ true) × (or_empty t.time_slot_id ≡ w.0.id)
  -- No rule forbids the window, or one of its slots.
  pub free : (r : Rule) → Elem r rules → blocks r ≡ true → matches_window (window_ids w) r ≡ false

demanding :
    (id : Text) (rules : List Rule)
    → contains id (required_slots rules) ≡ true
    → (t : Rule) × Elem t rules × (demands t ≡ true) × (or_empty t.time_slot_id ≡ id)
demanding id [] h = cc
demanding id (r ∷ rs) h = elim (Bool-cases (demands r)) [
  | inl e ↦ elim (this e (rw e at h)) [
    | inl same ↦ (r, inl refl, e, same)
    | inr later ↦ let (t, m, d, q) = demanding id rs later in (t, inr m, d, q)
  ]
  | inr e ↦ let (t, m, d, q) = demanding id rs (rw e at h) in (t, inr m, d, q)
]
  where
    this :
        demands r ≡ true
        → contains id (or_empty r.time_slot_id ∷ required_slots rs) ≡ true
        → (or_empty r.time_slot_id ≡ id) ⊎ (contains id (required_slots rs) ≡ true)
    this e k = ground (arith, text_eq_iff id (or_empty r.time_slot_id))

required_slots-contains :
    (t : Rule) (rules : List Rule)
    → Elem t rules
    → demands t ≡ true
    → contains (or_empty t.time_slot_id) (required_slots rules) ≡ true
required_slots-contains t [] m d = absurd m
required_slots-contains t (r ∷ rs) (inl e) d =
    subst (λ (z : Rule). contains (or_empty t.time_slot_id) (required_slots (z ∷ rs)) ≡ true) e
      (rw d (ground (arith, text_eq_iff (or_empty t.time_slot_id) (or_empty t.time_slot_id))))
required_slots-contains t (r ∷ rs) (inr m) d = elim (Bool-cases (demands r)) [
  | inl e ↦ rw e (ground (arith, required_slots-contains t rs m d))
  | inr e ↦ rw e (required_slots-contains t rs m d)
]

names_none-contains :
    (id : Text) (ids : List Text) → contains id ids ≡ true → names_none ids ≡ false
names_none-contains id [] h = cc
names_none-contains id (x ∷ xs) h = refl

some_demand :
    (rules : List Rule)
    → names_none (required_slots rules) ≡ false
    → (r : Rule) × Elem r rules × (demands r ≡ true)
some_demand [] h = cc
some_demand (r ∷ rs) h = elim (Bool-cases (demands r)) [
  | inl e ↦ (r, inl refl, e)
  | inr e ↦ let (t, m, d) = some_demand rs (rw e at h) in (t, inr m, d)
]

module _ (bits : Text) (rules : List Rule) (preferences : List Preference) (w : Window) where
  IsPermitted-of_offered :
      is_offered bits rules preferences w ≡ true → IsPermitted bits rules preferences w
  unfolding is_offered
  IsPermitted-of_offered h = record {
    day = ground arith;
    periods = λ q m e. named q m e;
    slots = λ r m d. demanding w.0.id rules (slot r m d);
    free = λ r m b. unblocked r m b;
  }
    where
      named :
          (q : Preference)
          → Elem q preferences
          → q.required ≡ true
          → has_period w.0.period_index q.periods ≡ true
      named q m e = ground (
        arith,
        any-false (λ (z : Preference). z.required && missed w.0.period_index z) preferences q,
      )

      slot :
          (r : Rule)
          → Elem r rules
          → demands r ≡ true
          → contains w.0.id (required_slots rules) ≡ true
      slot r m d = ground (
        arith,
        names_none-contains (or_empty r.time_slot_id) (required_slots rules),
        required_slots-contains r rules m d,
      )

      unblocked :
          (r : Rule) → Elem r rules → blocks r ≡ true → matches_window (window_ids w) r ≡ false
      unblocked r m b = elim (Bool-cases (matches_window (window_ids w) r)) [
        | inl e ↦ ground (
          arith,
          any-false blocks (select (matches_window (window_ids w)) rules) r,
          select_keeps (matches_window (window_ids w)) r rules m e,
        )
        | inr e ↦ e
      ]

  offered-of_IsPermitted :
      IsPermitted bits rules preferences w → is_offered bits rules preferences w ≡ true
  unfolding is_offered
  offered-of_IsPermitted p = ground (
    arith,
    p.day,
    no_preference,
    demanded (Bool-cases (names_none (required_slots rules))),
    no_block,
  )
    where
      no_preference :
          any (λ (q : Preference). q.required && missed w.0.period_index q) preferences ≡ false
      no_preference =
          any-none (λ (q : Preference). q.required && missed w.0.period_index q) preferences
            (λ q m. ground (arith, p.periods q m))

      no_block : any blocks (select (matches_window (window_ids w)) rules) ≡ false
      no_block =
          any-none blocks (select (matches_window (window_ids w)) rules)
            (λ r m. not_blocking r (Elem-select (matches_window (window_ids w)) r rules m))
        where
          not_blocking :
              (r : Rule)
              → Elem r rules × (matches_window (window_ids w) r ≡ true)
              → blocks r ≡ false
          not_blocking r (m, e) = elim (Bool-cases (blocks r)) [
            | inl b ↦ absurd (impossible (sym e ∙ p.free r m b))
            | inr b ↦ b
          ]
            where
              impossible : true ≡ false → ⊥
              impossible q = cc

      demanded :
          (names_none (required_slots rules) ≡ true) ⊎ (names_none (required_slots rules) ≡ false)
          → (names_none (required_slots rules) || contains w.0.id (required_slots rules)) ≡ true
      demanded (inl e) = rw e refl
      demanded (inr e) =
          let (r, m, d) = some_demand rules e in
          let (t, n, f, q) = p.slots r m d in
          rw e (
            subst (λ id. contains id (required_slots rules) ≡ true) q
              (required_slots-contains t rules n f))

  -- The test of the loop, in the words of the rules.
  pub is_offered_iff :
      (is_offered bits rules preferences w ≡ true) ↔ IsPermitted bits rules preferences w
  is_offered_iff = (IsPermitted-of_offered, offered-of_IsPermitted)
