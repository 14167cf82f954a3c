-- ===== src/Cgcs/Greedy/Choice.antt =====
-- The inner loop of `run_cgcs_greedy` finds a cheapest action that fits.
use academic_affairs_system.Common.{
  ℕ, ◌≤◌, ◌≡◌, refl, ◌⊎◌, inl, inr, true, false, not, List, [], ◌∷◌, Option, none, some, arith,
  Elem, Bool-cases, ltb, if◌then◌else◌, subst, sym,
}
use academic_affairs_system.Cgcs.Model.{Action, Distribution, Assignments}
use academic_affairs_system.Cgcs.Checks.{is_feasible}
use academic_affairs_system.Cgcs.Greedy.{full_penalty, better, choose}

module _ (m : Assignments) (ds : List Distribution) where
  -- The best so far after one more action.
  abbrev next : Action → Option (Action × ℕ) → Option (Action × ℕ)
  next a best = if not (is_feasible a m ds) then best else better a (full_penalty a m ds) best

  next-none :
      (a : Action) (best : Option (Action × ℕ))
      → next a best ≡ none
      → (best ≡ none) × (is_feasible a m ds ≡ false)
  next-none a none h = ground arith
  next-none a (some (b, q)) h = ground arith

  next-some :
      (a : Action) (best : Option (Action × ℕ)) (b : Action) (p : ℕ)
      → next a best ≡ some (b, p)
      → (best ≡ some (b, p)) ⊎ ((b ≡ a) × (is_feasible a m ds ≡ true) × (p ≡ full_penalty a m ds))
  next-some a none b p h = ground arith
  next-some a (some (c, q)) b p h = ground arith

  -- The next best costs no more than the last, and no more than the action if that fits.
  next_le :
      (a : Action) (best : Option (Action × ℕ)) (b : Action) (q : ℕ)
      → best ≡ some (b, q)
      → (c : Action) × (p : ℕ) × (next a best ≡ some (c, p)) × (p ≤ q)
  next_le a best b q h = elim (Bool-cases (is_feasible a m ds)) [
    | inl f ↦ elim (Bool-cases (ltb (full_penalty a m ds) q)) [
      | inl l ↦ (a, full_penalty a m ds, ground arith, ground arith)
      | inr l ↦ (b, q, ground arith, ground arith)
    ]
    | inr f ↦ (b, q, ground arith, ground arith)
  ]

  next_le_new :
      (a : Action) (best : Option (Action × ℕ))
      → is_feasible a m ds ≡ true
      → (c : Action) × (p : ℕ) × (next a best ≡ some (c, p)) × (p ≤ full_penalty a m ds)
  next_le_new a none f = (a, full_penalty a m ds, ground arith, ground arith)
  next_le_new a (some (b, q)) f = elim (Bool-cases (ltb (full_penalty a m ds) q)) [
    | inl l ↦ (a, full_penalty a m ds, ground arith, ground arith)
    | inr l ↦ (b, q, ground arith, ground arith)
  ]

  pub choose-none :
      (xs : List Action) (best : Option (Action × ℕ))
      → choose m ds xs best ≡ none
      → (best ≡ none) × ((x : Action) → Elem x xs → is_feasible x m ds ≡ false)
  unfolding choose
  choose-none [] best h = (h, λ x i. absurd i)
  choose-none (a ∷ rest) best h =
      let (e, later) = choose-none rest (next a best) h in
      let (e', now) = next-none a best e in
      (
        e',
        λ x i. elim i [
          | inl p ↦ subst (λ w. is_feasible w m ds ≡ false) (sym p) now
          | inr j ↦ later x j
        ],
      )

  pub choose-some :
      (xs : List Action) (best : Option (Action × ℕ)) (b : Action) (p : ℕ)
      → choose m ds xs best ≡ some (b, p)
      → (best ≡ some (b, p)) ⊎ (Elem b xs × (is_feasible b m ds ≡ true) × (p ≡ full_penalty b m ds))
  unfolding choose
  choose-some [] best b p h = inl h
  choose-some (a ∷ rest) best b p h = elim (choose-some rest (next a best) b p h) [
    | inl e ↦ elim (next-some a best b p e) [
      | inl old ↦ inl old
      | inr new ↦ inr (ground arith, ground arith, ground arith)
    ]
    | inr later ↦ inr (inr later.0, later.1, later.2)
  ]

  pub choose_le :
      (xs : List Action) (best : Option (Action × ℕ)) (b c : Action) (p q : ℕ)
      → choose m ds xs best ≡ some (b, p)
      → best ≡ some (c, q)
      → p ≤ q
  unfolding choose
  choose_le [] best b c p q h e = ground arith
  choose_le (a ∷ rest) best b c p q h e =
      let (c', q', e', l) = next_le a best c q e in
      omega (arith, choose_le rest (next a best) b c' p q' h e')

  pub choose_least :
      (xs : List Action) (best : Option (Action × ℕ)) (b : Action) (p : ℕ) (x : Action)
      → choose m ds xs best ≡ some (b, p)
      → Elem x xs
      → is_feasible x m ds ≡ true
      → p ≤ full_penalty x m ds
  unfolding choose
  choose_least [] best b p x h i f = absurd i
  choose_least (a ∷ rest) best b p x h (inl e) f =
      let (c, q, e', l) = next_le_new a best (subst (λ w. is_feasible w m ds ≡ true) e f) in
      subst (λ w. p ≤ full_penalty w m ds) (sym e)
        (omega (arith, choose_le rest (next a best) b c p q h e'))
  choose_least (a ∷ rest) best b p x h (inr i) f = choose_least rest (next a best) b p x h i f

-- What the best of some actions is.
abbrev pub IsBestChoice :
    Assignments → List Distribution → List Action → Option (Action × ℕ) → Type 0
IsBestChoice m ds xs none = (x : Action) → Elem x xs → is_feasible x m ds ≡ false
IsBestChoice m ds xs (some (a, p)) =
    Elem a xs
    × (is_feasible a m ds ≡ true)
    × (p ≡ full_penalty a m ds)
    × ((x : Action) → Elem x xs → is_feasible x m ds ≡ true → p ≤ full_penalty x m ds)

choice_cases :
    (m : Assignments) (ds : List Distribution) (xs : List Action) (r : Option (Action × ℕ))
    → choose m ds xs none ≡ r
    → IsBestChoice m ds xs r
choice_cases m ds xs none h = (choose-none m ds xs none h).1
choice_cases m ds xs (some (a, p)) h = elim (choose-some m ds xs none a p h) [
  | inl e ↦ cc
  | inr (i, f, e) ↦ (i, f, e, λ x j g. choose_least m ds xs none a p x h j g)
]

-- The loop over a class's actions finds nothing exactly when no action fits, and otherwise an
-- action that fits whose penalty, soft violations included, is the least among those that fit.
pub choose-IsBestChoice :
    (m : Assignments) (ds : List Distribution) (xs : List Action)
    → IsBestChoice m ds xs (choose m ds xs none)
choose-IsBestChoice m ds xs = choice_cases m ds xs (choose m ds xs none) refl
