-- ===== src/Validation/Limits/Days.antt =====
-- The issues of one resource, day by day.
use academic_affairs_system.Common.{
  ℕ, ◌≤◌, ◌≡◌, refl, sym, subst, inl, inr, false, List, [], ◌∷◌, ◌++◌, arith, Elem, Bool-cases, ltb,
}
use academic_affairs_system.Common.Text.{Text}
use academic_affairs_system.CpSat.Limits.{weekdays}
use academic_affairs_system.Compilation.Rows.{Constraint}
use academic_affairs_system.Compilation.Constraints.{limit_number}
use academic_affairs_system.Validation.{
  Placement, Resource, placed_on, day_measure, Issue, issue_if, day_issues, id_issues,
}
use academic_affairs_system.Validation.Limits.{
  KeepsLimit, KeepsLimit-of_measure, measure-of_KeepsLimit,
}

pub both_empty : {A : Type 0} (xs ys : List A) → xs ++ ys ≡ [] → (xs ≡ []) × (ys ≡ [])
both_empty [] ys h = (refl, h)
both_empty (x ∷ xs) ys h = cc

module _ (c : Constraint) where
  issue_if-none :
      (r : Resource) (id : Text) (weekday measure : ℕ)
      → issue_if c r id weekday measure ≡ []
      → measure ≤ limit_number c
  issue_if-none r id weekday measure h = elim (Bool-cases (ltb (limit_number c) measure)) [
    | inl e ↦ absurd (never (rw e at h))
    | inr e ↦ ground (arith, e)
  ]
    where
      never : {i : Issue} → i ∷ [] ≡ [] → ⊥
      never q = cc

  none-issue_if :
      (r : Resource) (id : Text) (weekday measure : ℕ)
      → measure ≤ limit_number c
      → issue_if c r id weekday measure ≡ []
  none-issue_if r id weekday measure h = rw within refl
    where
      within : ltb (limit_number c) measure ≡ false
      within = ground (arith, h)

  -- The limit is kept by the resource on the days.
  abbrev pub KeepsOn : Resource → Text → List Placement → List ℕ → Type 0
  KeepsOn r id ps days =
      (weekday : ℕ) → Elem weekday days → KeepsLimit c (placed_on r id weekday ps)

  KeepsOn-of_issues :
      (r : Resource) (id : Text) (ps : List Placement) (days : List ℕ)
      → day_issues c r id ps days ≡ []
      → KeepsOn r id ps days
  unfolding day_issues
  KeepsOn-of_issues r id ps [] h weekday m = absurd m
  KeepsOn-of_issues r id ps (d ∷ ds) h weekday m =
      let (here, later) =
        both_empty (issue_if c r id d (day_measure c (placed_on r id d ps)))
          (day_issues c r id ps ds) h in
      elim m [
        | inl e ↦
            subst (λ k. KeepsLimit c (placed_on r id k ps)) (sym e)
              (KeepsLimit-of_measure c (placed_on r id d ps)
                (issue_if-none r id d (day_measure c (placed_on r id d ps)) here))
        | inr n ↦ KeepsOn-of_issues r id ps ds later weekday n
      ]

  issues-of_KeepsOn :
      (r : Resource) (id : Text) (ps : List Placement) (days : List ℕ)
      → KeepsOn r id ps days
      → day_issues c r id ps days ≡ []
  unfolding day_issues
  issues-of_KeepsOn r id ps [] k = refl
  issues-of_KeepsOn r id ps (d ∷ ds) k =
      rw
        (none-issue_if r id d (day_measure c (placed_on r id d ps))
          (measure-of_KeepsLimit c (placed_on r id d ps) (k d (inl refl))))
        (issues-of_KeepsOn r id ps ds (λ w m. k w (inr m)))

  pub KeepsOn-of_ids :
      (r : Resource) (id : Text) (ps : List Placement) (ids : List Text)
      → id_issues c r ps ids ≡ []
      → Elem id ids
      → KeepsOn r id ps weekdays
  unfolding id_issues
  KeepsOn-of_ids r id ps [] h m = absurd m
  KeepsOn-of_ids r id ps (j ∷ ids) h m =
      let (here, later) = both_empty (day_issues c r j ps weekdays) (id_issues c r ps ids) h in
      elim m [
        | inl e ↦
            subst (λ k. KeepsOn r k ps weekdays) (sym e) (KeepsOn-of_issues r j ps weekdays here)
        | inr n ↦ KeepsOn-of_ids r id ps ids later n
      ]

  pub ids-of_KeepsOn :
      (r : Resource) (ps : List Placement) (ids : List Text)
      → ((id : Text) → Elem id ids → KeepsOn r id ps weekdays)
      → id_issues c r ps ids ≡ []
  unfolding id_issues
  ids-of_KeepsOn r ps [] k = refl
  ids-of_KeepsOn r ps (j ∷ ids) k =
      rw (issues-of_KeepsOn r j ps weekdays (k j (inl refl)))
        (ids-of_KeepsOn r ps ids (λ i m. k i (inr m)))
