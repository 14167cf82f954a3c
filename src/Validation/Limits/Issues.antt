-- ===== src/Validation/Limits/Issues.antt =====
-- The loops of the check over the constraints, the resources and the days.
use academic_affairs_system.Common.{
  ℕ, ◌≡◌, refl, sym, subst, ◌⊎◌, inl, inr, Bool, true, false, List, [], ◌∷◌, arith, Elem, select,
  Bool-cases, if◌then◌else◌,
}
use academic_affairs_system.Common.Text.{
  Text, text_eq, text_eq_iff, is_empty, contains, set_add, Elem-of-contains,
}
use academic_affairs_system.CpSat.Limits.{weekdays}
use academic_affairs_system.Compilation.Rows.{Constraint}
use academic_affairs_system.Compilation.Builtin.Unique.{
  set_add_self, set_add-keeps, Elem-set_add, contains-of-Elem,
}
use academic_affairs_system.Validation.{
  Placement, Resource, resource_id, resource_ids, taken_by, id_issues, resource_issues,
}
use academic_affairs_system.Validation.Occupied.{IsTaken}
use academic_affairs_system.Validation.Limits.{KeepsLimit}
use academic_affairs_system.Validation.Limits.Days.{
  both_empty, KeepsOn, KeepsOn-of_ids, ids-of_KeepsOn,
}

unmet : (limit : ℕ) (c : Constraint) → KeepsLimit c []
unmet limit c = record {
  daily = λ e. omega arith;
  consecutive = λ e first taken. nothing (taken 0 (omega arith));
}
  where
    nothing : {n : ℕ} → IsTaken n [] → ⊥
    nothing (p, m, low, high) = absurd m

select_nothing :
    {A : Type 0} (p : A → Bool) (xs : List A)
    → ((x : A) → Elem x xs → p x ≡ false)
    → select p xs ≡ []
select_nothing p [] h = refl
select_nothing p (x ∷ xs) h = rw (h x (inl refl)) (select_nothing p xs (λ y m. h y (inr m)))

resource_ids-Elem :
    (r : Resource) (ps : List Placement) (seen : List Text) (id : Text)
    → Elem id seen ⊎ ((p : Placement) × Elem p ps × (resource_id r p ≡ id))
    → is_empty id ≡ false
    → Elem id (resource_ids r ps seen)
unfolding resource_ids
resource_ids-Elem r [] seen id (inl m) n = m
resource_ids-Elem r [] seen id (inr (p, m, e)) n = absurd m
resource_ids-Elem r (q ∷ ps) seen id (inl m) n = elim (Bool-cases (is_empty (resource_id r q))) [
  | inl f ↦ rw f (resource_ids-Elem r ps seen id (inl m) n)
  | inr f ↦ rw f (
      resource_ids-Elem r ps (set_add (resource_id r q) seen) id
        (inl (set_add-keeps id (resource_id r q) seen m)) n)
]
resource_ids-Elem r (q ∷ ps) seen id (inr (p, inr m, e)) n =
    resource_ids-Elem r ps
      (if is_empty (resource_id r q) then seen else set_add (resource_id r q) seen) id
      (inr (p, m, e)) n
resource_ids-Elem r (q ∷ ps) seen id (inr (p, inl m, e)) n = rw filled (
    resource_ids-Elem r ps (set_add (resource_id r q) seen) id
      (inl (subst (λ k. Elem id (set_add k seen)) (sym here) (set_add_self id seen))) n)
  where
    here : resource_id r q ≡ id
    here = subst (λ z. resource_id r z ≡ id) m e

    filled : is_empty (resource_id r q) ≡ false
    filled = subst (λ k. is_empty k ≡ false) (sym here) n

module _ (c : Constraint) where
  KeepsOn-of_resource :
      (r : Resource) (ps : List Placement)
      → id_issues c r ps (resource_ids r ps []) ≡ []
      → (id : Text) → is_empty id ≡ false
      → KeepsOn c r id ps weekdays
  KeepsOn-of_resource r ps h id n weekday m =
      elim (Bool-cases (contains id (resource_ids r ps []))) [
        | inl e ↦
            KeepsOn-of_ids c r id ps (resource_ids r ps []) h
              (Elem-of-contains id (resource_ids r ps []) e) weekday m
        | inr e ↦
            subst (KeepsLimit c)
              (sym (select_nothing (taken_by r id weekday) ps (λ p i. other p i e))) (unmet 0 c)
      ]
    where
      missed :
          (p : Placement)
          → Elem p ps
          → contains id (resource_ids r ps []) ≡ false
          → text_eq (resource_id r p) id ≡ true
          → ⊥
      missed p i e f = cc (
        contains-of-Elem id (resource_ids r ps [])
            (resource_ids-Elem r ps [] id (inr (p, i, (text_eq_iff (resource_id r p) id).0 f)) n),
        e,
      )

      other :
          (p : Placement)
          → Elem p ps
          → contains id (resource_ids r ps []) ≡ false
          → taken_by r id weekday p ≡ false
      other p i e = elim (Bool-cases (text_eq (resource_id r p) id)) [
        | inl f ↦ absurd (missed p i e f)
        | inr f ↦ rw f refl
      ]

  -- The limit is kept by each of the resources, whatever its id, on every weekday.
  abbrev pub KeepsAll : List Placement → List Resource → Type 0
  KeepsAll ps rs =
      (r : Resource) → Elem r rs → (id : Text) → is_empty id ≡ false → KeepsOn c r id ps weekdays

  pub KeepsAll-of_issues :
      (ps : List Placement) (rs : List Resource) → resource_issues c ps rs ≡ [] → KeepsAll ps rs
  unfolding resource_issues
  KeepsAll-of_issues ps [] h r m = absurd m
  KeepsAll-of_issues ps (q ∷ rs) h r m =
      let (here, later) =
        both_empty (id_issues c q ps (resource_ids q ps [])) (resource_issues c ps rs) h in
      elim m [
        | inl e ↦
            subst (λ k. (id : Text) → is_empty id ≡ false → KeepsOn c k id ps weekdays) (sym e)
              (KeepsOn-of_resource q ps here)
        | inr n ↦ KeepsAll-of_issues ps rs later r n
      ]

  resource_ids-filled :
      (r : Resource) (ps : List Placement) (seen : List Text)
      → ((id : Text) → Elem id seen → is_empty id ≡ false)
      → (id : Text) → Elem id (resource_ids r ps seen)
      → is_empty id ≡ false
  unfolding resource_ids
  resource_ids-filled r [] seen h id m = h id m
  resource_ids-filled r (p ∷ ps) seen h id m = elim (Bool-cases (is_empty (resource_id r p))) [
    | inl e ↦ resource_ids-filled r ps seen h id (rw e at m)
    | inr e ↦
        resource_ids-filled r ps (set_add (resource_id r p) seen) (λ k i. grown e k i) id
          (rw e at m)
  ]
    where
      grown :
          is_empty (resource_id r p) ≡ false
          → (k : Text) → Elem k (set_add (resource_id r p) seen)
          → is_empty k ≡ false
      grown e k i = elim (Elem-set_add k (resource_id r p) seen i) [
        | inl same ↦ subst (λ z. is_empty z ≡ false) (sym same) e
        | inr old ↦ h k old
      ]

  pub issues-of_KeepsAll :
      (ps : List Placement) (rs : List Resource) → KeepsAll ps rs → resource_issues c ps rs ≡ []
  unfolding resource_issues
  issues-of_KeepsAll ps [] k = refl
  issues-of_KeepsAll ps (r ∷ rs) k =
      rw
        (ids-of_KeepsOn c r ps (resource_ids r ps [])
          (λ id m. k r (inl refl) id (resource_ids-filled r ps [] (λ j i. absurd i) id m)))
        (issues-of_KeepsAll ps rs (λ q m. k q (inr m)))
