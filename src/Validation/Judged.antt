-- ===== src/Validation/Judged.antt =====
-- The verdict on a solution: it has no hard issue exactly when the hard limits are kept.
use academic_affairs_system.Common.{
  ◌≡◌, ◌↔◌, refl, sym, ap, subst, inl, inr, Bool, true, false, ◌&&◌, List, [], ◌∷◌, arith, Elem,
  Elem-select, select_keeps, select, Bool-cases, if◌then◌else◌,
}
use academic_affairs_system.Common.Text.{text}
use academic_affairs_system.Xml.{Element, descendants, Parsed, parsed, value_error}
use academic_affairs_system.Compilation.Rows.{Constraint, Snapshot}
use academic_affairs_system.Compilation.Constraints.{is_limit_kind}
use academic_affairs_system.Validation.{
  Placement, placements_of, scoped, selected_resources, constraint_issues, Verdict, add_issues,
  judge, validate_solution,
}
use academic_affairs_system.Validation.Limits.Issues.{
  KeepsAll, KeepsAll-of_issues, issues-of_KeepsAll,
}
use academic_affairs_system.Validation.Limits.Days.{both_empty}

-- The limit of the constraint is kept on every weekday by every resource that it selects, among the
-- placements in its scope.
abbrev pub Kept : Constraint → List Placement → Type 0
Kept c ps = KeepsAll c (select (scoped c) ps) (selected_resources c.parameters.resource_type)

-- A hard constraint that is a limit.
abbrev pub is_hard_limit : Constraint → Bool
is_hard_limit c = is_limit_kind c.kind && c.is_hard

module _ (ps : List Placement) where
  Kept-of_issues : (c : Constraint) → constraint_issues c ps ≡ [] → Kept c ps
  unfolding constraint_issues
  Kept-of_issues c h =
      KeepsAll-of_issues c (select (scoped c) ps) (selected_resources c.parameters.resource_type) h

  issues-of_Kept : (c : Constraint) → Kept c ps → constraint_issues c ps ≡ []
  unfolding constraint_issues
  issues-of_Kept c k =
      issues-of_KeepsAll c (select (scoped c) ps) (selected_resources c.parameters.resource_type) k

  abbrev after : Constraint → Verdict → Verdict
  after c v = if is_limit_kind c.kind then add_issues c (constraint_issues c ps) v else v

  after-none :
      (c : Constraint) (v : Verdict)
      → (after c v).hard_issues ≡ []
      → (v.hard_issues ≡ []) × (is_hard_limit c ≡ true → constraint_issues c ps ≡ [])
  unfolding constraint_issues
  after-none c v h = elim (Bool-cases (is_limit_kind c.kind)) [
    | inl e ↦ elim (Bool-cases c.is_hard) [
      | inl f ↦
          let (old, new) = both_empty v.hard_issues (constraint_issues c ps) (rw (e, f) at h) in
          (old, λ q. new)
      | inr f ↦ (rw (e, f) at h, λ q. absurd (soft e f q))
    ]
    | inr e ↦ (rw e at h, λ q. absurd (unlimited e q))
  ]
    where
      soft : is_limit_kind c.kind ≡ true → c.is_hard ≡ false → is_hard_limit c ≡ true → ⊥
      soft e f q = ground arith

      unlimited : is_limit_kind c.kind ≡ false → is_hard_limit c ≡ true → ⊥
      unlimited e q = ground arith

  none-after :
      (c : Constraint) (v : Verdict)
      → v.hard_issues ≡ []
      → (is_hard_limit c ≡ true → constraint_issues c ps ≡ [])
      → (after c v).hard_issues ≡ []
  unfolding constraint_issues
  none-after c v old new = elim (Bool-cases (is_limit_kind c.kind)) [
    | inl e ↦ elim (Bool-cases c.is_hard) [
      | inl f ↦ rw (e, f) (rw (old, new (ground arith)) refl)
      | inr f ↦ rw (e, f) old
    ]
    | inr e ↦ rw e old
  ]

  Kept-of_judge :
      (cs : List Constraint) (v : Verdict)
      → (judge cs ps v).hard_issues ≡ []
      → (v.hard_issues ≡ []) × ((c : Constraint) → Elem c cs → is_hard_limit c ≡ true → Kept c ps)
  unfolding judge
  Kept-of_judge [] v h = (h, λ c m. absurd m)
  Kept-of_judge (d ∷ cs) v h =
      let (first, later) = Kept-of_judge cs (after d v) h in
      let (old, here) = after-none d v first in (old, kept here later)
    where
      kept :
          (is_hard_limit d ≡ true → constraint_issues d ps ≡ [])
          → ((c : Constraint) → Elem c cs → is_hard_limit c ≡ true → Kept c ps)
          → (c : Constraint) → Elem c (d ∷ cs)
          → is_hard_limit c ≡ true
          → Kept c ps
      kept here later c (inl e) q =
          subst (λ z. Kept z ps) (sym e)
            (Kept-of_issues d (here (subst (λ z. is_hard_limit z ≡ true) e q)))
      kept here later c (inr m) q = later c m q

  judge-of_Kept :
      (cs : List Constraint) (v : Verdict)
      → v.hard_issues ≡ []
      → ((c : Constraint) → Elem c cs → is_hard_limit c ≡ true → Kept c ps)
      → (judge cs ps v).hard_issues ≡ []
  unfolding judge
  judge-of_Kept [] v h k = h
  judge-of_Kept (d ∷ cs) v h k =
      judge-of_Kept cs (after d v) (none-after d v h (λ q. issues-of_Kept d (k d (inl refl) q)))
        (λ c m. k c (inr m))

-- If the numbers of a solution are read, its verdict has no hard issue exactly when every enabled hard
-- limit is kept: on each weekday, by each teacher or homeroom that the constraint selects, whose
-- lessons in its scope take at most that many periods together, or at most that many in a row.
pub validate_solution-hard_iff :
    (s : Snapshot) (solution : Element) (ps : List Placement) (v : Verdict)
    → placements_of s (descendants (text "class") solution) ≡ parsed ps
    → validate_solution s solution ≡ parsed v
    → (v.hard_issues ≡ []) ↔ (
        (c : Constraint)
        → Elem c s.constraints
        → c.enabled ≡ true
        → is_hard_limit c ≡ true
        → Kept c ps)
unfolding validate_solution
validate_solution-hard_iff s solution ps v e h = (kept, found)
  where
    enabled : List Constraint
    enabled = select (λ (c : Constraint). c.enabled) s.constraints

    no_issues : Verdict
    no_issues = record { hard_issues = []; soft_issues = []; soft_penalty = 0 }

    verdict_in : Parsed Verdict → Verdict
    verdict_in (parsed w) = w
    verdict_in value_error = v

    same : judge enabled ps no_issues ≡ v
    same = ap verdict_in (rw e at h)

    kept :
        v.hard_issues ≡ []
        → (c : Constraint) → Elem c s.constraints
        → c.enabled ≡ true
        → is_hard_limit c ≡ true
        → Kept c ps
    kept q c m n =
        (Kept-of_judge ps enabled no_issues
            (subst (λ (w : Verdict). w.hard_issues ≡ []) (sym same) q)).1
          c (select_keeps (λ (d : Constraint). d.enabled) c s.constraints m n)

    found :
        ((c : Constraint)
          → Elem c s.constraints
          → c.enabled ≡ true
          → is_hard_limit c ≡ true
          → Kept c ps)
        → v.hard_issues ≡ []
    found k =
        subst (λ (w : Verdict). w.hard_issues ≡ []) same
          (judge-of_Kept ps enabled no_issues refl (λ c m.
            let (i, n) = Elem-select (λ (d : Constraint). d.enabled) c s.constraints m in k c i n))
