-- ===== src/Cgcs/Repair/Relocation.antt =====
-- A relocation keeps the hard constraints.
use academic_affairs_system.Common.{
  ◌≡◌, refl, subst, inl, inr, true, false, List, [], ◌∷◌, Option, none, some, arith, Elem,
  Bool-cases, Option-cases, Within, ltb,
}
use academic_affairs_system.Common.Text.{Text, text_eq}
use academic_affairs_system.Common.Dict.{lookup, insert, erase, lookup-insert, lookup-erase}
use academic_affairs_system.Cgcs.Model.{ClassAgent, Action, action_eq, Distribution, Assignments}
use academic_affairs_system.Cgcs.Actions.{actions}
use academic_affairs_system.Cgcs.Checks.{is_feasible, blocking_class_ids}
use academic_affairs_system.Cgcs.Greedy.Placing.{
  IsSound, IsSound-ext, IsSound-erase, IsSound-insert,
}
use academic_affairs_system.Cgcs.Repair.{
  Plan, better_plan, restore, plan_with, relocate_blocker, relocate_sole, relocate_from, apply_plan,
  repair_by_relocating_one, best_feasible_action,
}
use academic_affairs_system.Cgcs.Repair.Best.{IsFirstFit, best_feasible_action-IsFirstFit}
use academic_affairs_system.Cgcs.Repair.Undo.{IsIndex, restore_elsewhere, restore_cases}

module _ (agents : List ClassAgent) (ds : List Distribution) (by_id : List (Text × ClassAgent))
    (failed : ClassAgent) (index : IsIndex agents by_id) (listed : Elem failed agents) where
  -- Applying the plan leaves sound assignments.
  abbrev PlanIsSound : Assignments → Option Plan → Type 0
  PlanIsSound m none = Unit
  PlanIsSound m (some p) =
      IsSound agents ds (insert p.blocker_id p.replacement (insert failed.class_id p.candidate m))

  abbrev IsSoundState : Assignments × Option Plan → Type 0
  IsSoundState (m, best) = IsSound agents ds m × PlanIsSound m best

  -- A plan does not read the failed class's own entry.
  PlanIsSound-ext :
      (m n : Assignments) (best : Option Plan)
      → ((j : Text) → text_eq failed.class_id j ≡ false → lookup j n ≡ lookup j m)
      → PlanIsSound m best
      → PlanIsSound n best
  PlanIsSound-ext m n none same s = tt
  PlanIsSound-ext m n (some p) same s = IsSound-ext agents ds _ _ (λ j. planned j) s
    where
      planned :
          (j : Text)
          → lookup j (insert p.blocker_id p.replacement (insert failed.class_id p.candidate m))
            ≡ lookup j (insert p.blocker_id p.replacement (insert failed.class_id p.candidate n))
      planned j = ground (
        arith,
        same j,
        lookup-insert p.blocker_id j p.replacement (insert failed.class_id p.candidate m),
        lookup-insert p.blocker_id j p.replacement (insert failed.class_id p.candidate n),
        lookup-insert failed.class_id j p.candidate m,
        lookup-insert failed.class_id j p.candidate n,
      )

  PlanIsSound-better :
      (m : Assignments) (p : Plan) (best : Option Plan)
      → PlanIsSound m (some p)
      → PlanIsSound m best
      → PlanIsSound m (better_plan p best)
  PlanIsSound-better m p none s t = s
  PlanIsSound-better m p (some q) s t = elim (Bool-cases (ltb p.penalty q.penalty)) [
    | inl e ↦ rw e s
    | inr e ↦ rw e t
  ]

  trial-IsSound :
      (c : Action) (b : Text) (m : Assignments)
      → IsSound agents ds m
      → Elem c (actions failed)
      → is_feasible c (erase b m) ds ≡ true
      → IsSound agents ds (insert failed.class_id c (erase b m))
  trial-IsSound c b m s i f =
      IsSound-insert agents ds failed c (erase b m) (IsSound-erase agents ds b m s) listed i f

  swap-IsSound :
      (c r : Action) (b : Text) (g : ClassAgent) (m : Assignments)
      → IsSound agents ds (insert failed.class_id c (erase b m))
      → Elem g agents
      → g.class_id ≡ b
      → Elem r (actions g)
      → is_feasible r (insert failed.class_id c (erase b m)) ds ≡ true
      → IsSound agents ds (insert b r (insert failed.class_id c m))
  swap-IsSound c r b g m s i k j f =
      IsSound-ext agents ds (insert b r (insert failed.class_id c (erase b m))) _ same (
        subst (λ w. IsSound agents ds (insert w r (insert failed.class_id c (erase b m)))) k
          (IsSound-insert agents ds g r _ s i j f))
    where
      same :
          (q : Text)
          → lookup q (insert b r (insert failed.class_id c (erase b m)))
            ≡ lookup q (insert b r (insert failed.class_id c m))
      same q = ground (
        arith,
        lookup-insert b q r (insert failed.class_id c (erase b m)),
        lookup-insert b q r (insert failed.class_id c m),
        lookup-insert failed.class_id q c (erase b m),
        lookup-insert failed.class_id q c m,
        lookup-erase b q m,
      )

  plan_with-IsSound :
      (c : Action) (b : Text) (old : Action) (g : ClassAgent) (m : Assignments) (best : Option Plan)
      (r : Option Action)
      → IsFirstFit g (insert failed.class_id c (erase b m)) ds r
      → IsSound agents ds (insert failed.class_id c (erase b m))
      → Elem g agents
      → g.class_id ≡ b
      → PlanIsSound m best
      → PlanIsSound m (plan_with ds by_id failed c b old (erase b m) r best)
  plan_with-IsSound c b old g m best none fit s i k t = t
  plan_with-IsSound c b old g m best (some r) fit s i k t = elim (Bool-cases (action_eq r old)) [
    | inl e ↦ rw e t
    | inr e ↦ rw e (PlanIsSound-better m _ best (swap-IsSound c r b g m s i k fit.0 fit.1) t)
  ]

  restored-IsSoundState :
      (b : Text) (old : Action) (m trial : Assignments) (best : Option Plan)
      → lookup b m ≡ some old
      → ((j : Text) → text_eq failed.class_id j ≡ false → lookup j trial ≡ lookup j (erase b m))
      → IsSound agents ds m
      → PlanIsSound m best
      → IsSoundState (restore ds by_id failed b old trial, best)
  restored-IsSoundState b old m trial best e away s t = (
    elim (restore_cases failed b old m trial e away) [
      | inl same ↦ IsSound-ext agents ds m _ same s
      | inr gone ↦ IsSound-ext agents ds _ _ gone (IsSound-erase agents ds failed.class_id m s)
    ],
    PlanIsSound-ext m _ best (restore_elsewhere failed b old m trial e away) t,
  )

  trial_away :
      (c : Action) (b : Text) (m : Assignments) (j : Text)
      → text_eq failed.class_id j ≡ false
      → lookup j (insert failed.class_id c (erase b m)) ≡ lookup j (erase b m)
  trial_away c b m j e = ground (arith, lookup-insert failed.class_id j c (erase b m))

  relocate_blocker-IsSound :
      (c : Action) (b : Text) (old : Action) (m : Assignments) (best : Option Plan)
      → Elem c (actions failed)
      → lookup b m ≡ some old
      → IsSoundState (m, best)
      → IsSoundState (relocate_blocker ds by_id failed c b old (erase b m) best)
  unfolding relocate_blocker
  relocate_blocker-IsSound c b old m best i e s = elim (Bool-cases (is_feasible c (erase b m) ds)) [
    | inr unfit ↦
        rw (unfit, relocate_blocker)
          (restored-IsSoundState b old m (erase b m) best e (λ j n. refl) s.0 s.1)
    | inl fit ↦ elim (Option-cases (lookup b by_id)) [
      | inl missing ↦
          rw (fit, missing, relocate_blocker)
            (restored-IsSoundState b old m trial best e (trial_away c b m) s.0 s.1)
      | inr (g, found) ↦
          rw (fit, found, relocate_blocker)
            (restored-IsSoundState b old m trial
              (plan_with ds by_id failed c b old (erase b m) (best_feasible_action g trial ds) best)
              e (trial_away c b m) s.0
              (plan_with-IsSound c b old g m best (best_feasible_action g trial ds)
                (best_feasible_action-IsFirstFit g trial ds) (trial-IsSound c b m s.0 i fit)
                (index b g found).0 (index b g found).1 s.1))
    ]
  ]
    where
      trial : Assignments
      trial = insert failed.class_id c (erase b m)

  relocate_sole-IsSound :
      (c : Action) (blockers : List Text) (m : Assignments) (best : Option Plan)
      → Elem c (actions failed)
      → IsSoundState (m, best)
      → IsSoundState (relocate_sole ds by_id failed c blockers (m, best))
  relocate_sole-IsSound c [] m best i s = s
  relocate_sole-IsSound c (b ∷ k ∷ ks) m best i s = s
  relocate_sole-IsSound c (b ∷ []) m best i s = elim (Option-cases (lookup b m)) [
    | inl e ↦ rw (e, relocate_sole) s
    | inr (old, e) ↦ rw (e, relocate_sole) (relocate_blocker-IsSound c b old m best i e s)
  ]

  relocate_from-IsSound :
      (cs : List Action) (m : Assignments) (best : Option Plan)
      → Within cs (actions failed)
      → IsSoundState (m, best)
      → IsSoundState (relocate_from ds by_id failed cs (m, best))
  unfolding relocate_from
  relocate_from-IsSound [] m best w s = s
  relocate_from-IsSound (c ∷ cs) m best w s =
      relocate_from-IsSound cs _ _ (λ x i. w x (inr i))
        (relocate_sole-IsSound c (blocking_class_ids c m ds) m best (w c (inl refl)) s)

  apply_plan-IsSound :
      (m : Assignments) (best : Option Plan)
      → IsSoundState (m, best)
      → IsSound agents ds (apply_plan ds by_id failed (m, best)).0
  apply_plan-IsSound m none s = s.0
  apply_plan-IsSound m (some p) s = s.1

  -- Given an index of the listed classes and a listed class that failed, relocating one class keeps
  -- the room rule, the required distributions and that every placed class has one of its own
  -- actions, whether a plan is found or every trial is undone.
  pub repair_by_relocating_one-IsSound :
      (m : Assignments)
      → IsSound agents ds m
      → IsSound agents ds (repair_by_relocating_one ds by_id failed m).0
  unfolding repair_by_relocating_one
  repair_by_relocating_one-IsSound m s =
      apply_plan-IsSound _ _ (relocate_from-IsSound (actions failed) m none (λ x i. i) (s, tt))
