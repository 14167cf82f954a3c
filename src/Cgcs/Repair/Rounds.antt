-- ===== src/Cgcs/Repair/Rounds.antt =====
-- The `while pending` loop of `_repair_failed_agents` keeps the hard constraints and loses no class.
use academic_affairs_system.Common.{
  ℕ, ◌≡◌, refl, sym, subst, ap, ◌∙◌, ◌⊎◌, inl, inr, Bool, true, false, List, [], ◌∷◌, ◌++◌, Option,
  none, some, arith, Elem, Elem-append, Elem-append_left, Elem-append_right, Bool-cases, Within,
}
use academic_affairs_system.Common.Text.{Text, text_eq, text_eq_iff, text_eq_self}
use academic_affairs_system.Common.Dict.{insert, has_key, has_key-insert}
use academic_affairs_system.Cgcs.Model.{ClassAgent, Action, Distribution, Assignments}
use academic_affairs_system.Cgcs.Actions.{actions}
use academic_affairs_system.Cgcs.Greedy.Placing.{IsSound, IsSound-insert}
use academic_affairs_system.Cgcs.Repair.{
  Plan, Pass, relocate_from, apply_plan, repair_by_relocating_one, best_feasible_action,
  after_relocation, after_direct, repair_pass, begin_pass, repair_rounds,
}
use academic_affairs_system.Cgcs.Repair.Best.{IsFirstFit, best_feasible_action-IsFirstFit}
use academic_affairs_system.Cgcs.Repair.Undo.{IsIndex}
use academic_affairs_system.Cgcs.Repair.Relocation.{repair_by_relocating_one-IsSound}
use academic_affairs_system.Cgcs.Repair.Elsewhere.{relocate_from_elsewhere}
use academic_affairs_system.Cgcs.Repair.Ending.{repair_rounds_inv}

-- Some listed class has this id.
abbrev pub HasId : Text → List ClassAgent → Type 0
HasId k gs = (g : ClassAgent) × Elem g gs × (g.class_id ≡ k)

-- The id is placed, or a class with it remains.
abbrev pub CoveredId : Assignments → List ClassAgent → Text → Type 0
CoveredId m gs k = (has_key k m ≡ true) ⊎ HasId k gs

has_key-insert_self :
    {V : Type 0} (k : Text) (v : V) (m : List (Text × V)) → has_key k (insert k v m) ≡ true
has_key-insert_self k v m = ground (arith, has_key-insert k k v m, text_eq_self k)

has_key-insert_keeps :
    {V : Type 0} (k j : Text) (v : V) (m : List (Text × V))
    → has_key j m ≡ true
    → has_key j (insert k v m) ≡ true
has_key-insert_keeps k j v m h = ground (arith, has_key-insert k j v m)

HasId-append :
    (k : Text) (g : ClassAgent) (gs : List ClassAgent) → HasId k gs → HasId k (gs ++ g ∷ [])
HasId-append k g gs (h, i, e) = (h, Elem-append_left h gs (g ∷ []) i, e)

module _ (ds : List Distribution) (by_id : List (Text × ClassAgent)) where
  apply_plan-CoveredId :
      (g : ClassAgent) (m : Assignments) (best : Option Plan) (s : Pass) (k : Text)
      → (g.class_id ≡ k) ⊎ ((has_key k m ≡ true) ⊎ HasId k s.remaining)
      → CoveredId
          (after_relocation g s (apply_plan ds by_id g (m, best))).assignments
          (after_relocation g s (apply_plan ds by_id g (m, best))).remaining
          k
  apply_plan-CoveredId g m none s k (inl e) =
      inr (g, Elem-append_right g s.remaining (g ∷ []) (inl refl), e)
  apply_plan-CoveredId g m none s k (inr (inl h)) = inl h
  apply_plan-CoveredId g m none s k (inr (inr i)) = inr (HasId-append k g s.remaining i)
  apply_plan-CoveredId g m (some p) s k (inl e) = inl (
      has_key-insert_keeps p.blocker_id k p.replacement _ (
        subst (λ j. has_key j (insert g.class_id p.candidate m) ≡ true) e
          (has_key-insert_self g.class_id p.candidate m)))
  apply_plan-CoveredId g m (some p) s k (inr (inl h)) = inl (
      has_key-insert_keeps p.blocker_id k p.replacement _
        (has_key-insert_keeps g.class_id k p.candidate m h))
  apply_plan-CoveredId g m (some p) s k (inr (inr i)) = inr i

  after_direct-CoveredId :
      (g : ClassAgent) (s : Pass) (r : Option Action) (k : Text)
      → (g.class_id ≡ k) ⊎ CoveredId s.assignments s.remaining k
      → CoveredId
          (after_direct ds by_id g s r).assignments
          (after_direct ds by_id g s r).remaining
          k
  unfolding repair_by_relocating_one
  after_direct-CoveredId g s (some a) k (inl e) = inl (
      subst (λ j. has_key j (insert g.class_id a s.assignments) ≡ true) e
        (has_key-insert_self g.class_id a s.assignments))
  after_direct-CoveredId g s (some a) k (inr (inl h)) =
      inl (has_key-insert_keeps g.class_id k a s.assignments h)
  after_direct-CoveredId g s (some a) k (inr (inr i)) = inr i
  after_direct-CoveredId g s none k c =
      apply_plan-CoveredId g _ (relocate_from ds by_id g (actions g) (s.assignments, none)).1 s k
        (sift c)
    where
      searched : Assignments
      searched = (relocate_from ds by_id g (actions g) (s.assignments, none)).0

      kept : has_key k s.assignments ≡ true → (g.class_id ≡ k) ⊎ (has_key k searched ≡ true)
      kept h = elim (Bool-cases (text_eq g.class_id k)) [
        | inl e ↦ inl ((text_eq_iff g.class_id k).0 e)
        | inr e ↦
            inr (
              ground (arith, relocate_from_elsewhere ds by_id g (actions g) s.assignments none k e))
      ]

      sift :
          (g.class_id ≡ k) ⊎ CoveredId s.assignments s.remaining k
          → (g.class_id ≡ k) ⊎ CoveredId searched s.remaining k
      sift (inl e) = inl e
      sift (inr (inr i)) = inr (inr i)
      sift (inr (inl h)) = elim (kept h) [ inl e ↦ inl e | inr h' ↦ inr (inl h') ]

  repair_pass-CoveredId :
      (gs : List ClassAgent) (s : Pass) (k : Text)
      → HasId k gs ⊎ CoveredId s.assignments s.remaining k
      → CoveredId (repair_pass ds by_id gs s).assignments (repair_pass ds by_id gs s).remaining k
  unfolding repair_pass
  repair_pass-CoveredId [] s k (inl (g, i, e)) = absurd i
  repair_pass-CoveredId [] s k (inr c) = c
  repair_pass-CoveredId (g ∷ gs) s k c = repair_pass-CoveredId gs _ k (elim c [
    | inl (h, i, e) ↦ elim i [
      | inl same ↦ inr (direct (inl (ap (λ (x : ClassAgent). x.class_id) (sym same) ∙ e)))
      | inr later ↦ inl (h, later, e)
    ]
    | inr d ↦ inr (direct (inr d))
  ])
    where
      direct :
          (g.class_id ≡ k) ⊎ CoveredId s.assignments s.remaining k
          → CoveredId
              (after_direct ds by_id g s (best_feasible_action g s.assignments ds)).assignments
              (after_direct ds by_id g s (best_feasible_action g s.assignments ds)).remaining
              k
      direct = after_direct-CoveredId g s (best_feasible_action g s.assignments ds) k

  pub repair_rounds-CoveredId :
      (fuel : ℕ) (gs : List ClassAgent) (m : Assignments) (r : Assignments × List ClassAgent)
      (k : Text)
      → repair_rounds ds by_id fuel gs m ≡ some r
      → CoveredId m gs k
      → CoveredId r.0 r.1 k
  repair_rounds-CoveredId fuel gs m r k e c =
      repair_rounds_inv ds by_id (λ (x : Assignments × List ClassAgent). CoveredId x.0 x.1 k)
        (λ hs n d. repair_pass-CoveredId hs (begin_pass ds by_id n) k (start n hs d)) fuel gs m r e
        c
    where
      start :
          (n : Assignments) (hs : List ClassAgent)
          → CoveredId n hs k
          → HasId k hs ⊎ CoveredId n [] k
      start n hs (inl h) = inr (inl h)
      start n hs (inr i) = inl i

module _ (agents : List ClassAgent) (ds : List Distribution) (by_id : List (Text × ClassAgent))
    (index : IsIndex agents by_id) where
  -- The assignments are sound, and what remains is listed.
  abbrev IsSoundPass : Pass → Type 0
  IsSoundPass s = IsSound agents ds s.assignments × Within s.remaining agents

  after_relocation-IsSound :
      (g : ClassAgent) (s : Pass) (r : Assignments × Bool)
      → Elem g agents
      → IsSound agents ds r.0
      → Within s.remaining agents
      → IsSoundPass (after_relocation g s r)
  after_relocation-IsSound g s (m, true) i v w = (v, w)
  after_relocation-IsSound g s (m, false) i v w =
      (v, λ x j. listed x (Elem-append x s.remaining (g ∷ []) j))
    where
      listed : (x : ClassAgent) → Elem x s.remaining ⊎ Elem x (g ∷ []) → Elem x agents
      listed x (inl j) = w x j
      listed x (inr (inl e)) = subst (λ y. Elem y agents) (sym e) i
      listed x (inr (inr n)) = absurd n

  after_direct-IsSound :
      (g : ClassAgent) (s : Pass) (r : Option Action)
      → Elem g agents
      → IsFirstFit g s.assignments ds r
      → IsSoundPass s
      → IsSoundPass (after_direct ds by_id g s r)
  after_direct-IsSound g s (some a) i f v =
      (IsSound-insert agents ds g a s.assignments v.0 i f.0 f.1, v.1)
  after_direct-IsSound g s none i f v =
      after_relocation-IsSound g s _ i
        (repair_by_relocating_one-IsSound agents ds by_id g index i s.assignments v.0) v.1

  repair_pass-IsSound :
      (gs : List ClassAgent) (s : Pass)
      → Within gs agents
      → IsSoundPass s
      → IsSoundPass (repair_pass ds by_id gs s)
  unfolding repair_pass
  repair_pass-IsSound [] s w v = v
  repair_pass-IsSound (g ∷ gs) s w v =
      repair_pass-IsSound gs _ (λ x i. w x (inr i))
        (after_direct-IsSound g s (best_feasible_action g s.assignments ds) (w g (inl refl))
          (best_feasible_action-IsFirstFit g s.assignments ds) v)

  pub repair_rounds-IsSound :
      (fuel : ℕ) (gs : List ClassAgent) (m : Assignments) (r : Assignments × List ClassAgent)
      → repair_rounds ds by_id fuel gs m ≡ some r
      → Within gs agents
      → IsSound agents ds m
      → IsSound agents ds r.0 × Within r.1 agents
  repair_rounds-IsSound fuel gs m r e w v =
      repair_rounds_inv ds by_id
        (λ (x : Assignments × List ClassAgent). IsSound agents ds x.0 × Within x.1 agents)
        (λ hs n d. repair_pass-IsSound hs (begin_pass ds by_id n) d.1 (d.0, λ x i. absurd i)) fuel
        gs m r e (v, w)
