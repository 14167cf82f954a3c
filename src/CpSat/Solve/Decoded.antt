-- ===== src/CpSat/Solve/Decoded.antt =====
-- The assignments read from values that satisfy the rows of the classes and the compiled conflicts.
use academic_affairs_system.Common.{
  ℕ, ◌≤◌, ◌≡◌, ◌≢◌, refl, sym, subst, ap, ◌∙◌, ◌⊎◌, inl, inr, Bool, true, List, [], ◌∷◌, Option,
  none, some, arith, Elem, Bool-cases,
}
use academic_affairs_system.Common.Text.{Text, text_eq_iff}
use academic_affairs_system.Common.Dict.{lookup, lookup-insert}
use academic_affairs_system.Cgcs.Model.{ClassAgent, Action, Assignments, Distribution, Problem}
use academic_affairs_system.Cgcs.Actions.Offers.{actions-class_id}
use academic_affairs_system.Cgcs.Checks.Hard.{HardValid, Compatible}
use academic_affairs_system.Cgcs.Greedy.Placing.{IsSound, Allowed}
use academic_affairs_system.CpSat.Candidates.{Candidate, create_candidates}
use academic_affairs_system.CpSat.Conflicts.{Compiled, candidate_pair}
use academic_affairs_system.CpSat.Compile.{or_nil, candidates_at, compile_constraints}
use academic_affairs_system.CpSat.Compile.Exclusion.{Excluded}
use academic_affairs_system.CpSat.Compile.Violations.{Known}
use academic_affairs_system.CpSat.Compile.Sound.{Compatible-unless-Excluded}
use academic_affairs_system.CpSat.Solve.{
  count_true, satisfies_conflicts, satisfies_compiled, first_chosen, keep_selected, read_from,
  read_assignments,
}
use academic_affairs_system.CpSat.Solve.Table.{
  Table, IsTable, DistinctKeys, lookup-Elem, create_candidates-IsTable,
}

module _ (x : ℕ → Bool) where
  count_true_ge_one : (n : ℕ) (g : List ℕ) → Elem n g → x n ≡ true → 1 ≤ count_true x g
  count_true_ge_one n [] i e = absurd i
  count_true_ge_one n (k ∷ g) (inl p) e = let first = subst (λ w. x w ≡ true) p e in ground arith
  count_true_ge_one n (k ∷ g) (inr i) e = ground (arith, count_true_ge_one n g i e)

  count_true_ge_two :
      (n k : ℕ) (g : List ℕ)
      → n ≢ k
      → Elem n g
      → Elem k g
      → x n ≡ true
      → x k ≡ true
      → 2 ≤ count_true x g
  count_true_ge_two n k [] ne i j e f = absurd i
  count_true_ge_two n k (h ∷ g) ne (inl p) (inl q) e f = absurd (ne (p ∙ sym q))
  count_true_ge_two n k (h ∷ g) ne (inl p) (inr j) e f =
      let first = subst (λ w. x w ≡ true) p e in ground (arith, count_true_ge_one k g j f)
  count_true_ge_two n k (h ∷ g) ne (inr i) (inl q) e f =
      let first = subst (λ w. x w ≡ true) q f in ground (arith, count_true_ge_one n g i e)
  count_true_ge_two n k (h ∷ g) ne (inr i) (inr j) e f =
      ground (arith, count_true_ge_two n k g ne i j e f)

  satisfies_conflicts-Elem :
      (gs : List (List ℕ)) (g : List ℕ)
      → satisfies_conflicts x gs ≡ true
      → Elem g gs
      → count_true x g ≤ 1
  unfolding satisfies_conflicts
  satisfies_conflicts-Elem [] g s i = absurd i
  satisfies_conflicts-Elem (h ∷ gs) g s (inl e) =
      subst (λ w. count_true x w ≤ 1) (sym e) (ground arith)
  satisfies_conflicts-Elem (h ∷ gs) g s (inr i) = satisfies_conflicts-Elem gs g (ground arith) i

  -- Values that satisfy the conflicts choose no two excluded candidates of different ordinals.
  not_both_chosen :
      (l r : Candidate) (c : Compiled)
      → satisfies_conflicts x c.hard_groups ≡ true
      → satisfies_conflicts x c.hard_pairs ≡ true
      → l.ordinal ≢ r.ordinal
      → x l.ordinal ≡ true
      → x r.ordinal ≡ true
      → ¬ Excluded l r c
  not_both_chosen l r c gs ps ne e f (inl (g, i, a, b)) =
      let most = satisfies_conflicts-Elem c.hard_groups g gs i in
      let least = count_true_ge_two l.ordinal r.ordinal g ne a b e f in omega arith
  not_both_chosen l r c gs ps ne e f (inr i) =
      let most = satisfies_conflicts-Elem c.hard_pairs (candidate_pair l r) ps i in ground arith

  first_chosen-Elem :
      (cs : List Candidate) (a : Action)
      → first_chosen x cs ≡ some a
      → (c : Candidate) × Elem c cs × (x c.ordinal ≡ true) × (c.action ≡ a)
  unfolding first_chosen
  first_chosen-Elem [] a e = cc
  first_chosen-Elem (c ∷ cs) a e = elim (Bool-cases (x c.ordinal)) [
    | inl h ↦ (c, inl refl, h, ground arith)
    | inr h ↦ let (d, i, p, q) = first_chosen-Elem cs a (rw h at e) in (d, inr i, p, q)
  ]

  -- An entry that is read is a chosen candidate of a table entry, or was there before.
  abbrev Read : Table → Assignments → Text → Action → Type 0
  Read t m k a =
      ((cs : List Candidate) × Elem (k, cs) t × (first_chosen x cs ≡ some a))
      ⊎ (lookup k m ≡ some a)

  keep_selected-lookup :
      (j k : Text) (o : Option Action) (m : Assignments) (a : Action)
      → lookup k (keep_selected j o m) ≡ some a
      → ((j ≡ k) × (o ≡ some a)) ⊎ (lookup k m ≡ some a)
  keep_selected-lookup j k none m a e = inr e
  keep_selected-lookup j k (some b) m a e = ground (arith, lookup-insert j k b m, text_eq_iff j k)

  read_from-lookup :
      (t : Table) (m : Assignments) (k : Text) (a : Action)
      → lookup k (read_from x t m) ≡ some a
      → Read t m k a
  unfolding read_from
  read_from-lookup [] m k a e = inr e
  read_from-lookup ((j, cs) ∷ t) m k a e =
      elim (read_from-lookup t (keep_selected j (first_chosen x cs) m) k a e) [
        | inl (ds, i, f) ↦ inl (ds, inr i, f)
        | inr old ↦ elim (keep_selected-lookup j k (first_chosen x cs) m a old) [
          | inl (p, f) ↦ inl (cs, inl (ap (λ w. (w, cs)) (sym p)), f)
          | inr older ↦ inr older
        ]
      ]

  -- What is read for a class is the action of a chosen candidate of its list.
  read_assignments-lookup :
      (t : Table) (k : Text) (a : Action)
      → DistinctKeys t
      → lookup k (read_assignments x t) ≡ some a
      → (cs : List Candidate) × (lookup k t ≡ some cs)
        × (c : Candidate) × Elem c cs
        × (x c.ordinal ≡ true)
        × (c.action ≡ a)
  unfolding read_assignments
  read_assignments-lookup t k a d e = elim (read_from-lookup t [] k a e) [
    | inl (cs, i, f) ↦
        let (c, j, h, p) = first_chosen-Elem cs a f in (cs, lookup-Elem k cs t d i, c, j, h, p)
    | inr e' ↦ cc
  ]

module _ (agents : List ClassAgent) (ds : List Distribution) (n : ℕ) (t : Table)
    (h : IsTable agents n t) (x : ℕ → Bool) where
  -- A chosen candidate that stands in the list of its class.
  record Chosen (k : Text) (a : Action) : Type 0 where
    list : List Candidate
    entry : lookup k t ≡ some list
    candidate : Candidate
    member : Elem candidate list
    chosen : x candidate.ordinal ≡ true
    action : candidate.action ≡ a

  Chosen-for : (k : Text) (a : Action) → lookup k (read_assignments x t) ≡ some a → Chosen k a
  Chosen-for k a e =
      let (cs, f, c, i, p, q) = read_assignments-lookup x t k a h.keys e in
      record { list = cs; entry = f; candidate = c; member = i; chosen = p; action = q }

  module _ (k : Text) (a : Action) (o : Chosen k a) where
    Chosen-class_id : o.candidate.class_id ≡ k
    Chosen-class_id = (h.listed k o.list o.candidate o.entry o.member).0

    Chosen-Allowed : Allowed agents k o.candidate.action
    Chosen-Allowed = (h.listed k o.list o.candidate o.entry o.member).2

    Chosen-action_class_id : o.candidate.action.class_id ≡ k
    Chosen-action_class_id =
        let (g, i, p, j) = Chosen-Allowed in actions-class_id g o.candidate.action j ∙ p

    Chosen-Known : Known t o.candidate
    Chosen-Known =
        subst (λ w. Elem o.candidate (candidates_at t w)) (sym Chosen-class_id)
          (subst (λ w. Elem o.candidate (or_nil w)) (sym o.entry) o.member)

  module _ (groups : satisfies_conflicts x (compile_constraints ds t).hard_groups ≡ true)
      (pairs : satisfies_conflicts x (compile_constraints ds t).hard_pairs ≡ true) where
    Chosen-Compatible :
        (k j : Text) (a b : Action) → k ≢ j → Chosen k a → Chosen j b → Compatible ds a b
    Chosen-Compatible k j a b ne o q =
        subst (λ w. Compatible ds w b) o.action
          (subst (λ w. Compatible ds o.candidate.action w) q.action
            (Compatible-unless-Excluded t o.candidate q.candidate
              (λ e. ne (sym (Chosen-class_id k a o) ∙ e ∙ Chosen-class_id j b q))
              (Chosen-Known k a o) (Chosen-Known j b q) ds
              (Chosen-action_class_id k a o ∙ sym (Chosen-class_id k a o))
              (Chosen-action_class_id j b q ∙ sym (Chosen-class_id j b q))
              (not_both_chosen x o.candidate q.candidate (compile_constraints ds t) groups pairs
                (h.apart k j o.list q.list o.candidate q.candidate ne o.entry q.entry o.member
                  q.member)
                o.chosen q.chosen)))

    read_assignments-HardValid : HardValid ds (read_assignments x t)
    read_assignments-HardValid = record {
      keyed = λ k a e.
          let o = Chosen-for k a e in
          subst (λ w. w.class_id ≡ k) o.action (Chosen-action_class_id k a o);
      apart = λ k j a b ne e f. Chosen-Compatible k j a b ne (Chosen-for k a e) (Chosen-for j b f);
    }

    read_assignments-IsSound_from : IsSound agents ds (read_assignments x t)
    read_assignments-IsSound_from = record {
      valid = read_assignments-HardValid;
      allowed = λ k a e.
          let o = Chosen-for k a e in
          subst (λ w. Allowed agents k w) o.action (Chosen-Allowed k a o);
    }

-- Whatever values satisfy the rows of the classes and of the compiled conflicts of a problem, in the
-- assignments read from them no two classes share a room at overlapping times or break a required
-- distribution that names both, and each class that they place has one of its own actions.
pub read_assignments-IsSound :
    (p : Problem) (x assigned : ℕ → Bool)
    → satisfies_compiled x assigned
        (create_candidates p.agents)
        (compile_constraints p.distributions (create_candidates p.agents).candidates_by_class)
      ≡ true
    → IsSound p.agents p.distributions
        (read_assignments x (create_candidates p.agents).candidates_by_class)
unfolding satisfies_compiled
read_assignments-IsSound p x assigned s =
    let (n, h) = create_candidates-IsTable p.agents in
    read_assignments-IsSound_from p.agents p.distributions n
      (create_candidates p.agents).candidates_by_class h x (ground arith) (ground arith)
