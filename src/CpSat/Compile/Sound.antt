-- ===== src/CpSat/Compile/Sound.antt =====
-- `_compile_constraints` excludes every two candidates that cannot stand together.
use academic_affairs_system.Common.{
  ◌≡◌, ◌≢◌, sym, subst, inl, inr, true, false, ◌&&◌, List, [], ◌∷◌, arith, Elem, select_keeps,
  Bool-cases, if◌then◌else◌,
}
use academic_affairs_system.Common.Text.{Text, contains, Elem-of-contains, is_truthy}
use academic_affairs_system.Common.Dict.{has_key}
use academic_affairs_system.Cgcs.Model.{Distribution}
use academic_affairs_system.Cgcs.Rules.{violates}
use academic_affairs_system.Cgcs.Rules.Symmetry.{violates_comm}
use academic_affairs_system.Cgcs.Checks.{same_room_overlap}
use academic_affairs_system.Cgcs.Checks.Hard.{Compatible}
use academic_affairs_system.CpSat.Candidates.{Candidate}
use academic_affairs_system.CpSat.Sources.{distribution_conflict_source}
use academic_affairs_system.CpSat.Compile.{
  is_bucketed, add_combinations, candidates_of_ids, known_ids, compile_distribution,
  compile_distributions, nothing_compiled, compile_constraints,
}
use academic_affairs_system.CpSat.Conflicts.{
  Compiled, distribution_signature, compile_conflict_buckets,
}
use academic_affairs_system.CpSat.Compile.Grows.{compile_distributions-Grows}
use academic_affairs_system.CpSat.Compile.Exclusion.{Excluded, Excluded-Grows}
use academic_affairs_system.CpSat.Compile.Buckets.{compile_conflict_buckets_excludes}
use academic_affairs_system.CpSat.Compile.Violations.{
  violates_respects, Known, has_key-of-Known, room-Excluded, add_combinations_covers,
  candidates_of_ids-Elem,
}

module _ (by_class : List (Text × List Candidate)) (l r : Candidate)
    (apart : l.class_id ≢ r.class_id) (left_known : Known by_class l)
    (right_known : Known by_class r) where
  distribution-Excluded :
      (d : Distribution) (s : Compiled)
      → d.required ≡ true
      → contains l.class_id d.class_ids ≡ true
      → contains r.class_id d.class_ids ≡ true
      → violates d l.action r.action ≡ true
      → Excluded l r (compile_distribution d by_class s)
  unfolding compile_distribution
  distribution-Excluded d s q a b h = elim (Bool-cases (is_bucketed d.distribution_type)) [
    | inl e ↦
        subst (λ t. Excluded l r (if t then bucketed else combined)) (sym (both e))
          (compile_conflict_buckets_excludes (distribution_conflict_source d)
            (distribution_signature d.distribution_type) (λ x y. violates d x.action y.action)
            (λ x y z w u v. rule e x y z w u v) (λ x y. violates_comm d x.action y.action) l r
            (candidates_of_ids by_class (known_ids by_class d)) s
            (candidates_of_ids-Elem by_class (known_ids by_class d) l left_known left_id)
            (candidates_of_ids-Elem by_class (known_ids by_class d) r right_known right_id) apart h)
    | inr e ↦
        subst (λ t. Excluded l r (if t then bucketed else combined)) (sym (neither e))
          (add_combinations_covers l r d by_class (known_ids by_class d) s apart h q left_known
            right_known left_id right_id)
  ]
    where
      bucketed : Compiled
      bucketed =
          compile_conflict_buckets (distribution_conflict_source d)
            (distribution_signature d.distribution_type) (λ x y. violates d x.action y.action)
            (candidates_of_ids by_class (known_ids by_class d)) s

      combined : Compiled
      combined = add_combinations d by_class (known_ids by_class d) s

      both :
          is_bucketed d.distribution_type ≡ true
          → (d.required && is_bucketed d.distribution_type) ≡ true
      both e = ground arith

      neither :
          is_bucketed d.distribution_type ≡ false
          → (d.required && is_bucketed d.distribution_type) ≡ false
      neither e = ground arith

      rule :
          is_bucketed d.distribution_type ≡ true
          → (x y z w : Candidate)
          → distribution_signature d.distribution_type x
            ≡ distribution_signature d.distribution_type z
          → distribution_signature d.distribution_type y
            ≡ distribution_signature d.distribution_type w
          → violates d x.action y.action ≡ violates d z.action w.action
      rule e x y z w u v = unfold violates in violates_respects d.distribution_type d x y z w e u v

      left_id : Elem l.class_id (known_ids by_class d)
      left_id =
          select_keeps (λ k. has_key k by_class) l.class_id d.class_ids
            (Elem-of-contains l.class_id d.class_ids a) (has_key-of-Known by_class l left_known)

      right_id : Elem r.class_id (known_ids by_class d)
      right_id =
          select_keeps (λ k. has_key k by_class) r.class_id d.class_ids
            (Elem-of-contains r.class_id d.class_ids b) (has_key-of-Known by_class r right_known)

  distributions-Excluded :
      (ds : List Distribution) (d : Distribution) (s : Compiled)
      → Elem d ds
      → d.required ≡ true
      → contains l.class_id d.class_ids ≡ true
      → contains r.class_id d.class_ids ≡ true
      → violates d l.action r.action ≡ true
      → Excluded l r (compile_distributions ds by_class s)
  unfolding compile_distributions
  distributions-Excluded [] d s m q a b h = absurd m
  distributions-Excluded (x ∷ ds) d s (inl e) q a b h =
      Excluded-Grows l r _ _
        (compile_distributions-Grows ds by_class (compile_distribution x by_class s))
        (subst (λ w. Excluded l r (compile_distribution w by_class s)) e
          (distribution-Excluded d s q a b h))
  distributions-Excluded (x ∷ ds) d s (inr m) q a b h = distributions-Excluded ds d _ m q a b h

  -- Two candidates of different classes that stand in the table by class, and whose actions are of
  -- these classes, are compatible if no compiled group or pair excludes both: they do not share a
  -- room at overlapping times and break no required distribution that names both classes.
  pub Compatible-unless-Excluded :
      (ds : List Distribution)
      → l.action.class_id ≡ l.class_id
      → r.action.class_id ≡ r.class_id
      → ¬ Excluded l r (compile_constraints ds by_class)
      → Compatible ds l.action r.action
  unfolding compile_constraints
  Compatible-unless-Excluded ds p q free = record {
    rooms = elim (Bool-cases (is_truthy l.action.room_id && same_room_overlap l.action r.action)) [
      | inl e ↦ absurd (
          free (
            Excluded-Grows l r _ _ (compile_distributions-Grows ds by_class _)
              (room-Excluded l r apart by_class left_known right_known nothing_compiled e)))
      | inr e ↦ e
    ];
    rules = λ d i hard a b. elim (Bool-cases (violates d l.action r.action)) [
      | inl e ↦ absurd (
          free (
            distributions-Excluded ds d _ i hard (subst (λ k. contains k d.class_ids ≡ true) p a)
              (subst (λ k. contains k d.class_ids ≡ true) q b) e))
      | inr e ↦ e
    ];
  }
