-- ===== src/CpSat/Compile/Grows.antt =====
-- The compiled constraints only grow.
use academic_affairs_system.Common.{
  ℕ, refl, inl, inr, Bool, true, false, ◌&&◌, List, [], ◌∷◌, Elem, Elem-append_left,
  Elem-append_right, Bool-cases, if◌then◌else◌,
}
use academic_affairs_system.Common.Text.{Text, text_eq, contains, set_add, Elem-of-contains}
use academic_affairs_system.Common.Groups.{group_from}
use academic_affairs_system.Cgcs.Model.{Distribution}
use academic_affairs_system.Cgcs.Rules.{violates}
use academic_affairs_system.CpSat.Candidates.{Candidate}
use academic_affairs_system.CpSat.Sources.{
  HardConflictSource, room_source, distribution_conflict_source,
}
use academic_affairs_system.CpSat.Compile.{
  add_if_violated, add_violation, add_violations_with, add_violations, add_combinations_with,
  add_combinations, compile_distribution, compile_distributions, compile_rooms, candidates_at,
  is_bucketed, candidates_of_ids, known_ids,
}
use academic_affairs_system.CpSat.Conflicts.{
  Compiled, candidate_pair, add_group, add_pair, has_two_classes, group_of, Bucket,
  add_bucket_groups, add_pairs_with, add_pairs_between, add_pairs_after, heads_conflict,
  add_bucket_pairs, compile_conflict_buckets, Signature, signature_eq, distribution_signature,
}

pub set_add_keeps : (x y : Text) (xs : List Text) → Elem x xs → Elem x (set_add y xs)
set_add_keeps x y xs m = elim (Bool-cases (contains y xs)) [
  | inl e ↦ rw e m
  | inr e ↦ rw e (Elem-append_left x xs (y ∷ []) m)
]

pub set_add_self : (x : Text) (xs : List Text) → Elem x (set_add x xs)
set_add_self x xs = elim (Bool-cases (contains x xs)) [
  | inl e ↦ rw e (Elem-of-contains x xs e)
  | inr e ↦ rw e (Elem-append_right x xs (x ∷ []) (inl refl))
]

-- Every hard group and pair of the first stands in the second.
pub record Grows (s t : Compiled) : Type 0 where
  pub groups : (g : List ℕ) → Elem g s.hard_groups → Elem g t.hard_groups
  pub pairs : (p : List ℕ) → Elem p s.hard_pairs → Elem p t.hard_pairs

pub Grows-refl : (s : Compiled) → Grows s s
Grows-refl s = record { groups = λ g i. i; pairs = λ p i. i }

pub Grows-trans : (s t u : Compiled) → Grows s t → Grows t u → Grows s u
Grows-trans s t u a b = record {
  groups = λ g i. b.groups g (a.groups g i);
  pairs = λ p i. b.pairs p (a.pairs p i);
}

pub Grows-if : (b : Bool) (s t u : Compiled) → Grows s t → Grows s u → Grows s (if b then t else u)
Grows-if true s t u h k = h
Grows-if false s t u h k = k

Grows-group :
    (source : HardConflictSource) (g : List ℕ) (s : Compiled) → Grows s (add_group source g s)
Grows-group source g s = record {
  groups = λ h i. set_add_keeps h g s.hard_groups i;
  pairs = λ p i. i;
}

pub Grows-pair :
    (source : HardConflictSource) (p : List ℕ) (s : Compiled) → Grows s (add_pair source p s)
Grows-pair source p s = record {
  groups = λ h i. i;
  pairs = λ q i. set_add_keeps q p s.hard_pairs i;
}

module _ (source : HardConflictSource) where
  pub add_bucket_groups-Grows :
      (bs : List Bucket) (s : Compiled) → Grows s (add_bucket_groups source bs s)
  unfolding add_bucket_groups
  add_bucket_groups-Grows [] s = Grows-refl s
  add_bucket_groups-Grows ((k, b) ∷ bs) s =
      Grows-trans s _ _
        (Grows-if (has_two_classes b) s _ s (Grows-group source (group_of b) s) (Grows-refl s))
        (add_bucket_groups-Grows bs _)

  pub add_pairs_with-Grows :
      (l : Candidate) (rs : List Candidate) (s : Compiled) → Grows s (add_pairs_with source l rs s)
  unfolding add_pairs_with
  add_pairs_with-Grows l [] s = Grows-refl s
  add_pairs_with-Grows l (r ∷ rs) s =
      Grows-trans s _ _
        (Grows-if (text_eq l.class_id r.class_id) s s _ (Grows-refl s)
          (Grows-pair source (candidate_pair l r) s))
        (add_pairs_with-Grows l rs _)

  pub add_pairs_between-Grows :
      (ls rs : List Candidate) (s : Compiled) → Grows s (add_pairs_between source ls rs s)
  unfolding add_pairs_between
  add_pairs_between-Grows [] rs s = Grows-refl s
  add_pairs_between-Grows (l ∷ ls) rs s =
      Grows-trans s _ _ (add_pairs_with-Grows l rs s) (add_pairs_between-Grows ls rs _)

  module _ (conflicts : Candidate → Candidate → Bool) where
    pub add_pairs_after-Grows :
        (b : List Candidate) (bs : List Bucket) (s : Compiled)
        → Grows s (add_pairs_after source conflicts b bs s)
    unfolding add_pairs_after
    add_pairs_after-Grows b [] s = Grows-refl s
    add_pairs_after-Grows b ((k, r) ∷ bs) s =
        Grows-trans s _ _
          (Grows-if (heads_conflict conflicts b r) s _ s (add_pairs_between-Grows b r s)
            (Grows-refl s))
          (add_pairs_after-Grows b bs _)

    pub add_bucket_pairs-Grows :
        (bs : List Bucket) (s : Compiled) → Grows s (add_bucket_pairs source conflicts bs s)
    unfolding add_bucket_pairs
    add_bucket_pairs-Grows [] s = Grows-refl s
    add_bucket_pairs-Grows ((k, b) ∷ bs) s =
        Grows-trans s _ _ (add_pairs_after-Grows b bs s) (add_bucket_pairs-Grows bs _)

pub compile_conflict_buckets-Grows :
    (source : HardConflictSource) (signature : Candidate → Signature)
    (conflicts : Candidate → Candidate → Bool) (cs : List Candidate) (s : Compiled)
    → Grows s (compile_conflict_buckets source signature conflicts cs s)
unfolding compile_conflict_buckets
compile_conflict_buckets-Grows source signature conflicts cs s =
    Grows-trans s (add_bucket_groups source (group_from signature_eq signature cs []) s) _
      (add_bucket_groups-Grows source (group_from signature_eq signature cs []) s)
      (add_bucket_pairs-Grows source conflicts (group_from signature_eq signature cs []) _)

pub compile_rooms-Grows :
    (rooms : List (Text × List Candidate)) (s : Compiled) → Grows s (compile_rooms rooms s)
unfolding compile_rooms
compile_rooms-Grows [] s = Grows-refl s
compile_rooms-Grows ((k, cs) ∷ rooms) s =
    Grows-trans s _ _ (compile_conflict_buckets-Grows (room_source k) _ _ cs s)
      (compile_rooms-Grows rooms _)

module _ (d : Distribution) where
  add_violation-Grows : (p : List ℕ) (s : Compiled) → Grows s (add_violation d p s)
  add_violation-Grows p s =
      Grows-if d.required s _ _ (Grows-pair (distribution_conflict_source d) p s)
        (record { groups = λ g i. i; pairs = λ q i. i })

  add_if_violated-Grows : (l r : Candidate) (s : Compiled) → Grows s (add_if_violated d l r s)
  add_if_violated-Grows l r s =
      Grows-if (violates d l.action r.action) s _ s (add_violation-Grows (candidate_pair l r) s)
        (Grows-refl s)

  pub add_violations_with-Grows :
      (l : Candidate) (rs : List Candidate) (s : Compiled) → Grows s (add_violations_with d l rs s)
  unfolding add_violations_with
  add_violations_with-Grows l [] s = Grows-refl s
  add_violations_with-Grows l (r ∷ rs) s =
      Grows-trans s _ _ (add_if_violated-Grows l r s) (add_violations_with-Grows l rs _)

  pub add_violations-Grows :
      (ls rs : List Candidate) (s : Compiled) → Grows s (add_violations d ls rs s)
  unfolding add_violations
  add_violations-Grows [] rs s = Grows-refl s
  add_violations-Grows (l ∷ ls) rs s =
      Grows-trans s _ _ (add_violations_with-Grows l rs s) (add_violations-Grows ls rs _)

  module _ (by_class : List (Text × List Candidate)) where
    pub add_combinations_with-Grows :
        (k : Text) (ids : List Text) (s : Compiled)
        → Grows s (add_combinations_with d by_class k ids s)
    unfolding add_combinations_with
    add_combinations_with-Grows k [] s = Grows-refl s
    add_combinations_with-Grows k (j ∷ ids) s =
        Grows-trans s _ _
          (add_violations-Grows (candidates_at by_class k) (candidates_at by_class j) s)
          (add_combinations_with-Grows k ids _)

    pub add_combinations-Grows :
        (ids : List Text) (s : Compiled) → Grows s (add_combinations d by_class ids s)
    unfolding add_combinations
    add_combinations-Grows [] s = Grows-refl s
    add_combinations-Grows (k ∷ ids) s =
        Grows-trans s _ _ (add_combinations_with-Grows k ids s) (add_combinations-Grows ids _)

    pub compile_distribution-Grows : (s : Compiled) → Grows s (compile_distribution d by_class s)
    unfolding compile_distribution
    compile_distribution-Grows s =
        Grows-if (d.required && is_bucketed d.distribution_type) s _ _
          (compile_conflict_buckets-Grows (distribution_conflict_source d)
            (distribution_signature d.distribution_type) (λ l r. violates d l.action r.action)
            (candidates_of_ids by_class (known_ids by_class d)) s)
          (add_combinations-Grows (known_ids by_class d) s)

pub compile_distributions-Grows :
    (ds : List Distribution) (by_class : List (Text × List Candidate)) (s : Compiled)
    → Grows s (compile_distributions ds by_class s)
unfolding compile_distributions
compile_distributions-Grows [] by_class s = Grows-refl s
compile_distributions-Grows (d ∷ ds) by_class s =
    Grows-trans s _ _ (compile_distribution-Grows d by_class s)
      (compile_distributions-Grows ds by_class _)
