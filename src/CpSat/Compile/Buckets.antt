-- ===== src/CpSat/Compile/Buckets.antt =====
-- `_compile_conflict_buckets` excludes every two candidates of different classes that conflict,
-- though it tests one candidate of each bucket only.
use academic_affairs_system.Common.{
  ◌≡◌, ◌≢◌, refl, sym, subst, ◌∙◌, ◌⊎◌, inl, inr, Bool, true, false, List, [], ◌∷◌, arith, Elem,
  if◌then◌else◌,
}
use academic_affairs_system.Common.Text.{text_eq, text_eq_iff}
use academic_affairs_system.Common.Groups.{
  InGroup, IsKeyed, group_from, group_from-IsKeyed, group_from-InGroup,
}
use academic_affairs_system.CpSat.Candidates.{Candidate}
use academic_affairs_system.CpSat.Sources.{HardConflictSource}
use academic_affairs_system.CpSat.Conflicts.{
  Compiled, Signature, signature_eq, candidate_pair, add_group, add_pair, group_of, Bucket,
  add_bucket_groups, add_pairs_with, add_pairs_between, add_pairs_after, heads_conflict,
  add_bucket_pairs, compile_conflict_buckets,
}
use academic_affairs_system.CpSat.Compile.Grows.{
  set_add_self, add_bucket_groups-Grows, add_pairs_with-Grows, add_pairs_between-Grows,
  add_pairs_after-Grows, add_bucket_pairs-Grows,
}
use academic_affairs_system.CpSat.Compile.Exclusion.{
  Excluded, Excluded-Grows, Excluded-sym, signature_eq_sound, has_two_classes-true, Elem-group_of,
  Together,
}

module _ (source : HardConflictSource) (l r : Candidate) (apart : l.class_id ≢ r.class_id) where
  add_bucket_groups_covers :
      (bs : List Bucket) (s : Compiled)
      → Together l r bs
      → Excluded l r (add_bucket_groups source bs s)
  unfolding add_bucket_groups
  add_bucket_groups_covers [] s m = absurd m
  add_bucket_groups_covers ((k, b) ∷ bs) s (inl (i, j)) =
      subst
        (λ t.
          Excluded l r
            (add_bucket_groups source bs (if t then add_group source (group_of b) s else s)))
        (sym (has_two_classes-true l r b i j apart))
        (Excluded-Grows l r (add_group source (group_of b) s) _
          (add_bucket_groups-Grows source bs (add_group source (group_of b) s))
          (inl (
            group_of b,
            set_add_self (group_of b) s.hard_groups,
            Elem-group_of l b i,
            Elem-group_of r b j,
          )))
  add_bucket_groups_covers ((k, b) ∷ bs) s (inr m) = add_bucket_groups_covers bs _ m

  add_pairs_with_covers :
      (rs : List Candidate) (s : Compiled)
      → Elem r rs
      → Elem (candidate_pair l r) (add_pairs_with source l rs s).hard_pairs
  unfolding add_pairs_with
  add_pairs_with_covers [] s m = absurd m
  add_pairs_with_covers (x ∷ rs) s (inl e) =
      subst
        (λ w.
          Elem (candidate_pair l r)
            (add_pairs_with source l rs (
              if text_eq l.class_id w.class_id
              then s
              else add_pair source (candidate_pair l w) s)).hard_pairs)
        e
        (rw (different) (
          (add_pairs_with-Grows source l rs (add_pair source (candidate_pair l r) s)).pairs _
            (set_add_self (candidate_pair l r) s.hard_pairs)))
    where
      different : text_eq l.class_id r.class_id ≡ false
      different = ground (arith, text_eq_iff l.class_id r.class_id)
  add_pairs_with_covers (x ∷ rs) s (inr m) = add_pairs_with_covers rs _ m

  add_pairs_between_covers :
      (ls rs : List Candidate) (s : Compiled)
      → Elem l ls
      → Elem r rs
      → Elem (candidate_pair l r) (add_pairs_between source ls rs s).hard_pairs
  unfolding add_pairs_between
  add_pairs_between_covers [] rs s i j = absurd i
  add_pairs_between_covers (x ∷ ls) rs s (inl e) j =
      (add_pairs_between-Grows source ls rs _).pairs _ (
        subst (λ w. Elem (candidate_pair l r) (add_pairs_with source w rs s).hard_pairs) e
          (add_pairs_with_covers rs s j))
  add_pairs_between_covers (x ∷ ls) rs s (inr i) j = add_pairs_between_covers ls rs _ i j

module _ (source : HardConflictSource) (signature : Candidate → Signature)
    (conflicts : Candidate → Candidate → Bool)
    (respects : (a b c d : Candidate)
      → signature a ≡ signature c
      → signature b ≡ signature d
      → conflicts a b ≡ conflicts c d) where
  -- The first candidates of two buckets conflict if any two of them do.
  heads_conflict-true :
      (k j : Signature) (bs cs : List Candidate) (l r : Candidate)
      → ((y : Candidate) → Elem y bs → signature y ≡ k)
      → ((y : Candidate) → Elem y cs → signature y ≡ j)
      → Elem l bs
      → Elem r cs
      → conflicts l r ≡ true
      → heads_conflict conflicts bs cs ≡ true
  heads_conflict-true k j [] cs l r p q i m h = absurd i
  heads_conflict-true k j (b ∷ bs) [] l r p q i m h = absurd m
  heads_conflict-true k j (b ∷ bs) (c ∷ cs) l r p q i m h =
      respects b c l r (p b (inl refl) ∙ sym (p l i)) (q c (inl refl) ∙ sym (q r m)) ∙ h

  add_pairs_after_covers :
      (l r : Candidate) (k : Signature) (b : List Candidate) (bs : List Bucket) (s : Compiled)
      → l.class_id ≢ r.class_id
      → conflicts l r ≡ true
      → ((y : Candidate) → Elem y b → signature y ≡ k)
      → IsKeyed signature bs
      → Elem l b
      → InGroup r bs
      → Excluded l r (add_pairs_after source conflicts b bs s)
  unfolding add_pairs_after
  add_pairs_after_covers l r k b [] s n h p q i m = absurd m
  add_pairs_after_covers l r k b ((j, c) ∷ bs) s n h p q i (inl m) =
      subst
        (λ t.
          Excluded l r (
            add_pairs_after source conflicts b bs
              (if t then add_pairs_between source b c s else s)))
        (sym (heads_conflict-true k j b c l r p q.0 i m h))
        (Excluded-Grows l r (add_pairs_between source b c s) _
          (add_pairs_after-Grows source conflicts b bs (add_pairs_between source b c s))
          (inr (add_pairs_between_covers source l r n b c s i m)))
  add_pairs_after_covers l r k b ((j, c) ∷ bs) s n h p q i (inr m) =
      add_pairs_after_covers l r k b bs _ n h p q.1 i m

  module _ (comm : (a b : Candidate) → conflicts a b ≡ conflicts b a) where
    add_bucket_pairs_covers :
        (l r : Candidate) (bs : List Bucket) (s : Compiled)
        → l.class_id ≢ r.class_id
        → conflicts l r ≡ true
        → IsKeyed signature bs
        → InGroup l bs
        → InGroup r bs
        → Together l r bs ⊎ Excluded l r (add_bucket_pairs source conflicts bs s)
    unfolding add_bucket_pairs
    add_bucket_pairs_covers l r [] s n h q i j = absurd i
    add_bucket_pairs_covers l r ((k, b) ∷ bs) s n h q (inl i) (inl j) = inl (inl (i, j))
    add_bucket_pairs_covers l r ((k, b) ∷ bs) s n h q (inl i) (inr j) = inr (
        Excluded-Grows l r _ _
          (add_bucket_pairs-Grows source conflicts bs (add_pairs_after source conflicts b bs s))
          (add_pairs_after_covers l r k b bs s n h q.0 q.1 i j))
    add_bucket_pairs_covers l r ((k, b) ∷ bs) s n h q (inr i) (inl j) = inr (
        Excluded-Grows l r (add_pairs_after source conflicts b bs s) _
          (add_bucket_pairs-Grows source conflicts bs (add_pairs_after source conflicts b bs s))
          (Excluded-sym r l (add_pairs_after source conflicts b bs s)
            (add_pairs_after_covers r l k b bs s (λ e. n (sym e)) (comm r l ∙ h) q.0 q.1 j i)))
    add_bucket_pairs_covers l r ((k, b) ∷ bs) s n h q (inr i) (inr j) =
        elim (add_bucket_pairs_covers l r bs (add_pairs_after source conflicts b bs s) n h q.1 i
          j) [ inl t ↦ inl (inr t) | inr x ↦ inr x ]

    -- Two candidates of different classes that conflict are excluded by a group or a pair, if the
    -- conflict test is symmetric and depends on the signatures only.
    pub compile_conflict_buckets_excludes :
        (l r : Candidate) (cs : List Candidate) (s : Compiled)
        → Elem l cs
        → Elem r cs
        → l.class_id ≢ r.class_id
        → conflicts l r ≡ true
        → Excluded l r (compile_conflict_buckets source signature conflicts cs s)
    unfolding compile_conflict_buckets
    compile_conflict_buckets_excludes l r cs s i j n h =
        elim (add_bucket_pairs_covers l r buckets (add_bucket_groups source buckets s) n h
          (group_from-IsKeyed signature_eq signature_eq_sound signature cs [] tt)
          (group_from-InGroup signature_eq signature l cs [] i)
          (group_from-InGroup signature_eq signature r cs [] j)) [
            | inl t ↦
                Excluded-Grows l r (add_bucket_groups source buckets s) _
                  (add_bucket_pairs-Grows source conflicts buckets
                    (add_bucket_groups source buckets s))
                  (add_bucket_groups_covers source l r n buckets s t)
            | inr x ↦ x
          ]
      where
        buckets : List Bucket
        buckets = group_from signature_eq signature cs []
