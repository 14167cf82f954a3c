-- ===== src/CpSat/Compile/Violations.antt =====
-- How `_compile_constraints` excludes two candidates that overlap in a room or break a distribution.
use academic_affairs_system.Common.{
  ◌≡◌, ◌≢◌, sym, ap, subst, ◌∙◌, inl, inr, true, false, ◌&&◌, List, [], ◌∷◌, some, arith, Elem,
  Elem-append_left, Elem-append_right, select_keeps, Bool-cases, Option-cases, if◌then◌else◌,
}
use academic_affairs_system.Common.Text.{
  Text, text_eq, text_eq_self, is_truthy, or_empty, option_text_eq_sound,
}
use academic_affairs_system.Common.Dict.{lookup, values, has_key}
use academic_affairs_system.Common.Groups.{Joined, group_from-Joined}
use academic_affairs_system.Cgcs.Model.{
  Distribution, DistributionType, not_overlap, same_room, different_time, different_days,
  different_weeks, same_days, same_start, same_time, precedence, consecutive,
  different_week_same_day_same_start, other,
}
use academic_affairs_system.Cgcs.Times.{overlaps}
use academic_affairs_system.Cgcs.Times.Overlap.{overlaps_comm}
use academic_affairs_system.Cgcs.Rules.{violates, violates_type}
use academic_affairs_system.Cgcs.Rules.Symmetry.{violates_comm}
use academic_affairs_system.Cgcs.Checks.{same_room_overlap}
use academic_affairs_system.CpSat.Candidates.{Candidate}
use academic_affairs_system.CpSat.Sources.{room_source}
use academic_affairs_system.CpSat.Compile.{
  all_candidates, candidates_by_room, candidates_overlap, compile_rooms, is_bucketed,
  add_if_violated, add_violations_with, add_violations, add_combinations_with, add_combinations,
  candidates_at, or_nil, candidates_of_ids,
}
use academic_affairs_system.CpSat.Conflicts.{
  Compiled, time_signature, distribution_signature, candidate_pair, compile_conflict_buckets,
}
use academic_affairs_system.CpSat.Compile.Grows.{
  compile_rooms-Grows, add_violations_with-Grows, add_violations-Grows, add_combinations_with-Grows,
  add_combinations-Grows, set_add_self,
}
use academic_affairs_system.CpSat.Compile.Exclusion.{Excluded, Excluded-Grows, Excluded-sym}
use academic_affairs_system.CpSat.Compile.Buckets.{compile_conflict_buckets_excludes}

pub overlap_respects :
    (a b c d : Candidate)
    → time_signature a.action.time ≡ time_signature c.action.time
    → time_signature b.action.time ≡ time_signature d.action.time
    → candidates_overlap a b ≡ candidates_overlap c d
unfolding overlaps
overlap_respects a b c d e f = ground arith

pub violates_respects :
    (t : DistributionType) (g : Distribution) (a b c d : Candidate)
    → is_bucketed t ≡ true
    → distribution_signature t a ≡ distribution_signature t c
    → distribution_signature t b ≡ distribution_signature t d
    → violates_type t g a.action b.action ≡ violates_type t g c.action d.action
unfolding violates_type overlaps
violates_respects not_overlap g a b c d i e f = ground arith
violates_respects different_days g a b c d i e f = ground arith
violates_respects different_weeks g a b c d i e f = ground arith
violates_respects different_time g a b c d i e f = ground arith
violates_respects same_room g a b c d i e f = cc
violates_respects same_days g a b c d i e f = cc
violates_respects same_start g a b c d i e f = cc
violates_respects same_time g a b c d i e f = cc
violates_respects precedence g a b c d i e f = cc
violates_respects consecutive g a b c d i e f = cc
violates_respects different_week_same_day_same_start g a b c d i e f = cc
violates_respects (other t) g a b c d i e f = cc

-- The candidate stands among those of its class.
abbrev pub Known : List (Text × List Candidate) → Candidate → Type 0
Known by_class c = Elem c (candidates_at by_class c.class_id)

pub has_key-of-Known :
    (by_class : List (Text × List Candidate)) (c : Candidate)
    → Known by_class c
    → has_key c.class_id by_class ≡ true
has_key-of-Known by_class c k = elim (Option-cases (lookup c.class_id by_class)) [
  | inl e ↦ absurd (subst (λ o. Elem c (or_nil o)) e k)
  | inr (cs, e) ↦ ground arith
]

all_candidates-at :
    (by_class : List (Text × List Candidate)) (k : Text) (c : Candidate)
    → Elem c (candidates_at by_class k)
    → Elem c (all_candidates (values by_class))
unfolding all_candidates
all_candidates-at [] k c m = absurd m
all_candidates-at ((j, cs) ∷ by_class) k c m = elim (Bool-cases (text_eq j k)) [
  | inl e ↦ Elem-append_left c cs (all_candidates (values by_class)) (found e)
  | inr e ↦
      Elem-append_right c cs (all_candidates (values by_class))
        (all_candidates-at by_class k c (passed e))
]
  where
    found : text_eq j k ≡ true → Elem c cs
    found e = subst (λ b. Elem c (or_nil (if b then some cs else lookup k by_class))) e m

    passed : text_eq j k ≡ false → Elem c (candidates_at by_class k)
    passed e = subst (λ b. Elem c (or_nil (if b then some cs else lookup k by_class))) e m

module _ (l r : Candidate) (apart : l.class_id ≢ r.class_id) where
  compile_rooms_covers :
      (rooms : List (Text × List Candidate)) (s : Compiled)
      → candidates_overlap l r ≡ true
      → Joined l r rooms
      → Excluded l r (compile_rooms rooms s)
  unfolding compile_rooms
  compile_rooms_covers [] s h m = absurd m
  compile_rooms_covers ((k, cs) ∷ rooms) s h (inl (i, j)) =
      Excluded-Grows l r _ _
        (compile_rooms-Grows rooms (
          compile_conflict_buckets (room_source k) (λ c. time_signature c.action.time)
            candidates_overlap cs s))
        (compile_conflict_buckets_excludes (room_source k) (λ c. time_signature c.action.time)
          candidates_overlap overlap_respects (λ a b. overlaps_comm a.action.time b.action.time) l r
          cs s i j apart h)
  compile_rooms_covers ((k, cs) ∷ rooms) s h (inr m) = compile_rooms_covers rooms _ h m

  module _ (by_class : List (Text × List Candidate)) (left_known : Known by_class l)
      (right_known : Known by_class r) where
    pub room-Excluded :
        (s : Compiled)
        → (is_truthy l.action.room_id && same_room_overlap l.action r.action) ≡ true
        → Excluded l r (compile_rooms (candidates_by_room (all_candidates (values by_class))) s)
    unfolding candidates_by_room same_room_overlap
    room-Excluded s h =
        compile_rooms_covers (candidates_by_room (all_candidates (values by_class))) s
          (ground arith)
          (group_from-Joined text_eq text_eq_self (λ c. or_empty c.action.room_id) l r _
            (select_keeps (λ c. is_truthy c.action.room_id) l _
              (all_candidates-at by_class l.class_id l left_known) (ground arith))
            (select_keeps (λ c. is_truthy c.action.room_id) r _
              (all_candidates-at by_class r.class_id r right_known)
              (subst (λ t. is_truthy t ≡ true) same_room (ground arith)))
            (ap or_empty same_room))
      where
        same_room : l.action.room_id ≡ r.action.room_id
        same_room = option_text_eq_sound l.action.room_id r.action.room_id (ground arith)

  module _ (d : Distribution) (broken : violates d l.action r.action ≡ true)
      (hard : d.required ≡ true) where
    add_violations_with_covers :
        (rs : List Candidate) (s : Compiled)
        → Elem r rs
        → Excluded l r (add_violations_with d l rs s)
    unfolding add_violations_with
    add_violations_with_covers [] s m = absurd m
    add_violations_with_covers (x ∷ rs) s (inl e) =
        subst (λ w. Excluded l r (add_violations_with d l rs (add_if_violated d l w s))) e
          (Excluded-Grows l r (add_if_violated d l r s) _
            (add_violations_with-Grows d l rs (add_if_violated d l r s)) (inr added))
      where
        added : Elem (candidate_pair l r) (add_if_violated d l r s).hard_pairs
        added = rw (broken, hard) (set_add_self (candidate_pair l r) s.hard_pairs)
    add_violations_with_covers (x ∷ rs) s (inr m) = add_violations_with_covers rs _ m

    add_violations_covers :
        (ls rs : List Candidate) (s : Compiled)
        → Elem l ls
        → Elem r rs
        → Excluded l r (add_violations d ls rs s)
    unfolding add_violations
    add_violations_covers [] rs s i j = absurd i
    add_violations_covers (x ∷ ls) rs s (inl e) j =
        Excluded-Grows l r _ _ (add_violations-Grows d ls rs (add_violations_with d x rs s)) (
          subst (λ w. Excluded l r (add_violations_with d w rs s)) e
            (add_violations_with_covers rs s j))
    add_violations_covers (x ∷ ls) rs s (inr i) j = add_violations_covers ls rs _ i j

    add_combinations_with_covers :
        (by_class : List (Text × List Candidate)) (ids : List Text) (s : Compiled)
        → Known by_class l
        → Known by_class r
        → Elem r.class_id ids
        → Excluded l r (add_combinations_with d by_class l.class_id ids s)
    unfolding add_combinations_with
    add_combinations_with_covers by_class [] s i j m = absurd m
    add_combinations_with_covers by_class (k ∷ ids) s i j (inl e) =
        Excluded-Grows l r _ _
          (add_combinations_with-Grows d by_class l.class_id ids
            (add_violations d (candidates_at by_class l.class_id) (candidates_at by_class k) s))
          (add_violations_covers (candidates_at by_class l.class_id) (candidates_at by_class k) s i
            (subst (λ w. Elem r (candidates_at by_class w)) e j))
    add_combinations_with_covers by_class (k ∷ ids) s i j (inr m) =
        add_combinations_with_covers by_class ids _ i j m

pub add_combinations_covers :
    (l r : Candidate) (d : Distribution) (by_class : List (Text × List Candidate)) (ids : List Text)
    (s : Compiled)
    → l.class_id ≢ r.class_id
    → violates d l.action r.action ≡ true
    → d.required ≡ true
    → Known by_class l
    → Known by_class r
    → Elem l.class_id ids
    → Elem r.class_id ids
    → Excluded l r (add_combinations d by_class ids s)
unfolding add_combinations
add_combinations_covers l r d by_class [] s n h q i j a b = absurd a
add_combinations_covers l r d by_class (k ∷ ids) s n h q i j (inl e) (inl f) =
    absurd (n (e ∙ sym f))
add_combinations_covers l r d by_class (k ∷ ids) s n h q i j (inl e) (inr b) =
    Excluded-Grows l r _ _
      (add_combinations-Grows d by_class ids (add_combinations_with d by_class k ids s))
      (subst (λ w. Excluded l r (add_combinations_with d by_class w ids s)) e
        (add_combinations_with_covers l r n d h q by_class ids s i j b))
add_combinations_covers l r d by_class (k ∷ ids) s n h q i j (inr a) (inl f) =
    Excluded-Grows l r (add_combinations_with d by_class k ids s) _
      (add_combinations-Grows d by_class ids (add_combinations_with d by_class k ids s))
      (Excluded-sym r l (add_combinations_with d by_class k ids s) (
        subst (λ w. Excluded r l (add_combinations_with d by_class w ids s)) f
          (add_combinations_with_covers r l (λ e. n (sym e)) d
            (violates_comm d r.action l.action ∙ h) q by_class ids s j i a)))
add_combinations_covers l r d by_class (k ∷ ids) s n h q i j (inr a) (inr b) =
    add_combinations_covers l r d by_class ids _ n h q i j a b

pub candidates_of_ids-Elem :
    (by_class : List (Text × List Candidate)) (ids : List Text) (c : Candidate)
    → Known by_class c
    → Elem c.class_id ids
    → Elem c (candidates_of_ids by_class ids)
unfolding candidates_of_ids
candidates_of_ids-Elem by_class [] c k m = absurd m
candidates_of_ids-Elem by_class (j ∷ ids) c k (inl e) =
    Elem-append_left c (candidates_at by_class j) (candidates_of_ids by_class ids)
      (subst (λ w. Elem c (candidates_at by_class w)) e k)
candidates_of_ids-Elem by_class (j ∷ ids) c k (inr m) =
    Elem-append_right c (candidates_at by_class j) (candidates_of_ids by_class ids)
      (candidates_of_ids-Elem by_class ids c k m)
