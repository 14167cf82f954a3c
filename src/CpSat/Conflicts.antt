-- ===== src/CpSat/Conflicts.antt =====
-- `_compile_conflict_buckets` and the signatures of sidecar/stt_desktop/scheduler_engine/cp_sat.py.
use academic_affairs_system.Common.{
  ℕ, Bool, false, ◌&&◌, List, [], ◌∷◌, length, map, ltb, leb, ◌==◌, if◌then◌else◌,
}
use academic_affairs_system.Common.Text.{Text, text_eq, set_add}
use academic_affairs_system.Common.Groups.{group_from}
use academic_affairs_system.Common.Sort.{sort_by}
use academic_affairs_system.Cgcs.Model.{
  TimeOption, DistributionType, not_overlap, different_days, different_weeks,
}
use academic_affairs_system.Cgcs.Checks.{add_ids}
use academic_affairs_system.CpSat.Candidates.{Candidate, ordinals}
use academic_affairs_system.CpSat.Sources.{HardConflictSource, add_source}

pub record Compiled : Type 0 where
  pub hard_groups : List (List ℕ)
  pub hard_pairs : List (List ℕ)
  pub soft_pair_weights : List (List ℕ × ℕ)
  pub hard_group_sources : List (List ℕ × List HardConflictSource)
  pub hard_pair_sources : List (List ℕ × List HardConflictSource)

-- The values of `_time_signature` and `_distribution_signature`.
pub data Signature : Type 0 where
  slot_of : (weeks days : Text) (start span : ℕ) → Signature
  day_of : (weeks days : Text) → Signature
  week_of : (weeks : Text) → Signature
  start_of : (weeks days : Text) (start : ℕ) → Signature

abbrev pub signature_eq : Signature → Signature → Bool
signature_eq (slot_of w d s n) (slot_of w' d' s' n') =
    text_eq w w' && text_eq d d' && s == s' && n == n'
signature_eq (day_of w d) (day_of w' d') = text_eq w w' && text_eq d d'
signature_eq (week_of w) (week_of w') = text_eq w w'
signature_eq (start_of w d s) (start_of w' d' s') = text_eq w w' && text_eq d d' && s == s'
signature_eq _ _ = false

abbrev pub time_signature : TimeOption → Signature
time_signature t = slot_of t.weeks t.days t.start t.span

abbrev pub distribution_signature : DistributionType → Candidate → Signature
distribution_signature not_overlap c = time_signature c.action.time
distribution_signature different_days c = day_of c.action.time.weeks c.action.time.days
distribution_signature different_weeks c = week_of c.action.time.weeks
distribution_signature _ c = start_of c.action.time.weeks c.action.time.days c.action.time.start

-- `tuple(sorted((left.ordinal, right.ordinal)))`
abbrev pub candidate_pair : Candidate → Candidate → List ℕ
candidate_pair left right =
    if ltb right.ordinal left.ordinal
    then right.ordinal ∷ left.ordinal ∷ []
    else left.ordinal ∷ right.ordinal ∷ []

abbrev pub add_group : HardConflictSource → List ℕ → Compiled → Compiled
add_group source group s = record s {
  hard_groups = set_add group s.hard_groups;
  hard_group_sources = add_source group source s.hard_group_sources;
}

abbrev pub add_pair : HardConflictSource → List ℕ → Compiled → Compiled
add_pair source pair s = record s {
  hard_pairs = set_add pair s.hard_pairs;
  hard_pair_sources = add_source pair source s.hard_pair_sources;
}

abbrev pub Bucket : Type 0
Bucket = Signature × List Candidate

-- `len({candidate.class_id for candidate in bucket}) >= 2`
abbrev pub has_two_classes : List Candidate → Bool
has_two_classes bucket = leb 2 (length (add_ids (map (λ (c : Candidate). c.class_id) bucket) []))

abbrev pub group_of : List Candidate → List ℕ
group_of bucket = sort_by ltb (ordinals bucket)

unfoldable pub add_bucket_groups : HardConflictSource → List Bucket → Compiled → Compiled
add_bucket_groups source [] s = s
add_bucket_groups source ((k, bucket) ∷ buckets) s =
    add_bucket_groups source buckets
      (if has_two_classes bucket then add_group source (group_of bucket) s else s)

-- The two innermost loops, over a bucket on the right and one on the left.
unfoldable pub add_pairs_with :
    HardConflictSource → Candidate → List Candidate → Compiled → Compiled
add_pairs_with source left [] s = s
add_pairs_with source left (right ∷ rights) s = add_pairs_with source left rights (
    if text_eq left.class_id right.class_id
    then s
    else add_pair source (candidate_pair left right) s)

unfoldable pub add_pairs_between :
    HardConflictSource → List Candidate → List Candidate → Compiled → Compiled
unfolding add_pairs_with
add_pairs_between source [] rights s = s
add_pairs_between source (left ∷ lefts) rights s =
    add_pairs_between source lefts rights (add_pairs_with source left rights s)

-- The test on `bucket[0]` of each; a bucket has at least one candidate.
abbrev pub heads_conflict : (Candidate → Candidate → Bool) → List Candidate → List Candidate → Bool
heads_conflict conflicts (l ∷ ls) (r ∷ rs) = conflicts l r
heads_conflict conflicts _ _ = false

unfoldable pub add_pairs_after :
    HardConflictSource
    → (Candidate → Candidate → Bool)
    → List Candidate
    → List Bucket
    → Compiled
    → Compiled
unfolding add_pairs_between
add_pairs_after source conflicts left_bucket [] s = s
add_pairs_after source conflicts left_bucket ((k, right_bucket) ∷ buckets) s =
    add_pairs_after source conflicts left_bucket buckets (
      if heads_conflict conflicts left_bucket right_bucket
      then add_pairs_between source left_bucket right_bucket s
      else s)

unfoldable pub add_bucket_pairs :
    HardConflictSource → (Candidate → Candidate → Bool) → List Bucket → Compiled → Compiled
unfolding add_pairs_after
add_bucket_pairs source conflicts [] s = s
add_bucket_pairs source conflicts ((k, bucket) ∷ buckets) s =
    add_bucket_pairs source conflicts buckets (add_pairs_after source conflicts bucket buckets s)

unfoldable pub compile_conflict_buckets :
    HardConflictSource
    → (Candidate → Signature)
    → (Candidate → Candidate → Bool)
    → List Candidate
    → Compiled
    → Compiled
unfolding group_from add_bucket_groups add_bucket_pairs
compile_conflict_buckets source signature conflicts candidates s =
    let buckets = group_from signature_eq signature candidates [] in
    add_bucket_pairs source conflicts buckets (add_bucket_groups source buckets s)
