-- ===== src/Examples/CpSat.antt =====
-- The CP-SAT scheduler's theorems at the two classes.
use academic_affairs_system.Common.{
  ◌≡◌, ◌≢◌, refl, ap, subst, true, false, List, [], ◌∷◌, inl, inr, arith, Elem,
}
use academic_affairs_system.Common.Text.{Text, text, text_eq}
use academic_affairs_system.Cgcs.Model.{action_eq}
use academic_affairs_system.Cgcs.Times.{overlaps, any_common_bit, shares_bit}
use academic_affairs_system.Cgcs.Times.Overlap.{overlaps_comm}
use academic_affairs_system.Cgcs.Rules.{index, violates, violates_type}
use academic_affairs_system.Cgcs.Actions.{room_actions, all_room_actions, unsorted_actions, actions}
use academic_affairs_system.Cgcs.Checks.{add_ids}
use academic_affairs_system.Cgcs.Checks.Hard.{Compatible}
use academic_affairs_system.CpSat.Candidates.{
  Candidate, candidates_from, create_from, create_candidates,
}
use academic_affairs_system.CpSat.Compile.{
  all_candidates, candidates_by_room, candidates_overlap, compile_rooms, add_violations_with,
  add_violations, add_combinations_with, add_combinations, compile_distribution,
  compile_distributions, nothing_compiled, compile_constraints,
}
use academic_affairs_system.CpSat.Conflicts.{
  add_bucket_groups, add_pairs_with, add_pairs_between, add_pairs_after, add_bucket_pairs,
  compile_conflict_buckets, time_signature,
}
use academic_affairs_system.CpSat.Sources.{room_source}
use academic_affairs_system.CpSat.Compile.Exclusion.{Excluded}
use academic_affairs_system.CpSat.Compile.Buckets.{compile_conflict_buckets_excludes}
use academic_affairs_system.CpSat.Compile.Violations.{overlap_respects}
use academic_affairs_system.CpSat.Compile.Sound.{Compatible-unless-Excluded}
use academic_affairs_system.Examples.Data.{two_classes, maths_first, maths_second, music_first}

-- What compiling the two classes computes with.
unfoldable pub program : Unit {0}
unfolding action_eq any_common_bit shares_bit overlaps index violates violates_type actions
    room_actions all_room_actions unsorted_actions candidates_from create_from create_candidates
    add_bucket_groups add_pairs_with add_pairs_between add_pairs_after add_bucket_pairs
    compile_conflict_buckets all_candidates candidates_by_room compile_rooms add_violations_with
    add_violations add_combinations_with add_combinations compile_distribution compile_distributions
    compile_constraints add_ids
program = tt

-- Maths has the literals 0 and 1, music has 2; the first slot is shared, and two candidates that
-- have different literals share the day.
compile-two_classes :
    (compile_constraints two_classes.distributions
      (create_candidates two_classes.agents).candidates_by_class).hard_groups
    ≡ (0 ∷ 2 ∷ []) ∷ []
unfolding program
compile-two_classes = refl

abbrev maths_early : Candidate
maths_early = record { ordinal = 0; class_id = text "m"; action_index = 0; action = maths_first }

abbrev maths_late : Candidate
maths_late = record { ordinal = 1; class_id = text "m"; action_index = 1; action = maths_second }

abbrev music_early : Candidate
music_early = record { ordinal = 2; class_id = text "u"; action_index = 0; action = music_first }

abbrev classes : List (Text × List Candidate)
classes = (text "m", maths_early ∷ maths_late ∷ []) ∷ (text "u", music_early ∷ []) ∷ []

maths-music : text "m" ≢ text "u"
maths-music e = true-not-false (ap (text_eq (text "m")) e)
  where
    true-not-false : true ≢ false
    true-not-false p = cc

not-Excluded :
    ¬ Excluded maths_late music_early (compile_constraints two_classes.distributions classes)
unfolding program
not-Excluded (inl (g, inl e, i, j)) = elim (subst (Elem 1) e i) [
  | inl h ↦ ground arith
  | inr (inl h) ↦ ground arith
  | inr (inr h) ↦ h
]
not-Excluded (inl (g, inr x, i, j)) = x
not-Excluded (inr e) = e

Compatible-unless-Excluded_example : Compatible two_classes.distributions maths_second music_first
Compatible-unless-Excluded_example =
    Compatible-unless-Excluded classes maths_late music_early maths-music (inr (inl refl))
      (inl refl) two_classes.distributions refl refl not-Excluded

overlap-early : candidates_overlap maths_early music_early ≡ true
unfolding program
overlap-early = refl

compile_conflict_buckets_excludes_example : Excluded maths_early music_early (
    compile_conflict_buckets
      (room_source (text "hall"))
      (λ c. time_signature c.action.time)
      candidates_overlap
      (maths_early ∷ maths_late ∷ music_early ∷ [])
      nothing_compiled)
compile_conflict_buckets_excludes_example =
    compile_conflict_buckets_excludes (room_source (text "hall"))
      (λ c. time_signature c.action.time) candidates_overlap overlap_respects
      (λ a b. overlaps_comm a.action.time b.action.time) maths_early music_early
      (maths_early ∷ maths_late ∷ music_early ∷ []) nothing_compiled (inl refl)
      (inr (inr (inl refl))) maths-music overlap-early
