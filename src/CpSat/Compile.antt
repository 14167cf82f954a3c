-- ===== src/CpSat/Compile.antt =====
-- `_compile_constraints` and `_compile_conflict_buckets` of
-- sidecar/stt_desktop/scheduler_engine/cp_sat.py. A tuple of ordinals is a list of numbers.
pub mod Grows
pub mod Buckets
pub mod Sound
pub mod Violations
pub mod Exclusion
use academic_affairs_system.Common.{
  ℕ, zero, suc, ◌+◌, Bool, true, false, not, ◌&&◌, List, [], ◌∷◌, ◌++◌, Option, none, some, length,
  map, select, ltb, leb, ◌==◌, if◌then◌else◌,
}
use academic_affairs_system.Common.Text.{Text, text_eq, contains, is_truthy, or_empty, set_add}
use academic_affairs_system.Common.Dict.{lookup, insert, has_key, values}
use academic_affairs_system.Common.Groups.{group_from}
use academic_affairs_system.Common.Sort.{sort_by}
use academic_affairs_system.Cgcs.Model.{
  TimeOption, Action, Distribution, DistributionType, not_overlap, different_time, different_days,
  different_weeks, same_room, Problem,
}
use academic_affairs_system.Cgcs.Times.{overlaps}
use academic_affairs_system.Cgcs.Rules.{violates}
use academic_affairs_system.Cgcs.Checks.{add_ids}
use academic_affairs_system.CpSat.Candidates.{Candidate, ordinals}
use academic_affairs_system.CpSat.Sources.{
  HardConflictSource, add_source, room_source, distribution_conflict_source,
}
use academic_affairs_system.CpSat.Conflicts.{
  Compiled, time_signature, distribution_signature, candidate_pair, add_pair,
  compile_conflict_buckets,
}

unfoldable pub all_candidates : List (List Candidate) → List Candidate
all_candidates [] = []
all_candidates (cs ∷ rest) = cs ++ all_candidates rest

-- `candidates_by_room`: the candidates with a room, by room.
unfoldable pub candidates_by_room : List Candidate → List (Text × List Candidate)
unfolding group_from
candidates_by_room candidates =
    group_from text_eq (λ c. or_empty c.action.room_id)
      (select (λ c. is_truthy c.action.room_id) candidates) []

abbrev pub candidates_overlap : Candidate → Candidate → Bool
candidates_overlap left right = overlaps left.action.time right.action.time

unfoldable pub compile_rooms : List (Text × List Candidate) → Compiled → Compiled
unfolding compile_conflict_buckets
compile_rooms [] s = s
compile_rooms ((room_id, candidates) ∷ rooms) s = compile_rooms rooms (
    compile_conflict_buckets (room_source room_id) (λ c. time_signature c.action.time)
      candidates_overlap candidates s)

-- `distribution_type in {"NotOverlap", "DifferentDays", "DifferentWeeks", "DifferentTime"}`
abbrev pub is_bucketed : DistributionType → Bool
is_bucketed not_overlap = true
is_bucketed different_days = true
is_bucketed different_weeks = true
is_bucketed different_time = true
is_bucketed _ = false

-- `soft_pair_weights.get(pair, 0)`
abbrev pub weight_or_zero : Option ℕ → ℕ
weight_or_zero none = 0
weight_or_zero (some w) = w

abbrev pub add_violation : Distribution → List ℕ → Compiled → Compiled
add_violation d pair s =
    if d.required then add_pair (distribution_conflict_source d) pair s else record s {
      soft_pair_weights =
          insert pair (weight_or_zero (lookup pair s.soft_pair_weights) + d.penalty)
            s.soft_pair_weights;
    }

abbrev pub add_if_violated : Distribution → Candidate → Candidate → Compiled → Compiled
add_if_violated d left right s =
    if violates d left.action right.action then add_violation d (candidate_pair left right) s else s

unfoldable pub add_violations_with : Distribution → Candidate → List Candidate → Compiled → Compiled
add_violations_with d left [] s = s
add_violations_with d left (right ∷ rights) s =
    add_violations_with d left rights (add_if_violated d left right s)

unfoldable pub add_violations : Distribution → List Candidate → List Candidate → Compiled → Compiled
unfolding add_violations_with
add_violations d [] rights s = s
add_violations d (left ∷ lefts) rights s =
    add_violations d lefts rights (add_violations_with d left rights s)

-- `candidates_by_class[class_id]`, for an id that was seen to be there.
abbrev pub or_nil : Option (List Candidate) → List Candidate
or_nil none = []
or_nil (some cs) = cs

abbrev pub candidates_at : List (Text × List Candidate) → Text → List Candidate
candidates_at by_class k = or_nil (lookup k by_class)

-- The loops over `combinations(class_ids, 2)`.
unfoldable pub add_combinations_with :
    Distribution → List (Text × List Candidate) → Text → List Text → Compiled → Compiled
unfolding add_violations
add_combinations_with d by_class left_id [] s = s
add_combinations_with d by_class left_id (right_id ∷ ids) s =
    add_combinations_with d by_class left_id ids
      (add_violations d (candidates_at by_class left_id) (candidates_at by_class right_id) s)

unfoldable pub add_combinations :
    Distribution → List (Text × List Candidate) → List Text → Compiled → Compiled
unfolding add_combinations_with
add_combinations d by_class [] s = s
add_combinations d by_class (left_id ∷ ids) s =
    add_combinations d by_class ids (add_combinations_with d by_class left_id ids s)

unfoldable pub candidates_of_ids : List (Text × List Candidate) → List Text → List Candidate
candidates_of_ids by_class [] = []
candidates_of_ids by_class (k ∷ ks) = candidates_at by_class k ++ candidates_of_ids by_class ks

abbrev pub known_ids : List (Text × List Candidate) → Distribution → List Text
known_ids by_class d = select (λ k. has_key k by_class) d.class_ids

unfoldable pub compile_distribution :
    Distribution → List (Text × List Candidate) → Compiled → Compiled
unfolding compile_conflict_buckets candidates_of_ids add_combinations
compile_distribution d by_class s =
    if d.required && is_bucketed d.distribution_type
    then compile_conflict_buckets (distribution_conflict_source d)
        (distribution_signature d.distribution_type) (λ l r. violates d l.action r.action)
        (candidates_of_ids by_class (known_ids by_class d)) s
    else add_combinations d by_class (known_ids by_class d) s

unfoldable pub compile_distributions :
    List Distribution → List (Text × List Candidate) → Compiled → Compiled
unfolding compile_distribution
compile_distributions [] by_class s = s
compile_distributions (d ∷ ds) by_class s =
    compile_distributions ds by_class (compile_distribution d by_class s)

abbrev pub nothing_compiled : Compiled
nothing_compiled = record {
  hard_groups = [];
  hard_pairs = [];
  soft_pair_weights = [];
  hard_group_sources = [];
  hard_pair_sources = [];
}

unfoldable pub compile_constraints : List Distribution → List (Text × List Candidate) → Compiled
compile_constraints distributions by_class =
    compile_distributions distributions by_class
      (compile_rooms (candidates_by_room (all_candidates (values by_class))) nothing_compiled)
