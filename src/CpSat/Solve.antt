-- ===== src/CpSat/Solve.antt =====
-- The rows that `run_cp_sat_v1` gives to the solver for the compiled conflicts, and
-- `_read_assignments`, of sidecar/stt_desktop/scheduler_engine/cp_sat.py. The solver's answer is a
-- Boolean value for each literal, by ordinal, and for each variable `assigned_n`, by n.
pub mod Table
pub mod Decoded
pub mod Assigned
use academic_affairs_system.Common.{
  ℕ, ◌+◌, ◌≡◌, Bool, true, false, not, ◌&&◌, List, [], ◌∷◌, Option, none, some, sum_of, leb, ◌==◌,
  if◌then◌else◌,
}
use academic_affairs_system.Common.Text.{Text}
use academic_affairs_system.Common.Dict.{insert}
use academic_affairs_system.Cgcs.Model.{Action, Assignments}
use academic_affairs_system.CpSat.Candidates.{Candidate, Row, sum_is, zero_is, Created}
use academic_affairs_system.CpSat.Conflicts.{Compiled}

-- The value of a Boolean in a linear expression.
abbrev pub as_number : Bool → ℕ
as_number b = if b then 1 else 0

-- `sum(literals)`
abbrev pub count_true : (ℕ → Bool) → List ℕ → ℕ
count_true x = sum_of (λ n. as_number (x n))

abbrev pub satisfies_row : (ℕ → Bool) → (ℕ → Bool) → Row → Bool
satisfies_row x assigned (sum_is literals n) = count_true x literals == as_number (assigned n)
satisfies_row x assigned (zero_is n) = as_number (assigned n) == 0

unfoldable pub satisfies_rows : (ℕ → Bool) → (ℕ → Bool) → List Row → Bool
satisfies_rows x assigned [] = true
satisfies_rows x assigned (r ∷ rs) = satisfies_row x assigned r && satisfies_rows x assigned rs

-- `add_at_most_one` of a group, and `left.literal + right.literal <= 1` of a pair.
unfoldable pub satisfies_conflicts : (ℕ → Bool) → List (List ℕ) → Bool
satisfies_conflicts x [] = true
satisfies_conflicts x (g ∷ gs) = leb (count_true x g) 1 && satisfies_conflicts x gs

-- The rows of the classes and those of the compiled conflicts; the rows of the resource limits are in
-- Limits, and the whole model is in Run.
unfoldable pub satisfies_compiled : (ℕ → Bool) → (ℕ → Bool) → Created → Compiled → Bool
unfolding satisfies_rows satisfies_conflicts
satisfies_compiled x assigned created compiled =
    satisfies_rows x assigned created.rows
    && satisfies_conflicts x compiled.hard_groups
    && satisfies_conflicts x compiled.hard_pairs

-- `next((candidate.action for candidate in candidates if solver.value(candidate.literal)), None)`
unfoldable pub first_chosen : (ℕ → Bool) → List Candidate → Option Action
first_chosen x [] = none
first_chosen x (c ∷ cs) =
    let rest = first_chosen x cs in if x c.ordinal then some c.action else rest

abbrev pub keep_selected : Text → Option Action → Assignments → Assignments
keep_selected class_id none assignments = assignments
keep_selected class_id (some selected) assignments = insert class_id selected assignments

unfoldable pub read_from : (ℕ → Bool) → List (Text × List Candidate) → Assignments → Assignments
unfolding first_chosen
read_from x [] assignments = assignments
read_from x ((class_id, candidates) ∷ rest) assignments =
    read_from x rest (keep_selected class_id (first_chosen x candidates) assignments)

unfoldable pub read_assignments : (ℕ → Bool) → List (Text × List Candidate) → Assignments
unfolding read_from
read_assignments x candidates_by_class = read_from x candidates_by_class []
