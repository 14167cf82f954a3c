-- ===== src/Rounds.antt =====
-- The life of a scheduling round in sidecar/stt_desktop/scheduling/service.py: `prepare_round`,
-- `complete_round`, `mark_cancelled`, `mark_failed`, `recover_interrupted_rounds`, `record_event` and
-- `_finish_infeasible`. A store is what the tables hold; what the snapshot, the compiler, the
-- validation and the file system say comes in as a value.
pub mod Settled
pub mod Steps
pub mod Candidates
use academic_affairs_system.Common.{
  ℕ, ◌+◌, ◌≡◌, Bool, true, false, not, ◌&&◌, ◌||◌, List, [], ◌∷◌, ◌++◌, Option, none, some, leb,
  if◌then◌else◌,
}
use academic_affairs_system.Common.Text.{Text, text}
use academic_affairs_system.Common.Dict.{lookup, insert, has_key}

-- The values that the column `status` admits.
pub data Status : Type 0 where
  queued preparing solving validating succeeded infeasible cancelled failed failed_recoverable :
      Status

pub record Round : Type 0 where
  pub status : Status
  pub stop_reason : Option Text
  pub error_code : Option Text
  pub events : List Text

-- The rounds by id, and the round of each candidate that was persisted.
pub record Store : Type 0 where
  pub rounds : List (Text × Round)
  pub candidates : List Text

pub data Error : Type 0 where
  bad_budget bad_parent duplicate_id missing_round late_result preparation_error validation_error
        persist_error :
      Error

-- A call returns or raises, and either way leaves a store.
pub data Outcome : Type 0 where
  returned : (s : Store) → Outcome
  raised : (e : Error) (s : Store) → Outcome

abbrev pub store_of : Outcome → Store
store_of (returned s) = s
store_of (raised e s) = s

-- `UPDATE scheduling_rounds SET ... WHERE id = ?` and `_event`.
abbrev pub put_round : Text → Round → Store → Store
put_round id r s = record s { rounds = insert id r s.rounds }

abbrev pub add_event : Text → Round → Round
add_event name r = record r { events = r.events ++ name ∷ [] }

abbrev pub event_found : Text → Text → Store → Option Round → Store
event_found id name s none = s
event_found id name s (some r) = put_round id (add_event name r) s

-- `record_event`, which asks for no status.
unfoldable pub record_event : Text → Text → Store → Store
record_event id name s = event_found id name s (lookup id s.rounds)

abbrev pub set_status : Status → Round → Round
set_status status r = record r { status = status }

-- `status in {"succeeded", "infeasible", "cancelled", "failed", "failed_recoverable"}`
abbrev pub is_finished : Status → Bool
is_finished succeeded = true
is_finished infeasible = true
is_finished cancelled = true
is_finished failed = true
is_finished failed_recoverable = true
is_finished _ = false

-- `status in {"succeeded", "infeasible", "cancelled"}`
abbrev pub is_settled : Status → Bool
is_settled succeeded = true
is_settled infeasible = true
is_settled cancelled = true
is_settled _ = false

abbrev pub is_solving : Status → Bool
is_solving solving = true
is_solving _ = false

-- `status IN ('queued', 'preparing', 'solving', 'validating')`
abbrev pub is_interrupted : Status → Bool
is_interrupted queued = true
is_interrupted preparing = true
is_interrupted solving = true
is_interrupted validating = true
is_interrupted _ = false

abbrev pub cancelled_round : Text → Round → Round
cancelled_round reason r =
    add_event (text "round_cancelled") (record r { status = cancelled; stop_reason = some reason })

abbrev pub cancel_found : Text → Text → Store → Option Round → Outcome
cancel_found id reason s none = raised missing_round s
cancel_found id reason s (some r) =
    if is_finished r.status
    then returned s
    else returned (put_round id (cancelled_round reason r) s)

unfoldable pub mark_cancelled : Text → Text → Store → Outcome
mark_cancelled id reason s = cancel_found id reason s (lookup id s.rounds)

abbrev pub failed_round : Text → Round → Round
failed_round code r =
    add_event (text "round_failed")
      (record r { status = failed_recoverable; error_code = some code })

abbrev pub fail_found : Text → Text → Store → Option Round → Outcome
fail_found id code s none = raised missing_round s
fail_found id code s (some r) =
    if is_settled r.status then returned s else returned (put_round id (failed_round code r) s)

unfoldable pub mark_failed : Text → Text → Store → Outcome
mark_failed id code s = fail_found id code s (lookup id s.rounds)

abbrev pub infeasible_round : Round → Round
infeasible_round r = add_event (text "infeasible_diagnostics") (record r {
  status = infeasible;
  stop_reason = some (text "hard_constraints_infeasible");
  error_code = some (text "INFEASIBLE");
})

abbrev pub infeasible_found : Text → Store → Option Round → Outcome
infeasible_found id s none = raised missing_round s
infeasible_found id s (some r) = returned (put_round id (infeasible_round r) s)

unfoldable pub finish_infeasible : Text → Store → Outcome
finish_infeasible id s = infeasible_found id s (lookup id s.rounds)

-- The rows that are selected before the first of them changes.
unfoldable pub interrupted_ids : List (Text × Round) → List Text
interrupted_ids [] = []
interrupted_ids ((id, r) ∷ rounds) =
    let rest = interrupted_ids rounds in if is_interrupted r.status then id ∷ rest else rest

unfoldable pub fail_all : List Text → Store → Store
unfolding mark_failed
fail_all [] s = s
fail_all (id ∷ ids) s = fail_all ids (store_of (mark_failed id (text "INTERRUPTED_ON_RESTART") s))

unfoldable pub recover_interrupted_rounds : Store → Store
unfolding interrupted_ids fail_all
recover_interrupted_rounds s = fail_all (interrupted_ids s.rounds) s

-- What the solver's result and its validation come to: whether the schedule is complete, whether
-- the validation raises or finds hard issues, and whether the candidate can be persisted.
pub data Validation : Type 0 where
  validation_raises hard_issues valid : Validation

pub record SolverResult : Type 0 where
  pub complete : Bool
  pub validation : Validation
  pub persists : Bool

abbrev pub succeeded_round : Round → Round
succeeded_round r =
    add_event (text "candidate_persisted")
      (record r { status = succeeded; stop_reason = some (text "candidate_found") })

-- The transaction: all of it, or nothing and the exception.
abbrev pub persist : Text → Round → Bool → Store → Outcome
persist id r persists s =
    if persists
    then returned (put_round id (succeeded_round r) (record s { candidates = id ∷ s.candidates }))
    else raised persist_error s

abbrev pub after_validation : Text → Round → Validation → Bool → Store → Outcome
after_validation id r validation_raises persists s = raised validation_error s
after_validation id r hard_issues persists s = finish_infeasible id s
after_validation id r valid persists s = persist id r persists s

abbrev pub validating_round : Round → Round
validating_round r = add_event (text "solution_validating") (set_status validating r)

-- The round is stored as validating first, then judged.
abbrev pub judge : Text → Round → SolverResult → Store → Outcome
judge id r result s =
    if not result.complete
    then finish_infeasible id s
    else after_validation id r result.validation result.persists s

abbrev pub complete_found : Text → SolverResult → Store → Option Round → Outcome
complete_found id result s none = raised missing_round s
complete_found id result s (some r) =
    if is_solving r.status
    then judge id (validating_round r) result (put_round id (validating_round r) s)
    else raised late_result s

unfoldable pub complete_round : Text → SolverResult → Store → Outcome
unfolding finish_infeasible
complete_round id result s = complete_found id result s (lookup id s.rounds)

-- How the preparation goes: it raises before the problem is stored, the problem has errors, the
-- parent's solution cannot be read, or all is ready.
pub data Preparation : Type 0 where
  snapshot_raises compile_errors solution_raises ready : Preparation

abbrev pub preparing_round : Round
preparing_round = record {
  status = preparing;
  stop_reason = none;
  error_code = none;
  events = text "round_preparing" ∷ [];
}

abbrev pub solving_round : Round
solving_round = add_event (text "problem_compiled") (set_status solving preparing_round)

-- `mark_failed` and the exception again.
abbrev pub fail_preparation : Text → Store → Outcome
fail_preparation id s =
    raised preparation_error (store_of (mark_failed id (text "LOCAL_PREPARATION_ERROR") s))

abbrev pub prepare_with : Text → Preparation → Store → Outcome
prepare_with id snapshot_raises s = fail_preparation id (put_round id preparing_round s)
prepare_with id compile_errors s = finish_infeasible id (put_round id solving_round s)
prepare_with id solution_raises s = fail_preparation id (put_round id solving_round s)
prepare_with id ready s =
    returned (put_round id (add_event (text "solver_input_ready") solving_round) s)

-- The budget, the parent candidate and the session are checked first. The id is a new one; the table
-- refuses an id that it has.
unfoldable pub prepare_round : Text → ℕ → Bool → Preparation → Store → Outcome
unfolding mark_failed finish_infeasible
prepare_round id budget parent_ok preparation s =
    if not (leb 10 budget && leb budget 1800)
    then raised bad_budget s
    else if not parent_ok
    then raised bad_parent s
    else if has_key id s.rounds
    then raised duplicate_id s
    else prepare_with id preparation s
