-- ===== src/Jobs.antt =====
-- `SchedulingJobManager` of sidecar/stt_desktop/scheduling/jobs.py: the store of the rounds and the
-- jobs that run. `cancel_round` waits between its request and its end, so it is two operations, and
-- the monitor of the job may run between them; the monitor's work after the process has ended has
-- no such gap.
pub mod Monitor
pub mod Single
use academic_affairs_system.Common.{
  ℕ, ◌+◌, ◌≡◌, Bool, true, false, not, List, [], ◌∷◌, Option, none, some, if◌then◌else◌,
}
use academic_affairs_system.Common.Text.{Text, text}
use academic_affairs_system.Common.Dict.{lookup, insert, erase}
use academic_affairs_system.Rounds.{
  Status, succeeded, infeasible, cancelled, failed_recoverable, Round, Store, Outcome, returned,
  raised, store_of, put_round, add_event, record_event, mark_cancelled, mark_failed, SolverResult,
  complete_round, Preparation, ready, prepare_round,
}

pub record Manager : Type 0 where
  pub store : Store
  -- The jobs by round: whether cancellation was requested.
  pub jobs : List (Text × Bool)

abbrev pub with_store : Manager → Store → Manager
with_store m s = record m { store = s }

abbrev pub has_active_job : Manager → Bool
has_active_job m = elim m.jobs [ [] ↦ false | j ∷ (js → r) ↦ true ]

abbrev pub is_ready : Preparation → Bool
is_ready ready = true
is_ready _ = false

-- How the launch goes: the request file cannot be written, the process does not start, or it does.
pub data Launch : Type 0 where
  request_unwritten start_fails worker_starts : Launch

-- After the preparation: the request file, the job and its process. A request that cannot be written
-- raises before there is a job, and leaves the round as it was prepared.
abbrev pub launch : Text → Launch → Store → Manager → Manager
launch id request_unwritten s m = with_store m s
launch id start_fails s m =
    with_store m (store_of (mark_failed id (text "SOLVER_PROCESS_START_FAILED") s))
launch id worker_starts s m = record {
  store = record_event id (text "solver_worker_started") s;
  jobs = insert id false m.jobs;
}

abbrev pub after_preparation : Text → Preparation → Launch → Outcome → Manager → Manager
after_preparation id x way (raised e s) m = with_store m s
after_preparation id x way (returned s) m = if is_ready x then launch id way s m else with_store m s

unfoldable pub start_round : Text → ℕ → Bool → Preparation → Launch → Manager → Manager
unfolding prepare_round mark_failed
start_round id budget parent_ok x way m =
    if has_active_job m
    then m
    else after_preparation id x way (prepare_round id budget parent_ok x m.store) m

-- The first half of `cancel_round`, up to the end of its waits.
abbrev pub request_found : Text → Manager → Option Bool → Manager
request_found id m none = m
request_found id m (some requested) = record m { jobs = insert id true m.jobs }

unfoldable pub request_cancel : Text → Manager → Manager
request_cancel id m = request_found id m (lookup id m.jobs)

-- `status not in {"succeeded", "infeasible", "failed_recoverable"}`
abbrev pub may_cancel : Status → Bool
may_cancel succeeded = false
may_cancel infeasible = false
may_cancel failed_recoverable = false
may_cancel _ = true

abbrev pub finish_found : Text → Store → Option Round → Store
finish_found id s none = s
finish_found id s (some r) =
    if may_cancel r.status then store_of (mark_cancelled id (text "user_cancelled") s) else s

-- The second half of `cancel_round`.
unfoldable pub finish_cancel : Text → Manager → Manager
unfolding mark_cancelled
finish_cancel id m = with_store m (finish_found id m.store (lookup id m.store.rounds))

-- `status not in {"succeeded", "infeasible", "cancelled", "failed_recoverable"}`
abbrev pub still_open : Status → Bool
still_open cancelled = false
still_open status = may_cancel status

abbrev pub monitor_cancelled : Text → Store → Option Round → Store
monitor_cancelled id s none = s
monitor_cancelled id s (some r) =
    if still_open r.status then store_of (mark_cancelled id (text "user_cancelled") s) else s

-- How the worker process has ended: with an exit code that is not 0 or no file, with a file that
-- cannot be read, with the worker's failure, or with a result.
pub data WorkerEnd : Type 0 where
  exited invalid_result worker_error : WorkerEnd
  reported : (x : SolverResult) → WorkerEnd

-- The exception of `complete_round` marks the round as failed.
abbrev pub finalize : Text → Outcome → Store
finalize id (returned s) = s
finalize id (raised e s) = store_of (mark_failed id (text "SOLVER_FINALIZE_ERROR") s)

abbrev pub conclude : Text → WorkerEnd → Store → Store
conclude id exited s = store_of (mark_failed id (text "SOLVER_PROCESS_EXITED") s)
conclude id invalid_result s = store_of (mark_failed id (text "SOLVER_RESULT_INVALID") s)
conclude id worker_error s = store_of (mark_failed id (text "SOLVER_WORKER_ERROR") s)
conclude id (reported x) s = finalize id (complete_round id x s)

abbrev pub monitor_found : Text → WorkerEnd → Manager → Option Bool → Manager
monitor_found id end m none = m
monitor_found id end m (some requested) = record {
  store =
      if requested
      then monitor_cancelled id m.store (lookup id m.store.rounds)
      else conclude id end m.store;
  jobs = erase id m.jobs;
}

-- `_monitor`, with the `finally` that forgets the job.
unfoldable pub monitor : Text → WorkerEnd → Manager → Manager
unfolding mark_cancelled mark_failed complete_round
monitor id end m = monitor_found id end m (lookup id m.jobs)
