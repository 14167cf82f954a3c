-- ===== src/Examples/Jobs.antt =====
-- The rounds and the job manager at one round.
use academic_affairs_system.Common.{◌≤◌, ◌≡◌, refl, true, false, none, some, [], ◌∷◌, arith, length}
use academic_affairs_system.Common.Text.{text}
use academic_affairs_system.Common.Dict.{lookup}
use academic_affairs_system.Rounds.{
  Round, Store, store_of, record_event, mark_cancelled, SolverResult, valid, complete_round, ready,
  prepare_round, succeeded,
}
use academic_affairs_system.Rounds.Steps.{
  Steps, completes, cancels, records, Remains, no_calls, and_then, settled_forever,
}
use academic_affairs_system.Jobs.{
  Manager, worker_starts, start_round, request_cancel, monitor, exited, reported,
}
use academic_affairs_system.Jobs.Monitor.{Ended, monitor-Ended}
use academic_affairs_system.Jobs.Single.{
  Moves, starts, requests, monitors, no_moves, and_move, at_most_one_job,
}

abbrev no_rounds : Store
no_rounds = record { rounds = []; candidates = [] }

abbrev found : SolverResult
found = record { complete = true; validation = valid; persists = true }

abbrev prepared : Store
prepared = store_of (prepare_round (text "r") 60 true ready no_rounds)

abbrev solved : Store
solved = store_of (complete_round (text "r") found prepared)

-- A cancellation, a second result and an event after the first result.
abbrev later : Store
later = record_event (text "r") (text "solver_worker_started") (
    store_of (
      complete_round (text "r") found
        (store_of (mark_cancelled (text "r") (text "user_cancelled") solved))))

late_calls : Steps solved later
late_calls =
    and_then
      (and_then (and_then no_calls (cancels (text "r") (text "user_cancelled")))
        (completes (text "r") found))
      (records (text "r") (text "solver_worker_started"))

solved-candidates : solved.candidates ≡ text "r" ∷ []
unfolding prepare_round complete_round
solved-candidates = refl

abbrev solved_round : Round
solved_round = record {
  status = succeeded;
  stop_reason = some (text "candidate_found");
  error_code = none;
  events =
      text "round_preparing"
      ∷ text "problem_compiled"
      ∷ text "solver_input_ready"
      ∷ text "solution_validating"
      ∷ text "candidate_persisted"
      ∷ [];
}

solved-lookup : lookup (text "r") solved.rounds ≡ some solved_round
unfolding prepare_round complete_round
solved-lookup = refl

settled_forever_example :
    (q : Round) × (lookup (text "r") later.rounds ≡ some q) × Remains solved_round q
settled_forever_example =
    settled_forever solved later (text "r") solved_round late_calls solved-lookup refl

abbrev idle : Manager
idle = record { store = no_rounds; jobs = [] }

abbrev running : Manager
running = record { store = prepared; jobs = (text "r", false) ∷ [] }

prepared-round : (r : Round) × (lookup (text "r") prepared.rounds ≡ some r)
unfolding prepare_round
prepared-round = (_, refl)

monitor-Ended_example :
    Ended (text "r") (monitor (text "r") (reported found) running).store
    × (lookup (text "r") (monitor (text "r") (reported found) running).jobs ≡ none)
monitor-Ended_example =
    monitor-Ended (text "r") (reported found) running false prepared-round.0 refl prepared-round.1

abbrev cancelled_run : Manager
cancelled_run =
    monitor (text "r") exited
      (request_cancel (text "r") (start_round (text "r") 60 true ready worker_starts idle))

cancelled_history : Moves idle cancelled_run
cancelled_history =
    and_move
      (and_move (and_move no_moves (starts (text "r") 60 true ready worker_starts))
        (requests (text "r")))
      (monitors (text "r") exited)

at_most_one_job_example : length cancelled_run.jobs ≤ 1
at_most_one_job_example = at_most_one_job idle cancelled_run cancelled_history (omega arith)
