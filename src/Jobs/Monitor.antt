-- ===== src/Jobs/Monitor.antt =====
-- One job at a time, and no round is left running when its job ends.
use academic_affairs_system.Common.{
  ◌≡◌, refl, ◌∙◌, Bool, true, false, none, some, inl, inr, Bool-cases, if◌then◌else◌,
}
use academic_affairs_system.Common.Text.{Text, text, text_eq_self}
use academic_affairs_system.Common.Dict.{lookup, lookup-insert, lookup-erase}
use academic_affairs_system.Rounds.{
  Status, queued, preparing, solving, validating, succeeded, infeasible, cancelled, failed,
  failed_recoverable, Round, Store, Outcome, returned, raised, store_of, put_round, is_finished,
  is_settled, is_solving, cancel_found, cancelled_round, mark_cancelled, fail_found, failed_round,
  mark_failed, infeasible_found, infeasible_round, finish_infeasible, Validation, validation_raises,
  hard_issues, valid, SolverResult, persist, succeeded_round, after_validation, validating_round,
  judge, complete_found, complete_round,
}
use academic_affairs_system.Jobs.{
  Manager, still_open, monitor_cancelled, WorkerEnd, exited, invalid_result, worker_error, reported,
  finalize, conclude, monitor_found, monitor,
}

abbrev Present : Text → Store → Type 0
Present id s = (r : Round) × (lookup id s.rounds ≡ some r)

-- The round has one of the final statuses.
abbrev pub Ended : Text → Store → Type 0
Ended id s = (r : Round) × (lookup id s.rounds ≡ some r) × (is_finished r.status ≡ true)

put-Ended :
    (id : Text) (q : Round) (s : Store) → is_finished q.status ≡ true → Ended id (put_round id q s)
put-Ended id q s f = (q, lookup-insert id id q s.rounds ∙ rw (text_eq_self id) refl, f)

settled_finished : (status : Status) → is_settled status ≡ true → is_finished status ≡ true
settled_finished succeeded e = refl
settled_finished infeasible e = refl
settled_finished cancelled e = refl
settled_finished queued e = cc
settled_finished preparing e = cc
settled_finished solving e = cc
settled_finished validating e = cc
settled_finished failed e = refl
settled_finished failed_recoverable e = refl

mark_failed-Ended :
    (id code : Text) (s : Store) → Present id s → Ended id (store_of (mark_failed id code s))
unfolding mark_failed
mark_failed-Ended id code s (q, e) = elim (Bool-cases (is_settled q.status)) [
  | inl f ↦ rw (e, fail_found, f) (q, e, settled_finished q.status f)
  | inr f ↦ rw (e, fail_found, f) (put-Ended id (failed_round code q) s refl)
]

mark_cancelled-Ended :
    (id reason : Text) (s : Store) → Present id s → Ended id (store_of (mark_cancelled id reason s))
unfolding mark_cancelled
mark_cancelled-Ended id reason s (q, e) = elim (Bool-cases (is_finished q.status)) [
  | inl f ↦ rw (e, cancel_found, f) (q, e, f)
  | inr f ↦ rw (e, cancel_found, f) (put-Ended id (cancelled_round reason q) s refl)
]

-- A call that returns has ended the round; one that raises has it still.
abbrev Good : Text → Outcome → Type 0
Good id (returned s) = Ended id s
Good id (raised e s) = Present id s

finish_infeasible-Good : (id : Text) (s : Store) → Present id s → Good id (finish_infeasible id s)
unfolding finish_infeasible
finish_infeasible-Good id s (q, e) =
    rw (e, infeasible_found) (put-Ended id (infeasible_round q) s refl)

persist-Good :
    (id : Text) (q : Round) (b : Bool) (s : Store) → Present id s → Good id (persist id q b s)
persist-Good id q true s here = put-Ended id (succeeded_round q) s refl
persist-Good id q false s here = here

after_validation-Good :
    (id : Text) (q : Round) (v : Validation) (b : Bool) (s : Store)
    → Present id s
    → Good id (after_validation id q v b s)
after_validation-Good id q validation_raises b s here = here
after_validation-Good id q hard_issues b s here = finish_infeasible-Good id s here
after_validation-Good id q valid b s here = persist-Good id q b s here

judge-Good :
    (id : Text) (q : Round) (x : SolverResult) (s : Store) → Present id s → Good id (judge id q x s)
judge-Good id q x s here = elim (Bool-cases x.complete) [
  | inl e ↦ rw (e, judge) (after_validation-Good id q x.validation x.persists s here)
  | inr e ↦ rw (e, judge) (finish_infeasible-Good id s here)
]

complete_round-Good :
    (id : Text) (x : SolverResult) (s : Store) → Present id s → Good id (complete_round id x s)
unfolding complete_round
complete_round-Good id x s (q, e) = elim (Bool-cases (is_solving q.status)) [
  | inl now ↦
      rw (e, complete_found, now)
        (judge-Good id (validating_round q) x (put_round id (validating_round q) s) (
          validating_round q,
          lookup-insert id id (validating_round q) s.rounds ∙ rw (text_eq_self id) refl,
        ))
  | inr late ↦ rw (e, complete_found, late) (q, e)
]

finalize-Ended : (id : Text) (o : Outcome) → Good id o → Ended id (finalize id o)
finalize-Ended id (returned s) g = g
finalize-Ended id (raised e s) g = mark_failed-Ended id (text "SOLVER_FINALIZE_ERROR") s g

conclude-Ended :
    (id : Text) (end : WorkerEnd) (s : Store) → Present id s → Ended id (conclude id end s)
conclude-Ended id exited s here = mark_failed-Ended id _ s here
conclude-Ended id invalid_result s here = mark_failed-Ended id _ s here
conclude-Ended id worker_error s here = mark_failed-Ended id _ s here
conclude-Ended id (reported x) s here =
    finalize-Ended id (complete_round id x s) (complete_round-Good id x s here)

closed_finished : (status : Status) → still_open status ≡ false → is_finished status ≡ true
closed_finished succeeded e = refl
closed_finished infeasible e = refl
closed_finished cancelled e = refl
closed_finished failed_recoverable e = refl
closed_finished failed e = refl
closed_finished queued e = cc
closed_finished preparing e = cc
closed_finished solving e = cc
closed_finished validating e = cc

monitor_cancelled-Ended :
    (id : Text) (s : Store) → Present id s → Ended id (monitor_cancelled id s (lookup id s.rounds))
monitor_cancelled-Ended id s (q, e) = elim (Bool-cases (still_open q.status)) [
  | inl f ↦ rw (e, monitor_cancelled, f) (mark_cancelled-Ended id (text "user_cancelled") s (q, e))
  | inr f ↦ rw (e, monitor_cancelled, f) (q, e, closed_finished q.status f)
]

-- When the monitor of a job has run, however the worker process ended and whether or not the job was
-- cancelled, its round has a final status and the job is forgotten.
pub monitor-Ended :
    (id : Text) (end : WorkerEnd) (m : Manager) (requested : Bool) (r : Round)
    → lookup id m.jobs ≡ some requested
    → lookup id m.store.rounds ≡ some r
    → Ended id (monitor id end m).store × (lookup id (monitor id end m).jobs ≡ none)
unfolding monitor
monitor-Ended id end m requested r j e =
    rw (j, monitor_found) (ended requested, lookup-erase id id m.jobs ∙ rw (text_eq_self id) refl)
  where
    ended :
        (b : Bool)
        → Ended id (
            if b
            then monitor_cancelled id m.store (lookup id m.store.rounds)
            else conclude id end m.store)
    ended true = monitor_cancelled-Ended id m.store (r, e)
    ended false = conclude-Ended id end m.store (r, e)
