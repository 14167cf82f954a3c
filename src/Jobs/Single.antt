-- ===== src/Jobs/Single.antt =====
-- The job manager runs one job at a time.
use academic_affairs_system.Common.{
  ℕ, ◌≤◌, ◌≡◌, refl, sym, subst, Bool, true, false, List, [], ◌∷◌, some, arith, inl, inr, length,
  Bool-cases, Option-cases,
}
use academic_affairs_system.Common.Text.{Text}
use academic_affairs_system.Common.Dict.{lookup, insert, erase}
use academic_affairs_system.Rounds.{Store, Outcome, returned, raised, Preparation, prepare_round}
use academic_affairs_system.Jobs.{
  Manager, Launch, request_unwritten, start_fails, worker_starts, has_active_job, is_ready, launch,
  after_preparation, start_round, request_found, request_cancel, finish_cancel, WorkerEnd,
  monitor_found, monitor,
}

-- What the interface and the event loop do, in any order.
pub data Move : Manager → Manager → Type 0 where
  starts :
      {m : Manager} (id : Text) (budget : ℕ) (parent_ok : Bool) (x : Preparation) (way : Launch)
      → Move m (start_round id budget parent_ok x way m)
  requests : {m : Manager} (id : Text) → Move m (request_cancel id m)
  finishes : {m : Manager} (id : Text) → Move m (finish_cancel id m)
  monitors : {m : Manager} (id : Text) (end : WorkerEnd) → Move m (monitor id end m)

pub data Moves : Manager → Manager → Type 0 where
  no_moves : {m : Manager} → Moves m m
  and_move : {m n o : Manager} → Moves m n → Move n o → Moves m o

length-insert_present :
    (k : Text) (v w : Bool) (d : List (Text × Bool))
    → lookup k d ≡ some w
    → length (insert k v d) ≡ length d
length-insert_present k v w [] e = cc
length-insert_present k v w ((j, u) ∷ d) e = ground (arith, length-insert_present k v w d)

length-erase : (k : Text) (d : List (Text × Bool)) → length (erase k d) ≤ length d
length-erase k [] = omega arith
length-erase k ((j, u) ∷ d) = ground (arith, length-erase k d)

launch-jobs :
    (id : Text) (b : Launch) (s : Store) (m : Manager)
    → m.jobs ≡ []
    → length (launch id b s m).jobs ≤ 1
launch-jobs id worker_starts s m e =
    subst (λ d. length (insert id false d) ≤ 1) (sym e) (omega arith)
launch-jobs id start_fails s m e = subst (λ d. length d ≤ 1) (sym e) (omega arith)
launch-jobs id request_unwritten s m e = subst (λ d. length d ≤ 1) (sym e) (omega arith)

after_preparation-jobs :
    (id : Text) (x : Preparation) (b : Launch) (o : Outcome) (m : Manager)
    → m.jobs ≡ []
    → length (after_preparation id x b o m).jobs ≤ 1
after_preparation-jobs id x b (raised r s) m e = subst (λ d. length d ≤ 1) (sym e) (omega arith)
after_preparation-jobs id x b (returned s) m e = elim (Bool-cases (is_ready x)) [
  | inl f ↦ rw (f, after_preparation) (launch-jobs id b s m e)
  | inr f ↦ rw (f, after_preparation) (subst (λ d. length d ≤ 1) (sym e) (omega arith))
]

no_job : (m : Manager) → has_active_job m ≡ false → m.jobs ≡ []
no_job m e = idle m.jobs e
  where
    idle : (d : List (Text × Bool)) → (elim d [ [] ↦ false | j ∷ (js → r) ↦ true ]) ≡ false → d ≡ []
    idle [] e' = refl
    idle (j ∷ js) e' = cc

start_round-jobs :
    (id : Text) (budget : ℕ) (parent_ok : Bool) (x : Preparation) (b : Launch) (m : Manager)
    → length m.jobs ≤ 1
    → length (start_round id budget parent_ok x b m).jobs ≤ 1
unfolding start_round
start_round-jobs id budget parent_ok x b m h = elim (Bool-cases (has_active_job m)) [
  | inl e ↦ rw e h
  | inr e ↦
      rw e
        (after_preparation-jobs id x b (prepare_round id budget parent_ok x m.store) m (no_job m e))
]

request_cancel-jobs : (id : Text) (m : Manager) → length (request_cancel id m).jobs ≡ length m.jobs
unfolding request_cancel
request_cancel-jobs id m = elim (Option-cases (lookup id m.jobs)) [
  | inl e ↦ rw (e, request_found) refl
  | inr (w, e) ↦ rw (e, request_found) (length-insert_present id true w m.jobs e)
]

monitor-jobs :
    (id : Text) (end : WorkerEnd) (m : Manager) → length (monitor id end m).jobs ≤ length m.jobs
unfolding monitor
monitor-jobs id end m = elim (Option-cases (lookup id m.jobs)) [
  | inl e ↦ rw (e, monitor_found) (omega arith)
  | inr (w, e) ↦ rw (e, monitor_found) (length-erase id m.jobs)
]

Move-jobs : (m n : Manager) → Move m n → length m.jobs ≤ 1 → length n.jobs ≤ 1
unfolding finish_cancel
Move-jobs m n (starts id budget parent_ok x b) h = start_round-jobs id budget parent_ok x b m h
Move-jobs m n (requests id) h = omega (arith, request_cancel-jobs id m)
Move-jobs m n (finishes id) h = h
Move-jobs m n (monitors id end) h = omega (arith, monitor-jobs id end m)

-- From a manager with at most one job, every order of starts, cancellations and ended workers leaves
-- at most one job.
pub at_most_one_job : (m n : Manager) → Moves m n → length m.jobs ≤ 1 → length n.jobs ≤ 1
at_most_one_job m n no_moves h = h
at_most_one_job m n (and_move {n = k} moves move) h =
    Move-jobs k n move (at_most_one_job m k moves h)
