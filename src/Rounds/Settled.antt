-- ===== src/Rounds/Settled.antt =====
-- A round that has succeeded, is infeasible or was cancelled never changes again.
use academic_affairs_system.Common.{
  ℕ, ◌≡◌, refl, sym, subst, ◌∙◌, Bool, true, false, ◌&&◌, List, [], ◌∷◌, some, leb, arith, inl, inr,
  Bool-cases, Option-cases,
}
use academic_affairs_system.Common.Text.{Text, text, text_eq, text_eq_iff, text_eq_self}
use academic_affairs_system.Common.Dict.{lookup, has_key, lookup-insert}
use academic_affairs_system.Rounds.{
  Status, Round, Store, store_of, put_round, is_finished, is_settled, is_solving, queued, preparing,
  solving, validating, succeeded, infeasible, cancelled, failed, failed_recoverable, Preparation,
  snapshot_raises, compile_errors, solution_raises, ready, cancel_found, mark_cancelled,
  cancelled_round, fail_found, failed_round, mark_failed, infeasible_found, finish_infeasible,
  fail_all, interrupted_ids, recover_interrupted_rounds, Validation, validation_raises, hard_issues,
  valid, SolverResult, persist, after_validation, validating_round, judge, complete_found,
  complete_round, prepare_with, prepare_round, preparing_round, solving_round, infeasible_round,
}

-- Every settled round of the first store stands unchanged in the second.
abbrev pub Keeps : Store → Store → Type 0
Keeps s t =
    (k : Text) (r : Round)
    → lookup k s.rounds ≡ some r
    → is_settled r.status ≡ true
    → lookup k t.rounds ≡ some r

-- The round is not settled, or there is none.
abbrev Open : Text → Store → Type 0
Open id s = (r : Round) → lookup id s.rounds ≡ some r → is_settled r.status ≡ false

Keeps-put : (id : Text) (q : Round) (s : Store) → Open id s → Keeps s (put_round id q s)
Keeps-put id q s o k r e h = elim (Bool-cases (text_eq id k)) [
  | inl same ↦ absurd (
      settled (o r (subst (λ w. lookup w s.rounds ≡ some r) (sym ((text_eq_iff id k).0 same)) e)) h)
  | inr apart ↦ lookup-insert id k q s.rounds ∙ rw apart e
]
  where
    settled : is_settled r.status ≡ false → is_settled r.status ≡ true → ⊥
    settled p q' = cc

Open-found :
    (id : Text) (q : Round) (s : Store)
    → lookup id s.rounds ≡ some q
    → is_settled q.status ≡ false
    → Open id s
Open-found id q s e o r f = same (sym e ∙ f)
  where
    same : some q ≡ some r → is_settled r.status ≡ false
    same p = cc

Open-put :
    (id : Text) (q : Round) (s : Store) → is_settled q.status ≡ false → Open id (put_round id q s)
Open-put id q s o =
    Open-found id q (put_round id q s) (lookup-insert id id q s.rounds ∙ rw (text_eq_self id) refl)
      o

Open-missing : (id : Text) (s : Store) → has_key id s.rounds ≡ false → Open id s
Open-missing id s h r e = ground arith

not_finished : (status : Status) → is_finished status ≡ false → is_settled status ≡ false
not_finished queued e = refl
not_finished preparing e = refl
not_finished solving e = refl
not_finished validating e = refl
not_finished succeeded e = cc
not_finished infeasible e = cc
not_finished cancelled e = cc
not_finished failed e = refl
not_finished failed_recoverable e = refl

not_settled : (status : Status) → is_solving status ≡ true → is_settled status ≡ false
not_settled solving e = refl
not_settled queued e = refl
not_settled preparing e = refl
not_settled validating e = refl
not_settled succeeded e = cc
not_settled infeasible e = cc
not_settled cancelled e = cc
not_settled failed e = refl
not_settled failed_recoverable e = refl

pub Keeps-trans : (s t u : Store) → Keeps s t → Keeps t u → Keeps s u
Keeps-trans s t u h g k r e q = g k r (h k r e q) q

pub mark_cancelled-Keeps :
    (id reason : Text) (s : Store) → Keeps s (store_of (mark_cancelled id reason s))
unfolding mark_cancelled
mark_cancelled-Keeps id reason s = elim (Option-cases (lookup id s.rounds)) [
  | inl e ↦ rw (e, cancel_found) (λ k r f h. f)
  | inr (q, e) ↦ elim (Bool-cases (is_finished q.status)) [
    | inl done ↦ rw (e, cancel_found, done) (λ k r f h. f)
    | inr open_yet ↦
        rw (e, cancel_found, open_yet)
          (Keeps-put id (cancelled_round reason q) s
            (Open-found id q s e (not_finished q.status open_yet)))
  ]
]

pub mark_failed-Keeps : (id code : Text) (s : Store) → Keeps s (store_of (mark_failed id code s))
unfolding mark_failed
mark_failed-Keeps id code s = elim (Option-cases (lookup id s.rounds)) [
  | inl e ↦ rw (e, fail_found) (λ k r f h. f)
  | inr (q, e) ↦ elim (Bool-cases (is_settled q.status)) [
    | inl done ↦ rw (e, fail_found, done) (λ k r f h. f)
    | inr open_yet ↦
        rw (e, fail_found, open_yet)
          (Keeps-put id (failed_round code q) s (Open-found id q s e open_yet))
  ]
]

finish_infeasible-Keeps :
    (id : Text) (s : Store) → Open id s → Keeps s (store_of (finish_infeasible id s))
unfolding finish_infeasible
finish_infeasible-Keeps id s o = elim (Option-cases (lookup id s.rounds)) [
  | inl e ↦ rw (e, infeasible_found) (λ k r f h. f)
  | inr (q, e) ↦ rw (e, infeasible_found) (Keeps-put id (infeasible_round q) s o)
]

fail_all-Keeps : (ids : List Text) (s : Store) → Keeps s (fail_all ids s)
unfolding fail_all
fail_all-Keeps [] s = λ k r f h. f
fail_all-Keeps (id ∷ ids) s =
    Keeps-trans s (store_of (mark_failed id (text "INTERRUPTED_ON_RESTART") s))
      (fail_all ids (store_of (mark_failed id (text "INTERRUPTED_ON_RESTART") s)))
      (mark_failed-Keeps id (text "INTERRUPTED_ON_RESTART") s) (fail_all-Keeps ids _)

pub recover_interrupted_rounds-Keeps : (s : Store) → Keeps s (recover_interrupted_rounds s)
unfolding recover_interrupted_rounds
recover_interrupted_rounds-Keeps s = fail_all-Keeps (interrupted_ids s.rounds) s

persist-Keeps :
    (id : Text) (q : Round) (b : Bool) (s : Store)
    → Open id s
    → Keeps s (store_of (persist id q b s))
persist-Keeps id q true s o = Keeps-put id _ s o
persist-Keeps id q false s o = λ k r f h. f

after_validation-Keeps :
    (id : Text) (q : Round) (v : Validation) (b : Bool) (s : Store)
    → Open id s
    → Keeps s (store_of (after_validation id q v b s))
after_validation-Keeps id q validation_raises b s o = λ k r f h. f
after_validation-Keeps id q hard_issues b s o = finish_infeasible-Keeps id s o
after_validation-Keeps id q valid b s o = persist-Keeps id q b s o

judge-Keeps :
    (id : Text) (q : Round) (x : SolverResult) (s : Store)
    → Open id s
    → Keeps s (store_of (judge id q x s))
judge-Keeps id q x s o = elim (Bool-cases x.complete) [
  | inl e ↦ rw (e, judge) (after_validation-Keeps id q x.validation x.persists s o)
  | inr e ↦ rw (e, judge) (finish_infeasible-Keeps id s o)
]

pub complete_round-Keeps :
    (id : Text) (x : SolverResult) (s : Store) → Keeps s (store_of (complete_round id x s))
unfolding complete_round
complete_round-Keeps id x s = elim (Option-cases (lookup id s.rounds)) [
  | inl e ↦ rw (e, complete_found) (λ k r f h. f)
  | inr (q, e) ↦ elim (Bool-cases (is_solving q.status)) [
    | inl now ↦
        rw (e, complete_found, now)
          (Keeps-trans s (put_round id (validating_round q) s)
            (store_of (judge id (validating_round q) x (put_round id (validating_round q) s)))
            (Keeps-put id (validating_round q) s (Open-found id q s e (not_settled q.status now)))
            (judge-Keeps id (validating_round q) x (put_round id (validating_round q) s)
              (Open-put id (validating_round q) s refl)))
    | inr late ↦ rw (e, complete_found, late) (λ k r f h. f)
  ]
]

fail_after-Keeps :
    (id code : Text) (q : Round) (s : Store)
    → Open id s
    → Keeps s (store_of (mark_failed id code (put_round id q s)))
fail_after-Keeps id code q s o =
    Keeps-trans s (put_round id q s) (store_of (mark_failed id code (put_round id q s)))
      (Keeps-put id q s o) (mark_failed-Keeps id code (put_round id q s))

prepare_with-Keeps :
    (id : Text) (x : Preparation) (s : Store) → Open id s → Keeps s (store_of (prepare_with id x s))
prepare_with-Keeps id snapshot_raises s o = fail_after-Keeps id _ preparing_round s o
prepare_with-Keeps id compile_errors s o =
    Keeps-trans s (put_round id solving_round s)
      (store_of (finish_infeasible id (put_round id solving_round s)))
      (Keeps-put id solving_round s o)
      (finish_infeasible-Keeps id (put_round id solving_round s) (Open-put id solving_round s refl))
prepare_with-Keeps id solution_raises s o = fail_after-Keeps id _ solving_round s o
prepare_with-Keeps id ready s o = Keeps-put id _ s o

pub prepare_round-Keeps :
    (id : Text) (budget : ℕ) (parent_ok : Bool) (x : Preparation) (s : Store)
    → Keeps s (store_of (prepare_round id budget parent_ok x s))
unfolding prepare_round
prepare_round-Keeps id budget parent_ok x s = elim (Bool-cases (leb 10 budget && leb budget 1800)) [
  | inr e ↦ rw e (λ k r f h. f)
  | inl e ↦ elim (Bool-cases parent_ok) [
    | inr e' ↦ rw (e, e') (λ k r f h. f)
    | inl e' ↦ elim (Bool-cases (has_key id s.rounds)) [
      | inl there ↦ rw (e, e', there) (λ k r f h. f)
      | inr new ↦ rw (e, e', new) (prepare_with-Keeps id x s (Open-missing id s new))
    ]
  ]
]
