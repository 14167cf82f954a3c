-- ===== src/Rounds/Steps.antt =====
-- The calls that the interface and the job manager make on the rounds, as steps of the store.
use mathlib.Core.List.{append-nil, append_assoc}
use academic_affairs_system.Common.{
  ℕ, ◌≡◌, refl, sym, ap, ◌∙◌, Bool, true, List, [], ◌∷◌, ◌++◌, some, inl, inr, Bool-cases,
  Option-cases,
}
use academic_affairs_system.Common.Text.{Text, text_eq, text_eq_iff}
use academic_affairs_system.Common.Dict.{lookup, lookup-insert}
use academic_affairs_system.Rounds.{
  Round, Store, store_of, add_event, event_found, record_event, is_settled, mark_cancelled,
  mark_failed, recover_interrupted_rounds, SolverResult, complete_round, Preparation, prepare_round,
}
use academic_affairs_system.Rounds.Settled.{
  Keeps, mark_cancelled-Keeps, mark_failed-Keeps, recover_interrupted_rounds-Keeps,
  complete_round-Keeps, prepare_round-Keeps,
}

-- A call, whether it returns or raises.
pub data Step : Store → Store → Type 0 where
  prepares :
      {s : Store} (id : Text) (budget : ℕ) (parent_ok : Bool) (x : Preparation)
      → Step s (store_of (prepare_round id budget parent_ok x s))
  completes : {s : Store} (id : Text) (x : SolverResult) → Step s (store_of (complete_round id x s))
  cancels : {s : Store} (id reason : Text) → Step s (store_of (mark_cancelled id reason s))
  fails : {s : Store} (id code : Text) → Step s (store_of (mark_failed id code s))
  recovers : {s : Store} → Step s (recover_interrupted_rounds s)
  records : {s : Store} (id name : Text) → Step s (record_event id name s)

pub data Steps : Store → Store → Type 0 where
  no_calls : {s : Store} → Steps s s
  and_then : {s t u : Store} → Steps s t → Step t u → Steps s u

-- The round is the same but for events that were recorded since.
pub record Remains (r q : Round) : Type 0 where
  pub status : q.status ≡ r.status
  pub stop_reason : q.stop_reason ≡ r.stop_reason
  pub error_code : q.error_code ≡ r.error_code
  pub events : (later : List Text) × (q.events ≡ r.events ++ later)

Remains-refl : (r : Round) → Remains r r
Remains-refl r = record {
  status = refl;
  stop_reason = refl;
  error_code = refl;
  events = ([], sym (append-nil r.events));
}

Remains-trans : (r q o : Round) → Remains r q → Remains q o → Remains r o
Remains-trans r q o h g =
    let (xs, e) = h.events in
    let (ys, f) = g.events in
    record {
      status = g.status ∙ h.status;
      stop_reason = g.stop_reason ∙ h.stop_reason;
      error_code = g.error_code ∙ h.error_code;
      events = (xs ++ ys, f ∙ (ap (λ w. w ++ ys) e ∙ append_assoc r.events xs ys));
    }

-- Every settled round of the first store remains in the second.
abbrev pub Remaining : Store → Store → Type 0
Remaining s t =
    (k : Text) (r : Round)
    → lookup k s.rounds ≡ some r
    → is_settled r.status ≡ true
    → (q : Round) × (lookup k t.rounds ≡ some q) × Remains r q

Remaining-of_Keeps : (s t : Store) → Keeps s t → Remaining s t
Remaining-of_Keeps s t h k r e q = (r, h k r e q, Remains-refl r)

record_event-Remaining : (id name : Text) (s : Store) → Remaining s (record_event id name s)
unfolding record_event
record_event-Remaining id name s k r e h = elim (Option-cases (lookup id s.rounds)) [
  | inl missing ↦ rw (missing, event_found) (r, e, Remains-refl r)
  | inr (q, found) ↦
      rw (found, event_found)
        (elim (Bool-cases (text_eq id k)) [
          | inr apart ↦
              (r, lookup-insert id k (add_event name q) s.rounds ∙ rw apart e, Remains-refl r)
          | inl same ↦ (
            add_event name q,
            lookup-insert id k (add_event name q) s.rounds ∙ rw same refl,
            with_event q (
                some_same
                  (sym found ∙ (ap (λ w. lookup w s.rounds) ((text_eq_iff id k).0 same) ∙ e))),
          )
        ])
]
  where
    some_same : {q : Round} → some q ≡ some r → q ≡ r
    some_same p = cc

    with_event : (q : Round) → q ≡ r → Remains r (add_event name q)
    with_event q p = record {
      status = ap (λ (w : Round). w.status) p;
      stop_reason = ap (λ (w : Round). w.stop_reason) p;
      error_code = ap (λ (w : Round). w.error_code) p;
      events = (name ∷ [], ap (λ (w : Round). w.events ++ name ∷ []) p);
    }

pub Step-Remaining : {s t : Store} → Step s t → Remaining s t
Step-Remaining {s} {t} (prepares id budget parent_ok x) =
    Remaining-of_Keeps s t (prepare_round-Keeps id budget parent_ok x s)
Step-Remaining {s} {t} (completes id x) = Remaining-of_Keeps s t (complete_round-Keeps id x s)
Step-Remaining {s} {t} (cancels id reason) =
    Remaining-of_Keeps s t (mark_cancelled-Keeps id reason s)
Step-Remaining {s} {t} (fails id code) = Remaining-of_Keeps s t (mark_failed-Keeps id code s)
Step-Remaining {s} {t} recovers = Remaining-of_Keeps s t (recover_interrupted_rounds-Keeps s)
Step-Remaining {s} {t} (records id name) = record_event-Remaining id name s

-- A round that has succeeded, is infeasible or was cancelled keeps its status, its stop reason, its
-- error code and the events it has, through every sequence of calls: late results, failures,
-- cancellations and the recovery at the next start change nothing of it, and `record_event` can only
-- add events after those that are there.
pub settled_forever :
    (s t : Store) (id : Text) (r : Round)
    → Steps s t
    → lookup id s.rounds ≡ some r
    → is_settled r.status ≡ true
    → (q : Round) × (lookup id t.rounds ≡ some q) × Remains r q
settled_forever s t id r no_calls e h = (r, e, Remains-refl r)
settled_forever s t id r (and_then {t = u} steps step) e h =
    let (q, f, same) = settled_forever s u id r steps e h in
    let (o, g, next) = Step-Remaining step id q f (ap is_settled same.status ∙ h) in
    (o, g, Remains-trans r q o same next)
