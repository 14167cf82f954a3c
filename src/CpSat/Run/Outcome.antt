-- ===== src/CpSat/Run/Outcome.antt =====
-- What a run of the constraint solver's scheduler guarantees, whatever the solver answers.
use academic_affairs_system.Common.{
  ◌≡◌, ◌≢◌, ◌↔◌, ◌==◌, ℕ, refl, sym, subst, ◌∙◌, inl, inr, Bool, true, false, List, [], ◌∷◌, Option,
  none, some, arith, Elem, length, Bool-cases, if◌then◌else◌,
}
use academic_affairs_system.Common.Text.{Text}
use academic_affairs_system.Cgcs.Model.{ClassAgent, Assignments, Problem}
use academic_affairs_system.Common.Dict.{has_key}
use academic_affairs_system.Cgcs.Greedy.Placing.{IsSound}
use academic_affairs_system.Cgcs.Run.Correct.{run_cgcs_greedy-IsCorrect}
use academic_affairs_system.CpSat.Candidates.{create_candidates}
use academic_affairs_system.CpSat.Compile.{compile_constraints}
use academic_affairs_system.CpSat.Solve.{satisfies_compiled, read_assignments}
use academic_affairs_system.CpSat.Solve.Decoded.{read_assignments-IsSound}
use academic_affairs_system.CpSat.Limits.{satisfies_limits}
use academic_affairs_system.CpSat.Warm.{ClassNode, greedy_assignments}
use academic_affairs_system.CpSat.Warm.Kept.{greedy_assignments-IsSound}
use academic_affairs_system.CpSat.Run.{
  Model, satisfies_model, Answer, has_solution, first_model, second_model, read_or,
  assignments_after, can_optimize_quality, finish, run_solver, run_cp_sat, unassigned_ids,
  starting_nodes, nodes_of_result, is_zero_penalty,
}

-- What the solver promises: where its status is OPTIMAL or FEASIBLE, its values satisfy the model.
abbrev pub Respects : (Model → Answer) → Type 0
Respects solve =
    (m : Model)
    → has_solution (solve m).status ≡ true
    → satisfies_model (solve m).literals (solve m).assigned m ≡ true

module _ (x : ℕ → Bool) (assigned : ℕ → Bool) (m : Model) where
  pub compiled-of_model :
      satisfies_model x assigned m ≡ true
      → satisfies_compiled x assigned m.created m.compiled ≡ true
  unfolding satisfies_model
  compiled-of_model e = ground arith

  pub limits-of_model : satisfies_model x assigned m ≡ true → satisfies_limits x m.limits ≡ true
  unfolding satisfies_model
  limits-of_model e = ground arith

module _ (solve : Model → Answer) (respects : Respects solve) (time_left : Bool) (p : Problem) where
  -- The model's table and conflicts are those of the problem.
  record IsModelOf (m : Model) : Type 0 where
    created : m.created ≡ create_candidates p.agents
    compiled :
        m.compiled
        ≡ compile_constraints p.distributions (create_candidates p.agents).candidates_by_class

  first_model-IsModelOf : (greedy : Assignments) → IsModelOf (first_model p greedy)
  unfolding first_model
  first_model-IsModelOf greedy = record { created = refl; compiled = refl }

  second_model-IsModelOf :
      (m : Model) (found : Assignments) → IsModelOf m → IsModelOf (second_model p m found)
  unfolding second_model
  second_model-IsModelOf m found h = record { created = h.created; compiled = h.compiled }

  read-IsSound :
      (m : Model)
      → IsModelOf m
      → has_solution (solve m).status ≡ true
      → IsSound p.agents p.distributions
          (read_assignments (solve m).literals m.created.candidates_by_class)
  read-IsSound m h answered =
      subst
        (λ c.
          IsSound p.agents p.distributions
            (read_assignments (solve m).literals c.candidates_by_class))
        (sym h.created)
        (read_assignments-IsSound p (solve m).literals (solve m).assigned (
          subst
            (λ c.
              satisfies_compiled (solve m).literals (solve m).assigned (create_candidates p.agents)
                c
              ≡ true)
            h.compiled
            (subst
              (λ c. satisfies_compiled (solve m).literals (solve m).assigned c m.compiled ≡ true)
              h.created
              (compiled-of_model (solve m).literals (solve m).assigned m (respects m answered)))))

  read_or-IsSound :
      (m : Model) (others : Assignments)
      → IsModelOf m
      → IsSound p.agents p.distributions others
      → IsSound p.agents p.distributions (read_or m (solve m) others)
  read_or-IsSound m others h s = elim (Bool-cases (has_solution (solve m).status)) [
    | inl e ↦
        subst
          (λ t. IsSound p.agents p.distributions (
            if t
            then read_assignments (solve m).literals m.created.candidates_by_class
            else others))
          (sym e) (read-IsSound m h e)
    | inr e ↦
        subst
          (λ t. IsSound p.agents p.distributions (
            if t
            then read_assignments (solve m).literals m.created.candidates_by_class
            else others))
          (sym e) s
  ]

  -- The solver's answers keep sound what was sound at the start.
  run_solver-IsSound :
      (greedy : Assignments)
      → IsSound p.agents p.distributions greedy
      → IsSound p.agents p.distributions (run_solver solve time_left p greedy).assignments
  unfolding run_solver finish
  run_solver-IsSound greedy s =
      elim (Bool-cases (can_optimize_quality p time_left (solve m) (read_or m (solve m) greedy))) [
        | inl e ↦ rw e (
            read_or-IsSound (second_model p m (read_or m (solve m) greedy))
              (read_or m (solve m) greedy)
              (second_model-IsModelOf m (read_or m (solve m) greedy) (first_model-IsModelOf greedy))
              found)
        | inr e ↦ rw e found
      ]
    where
      m : Model
      m = first_model p greedy

      found : IsSound p.agents p.distributions (read_or m (solve m) greedy)
      found = read_or-IsSound m greedy (first_model-IsModelOf greedy) s

-- A warm start, if there is one, is read to sound assignments.
abbrev pub WarmIsSound : Problem → Option (List ClassNode) → Type 0
WarmIsSound p warm =
    (nodes : List ClassNode)
    → warm ≡ some nodes
    → IsSound p.agents p.distributions (greedy_assignments p nodes)

greedy_start-IsSound :
    (p : Problem) (warm : Option (List ClassNode))
    → WarmIsSound p warm
    → IsSound p.agents p.distributions (greedy_assignments p (starting_nodes p warm))
greedy_start-IsSound p none h =
    let (r, e, ok) = run_cgcs_greedy-IsCorrect p in
    subst (λ o. IsSound p.agents p.distributions (greedy_assignments p (nodes_of_result o))) (sym e)
      (greedy_assignments-IsSound p r.assignments ok.sound)
greedy_start-IsSound p (some nodes) h = h nodes refl

-- If the solver's values satisfy the model whenever it says OPTIMAL or FEASIBLE, and there is no warm
-- start or one that is read to such assignments, then a run gives assignments in which every placed
-- class has one of its own actions and no two placed classes share a room at overlapping times or
-- break a required distribution that names both: on the fast path, when the solver has no answer in
-- time, after its first answer and after its second.
pub run_cp_sat-IsSound :
    (solve : Model → Answer) (time_left : Bool) (p : Problem) (warm : Option (List ClassNode))
    → Respects solve
    → WarmIsSound p warm
    → IsSound p.agents p.distributions (run_cp_sat solve time_left p warm).assignments
unfolding run_cp_sat
run_cp_sat-IsSound solve time_left p warm respects h =
    elim (Bool-cases (is_zero_penalty p (greedy_assignments p (starting_nodes p warm)))) [
      | inl e ↦ rw e (greedy_start-IsSound p warm h)
      | inr e ↦ rw e (
          run_solver-IsSound solve respects time_left p
            (greedy_assignments p (starting_nodes p warm)) (greedy_start-IsSound p warm h))
    ]

unassigned_ids-nil :
    (gs : List ClassAgent) (m : Assignments)
    → (unassigned_ids gs m ≡ []) ↔ ((g : ClassAgent) → Elem g gs → has_key g.class_id m ≡ true)
unfolding unassigned_ids
unassigned_ids-nil [] m = (λ e g i. absurd i, λ h. refl)
unassigned_ids-nil (g ∷ gs) m = elim (Bool-cases (has_key g.class_id m)) [
  | inl e ↦ rw e (
    λ nil. λ h i. elim i [
      | inl same ↦ subst (λ w. has_key w.class_id m ≡ true) (sym same) e
      | inr later ↦ (unassigned_ids-nil gs m).0 nil h later
    ],
    λ all. (unassigned_ids-nil gs m).1 (λ h i. all h (inr i)),
  )
  | inr e ↦ rw e (
    λ cons. absurd (cons-not-nil cons),
    λ all. absurd (true-not-false (sym (all g (inl refl)) ∙ e)),
  )
]
  where
    true-not-false : true ≢ false
    true-not-false p = cc

    cons-not-nil : {x : Text} {xs : List Text} → (x ∷ xs) ≢ []
    cons-not-nil p = cc

length-zero : {A : Type 0} (xs : List A) → ((length xs == 0) ≡ true) ↔ (xs ≡ [])
length-zero [] = (λ e. refl, λ e. refl)
length-zero (x ∷ xs) = (λ e. ground arith, λ e. cc)

-- The solver's run says that the schedule is complete exactly when every class of the problem is
-- placed in its assignments.
pub complete_schedule_feasible_iff :
    (solve : Model → Answer) (time_left : Bool) (p : Problem) (greedy : Assignments)
    → ((run_solver solve time_left p greedy).complete_schedule_feasible ≡ true) ↔ (
        (g : ClassAgent)
        → Elem g p.agents
        → has_key g.class_id (run_solver solve time_left p greedy).assignments ≡ true)
unfolding run_solver finish
complete_schedule_feasible_iff solve time_left p greedy =
    elim (Bool-cases (can_optimize_quality p time_left (solve m) found)) [
      | inl e ↦ rw e (iff (assignments_after m (some (solve (second_model p m found))) found))
      | inr e ↦ rw e (iff found)
    ]
  where
    m : Model
    m = first_model p greedy

    found : Assignments
    found = read_or m (solve m) greedy

    iff :
        (final : Assignments)
        → ((length (unassigned_ids p.agents final) == 0) ≡ true)
          ↔ ((g : ClassAgent) → Elem g p.agents → has_key g.class_id final ≡ true)
    iff final = (
      λ e.
          (unassigned_ids-nil p.agents final).0 ((length-zero (unassigned_ids p.agents final)).0 e),
      λ h.
          (length-zero (unassigned_ids p.agents final)).1 ((unassigned_ids-nil p.agents final).1 h),
    )
