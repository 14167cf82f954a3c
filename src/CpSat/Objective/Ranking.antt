-- ===== src/CpSat/Objective/Ranking.antt =====
-- The objective ranks by the score first: what breaks ties never outweighs a point of the score.
use academic_affairs_system.Common.{
  ℕ, ◌+◌, ◌-◌, ◌*◌, ◌≤◌, ◌<◌, ◌≡◌, refl, sym, subst, inl, inr, Bool, true, List, [], ◌∷◌, sum_of,
  length, arith, Elem,
}
use academic_affairs_system.Common.Text.{DistinctIds}
use academic_affairs_system.Common.Dict.{lookup}
use academic_affairs_system.Cgcs.Model.{ClassAgent, Problem}
use academic_affairs_system.Cgcs.Actions.{actions}
use academic_affairs_system.CpSat.Candidates.{Created, class_row, create_candidates}
use academic_affairs_system.CpSat.Compile.{candidates_at, or_nil}
use academic_affairs_system.CpSat.Solve.{satisfies_rows}
use academic_affairs_system.CpSat.Solve.Assigned.{satisfies_rows-Elem}
use academic_affairs_system.CpSat.Run.{score_weight}
use academic_affairs_system.CpSat.Objective.{
  variable_value, agents_terms, violation_terms, quality_value,
}
use academic_affairs_system.CpSat.Objective.Ties.{
  ids_of, fresh_for, base_value, tie_value, candidate_terms-split, one_tie, create_from-row,
  create_from-count, row-count, times_one_minus, rank_step,
}

-- The part of the score that the classes add.
abbrev pub chosen_penalty : (ℕ → Bool) → Created → List ClassAgent → ℕ
chosen_penalty x created =
    sum_of (λ g. base_value x (candidates_at created.candidates_by_class g.class_id))

module _ (x assigned : ℕ → Bool) (created : Created) where
  -- What breaks ties among the classes.
  abbrev agent_tie : ℕ → ClassAgent → ℕ
  agent_tie n g =
      n * (1 - variable_value assigned (lookup g.class_id created.assigned_by_class))
      + tie_value x (candidates_at created.candidates_by_class g.class_id)

  abbrev ties : ℕ → List ClassAgent → ℕ
  ties n [] = 0
  ties n (g ∷ gs) = agent_tie n g + ties (n - 1) gs

  agents_terms-split :
      (w n : ℕ) (gs : List ClassAgent)
      → agents_terms x assigned created w n gs ≡ chosen_penalty x created gs * w + ties n gs
  unfolding agents_terms
  agents_terms-split w n [] = omega arith
  agents_terms-split w n (g ∷ gs) = grind (
    arith,
    agents_terms-split w (n - 1) gs,
    candidate_terms-split x w (candidates_at created.candidates_by_class g.class_id),
  )

  ties-bound :
      (n high : ℕ) (gs : List ClassAgent)
      → n ≤ high
      → ((g : ClassAgent)
          → Elem g gs
          → tie_value x (candidates_at created.candidates_by_class g.class_id) ≤ length (actions g))
      → ties n gs ≤ length gs * high + sum_of (λ g. length (actions g)) gs
  ties-bound n high [] h each = omega arith
  ties-bound n high (g ∷ gs) h each = grind (
    arith,
    ties-bound (n - 1) high gs (omega arith) (λ k i. each k (inr i)),
    each g (inl refl),
    times_one_minus n (variable_value assigned (lookup g.class_id created.assigned_by_class)),
  )

violation_terms-split :
    (w : ℕ) (soft : List (ℕ × ℕ)) → violation_terms w soft ≡ sum_of (λ v. v.0 * v.1) soft * w
violation_terms-split w [] = omega arith
violation_terms-split w ((a, b) ∷ soft) = grind (arith, violation_terms-split w soft)

-- The score that the objective weighs: the penalties of the chosen candidates and of the soft
-- violations.
abbrev pub weighed_score : Problem → (ℕ → Bool) → List (ℕ × ℕ) → ℕ
weighed_score p x soft =
    chosen_penalty x (create_candidates p.agents) p.agents + sum_of (λ v. v.0 * v.1) soft

module _ (p : Problem) (d : DistinctIds (ids_of p.agents)) (x assigned : ℕ → Bool)
    (s : satisfies_rows x assigned (create_candidates p.agents).rows ≡ true) where
  each_tie :
      (g : ClassAgent)
      → Elem g p.agents
      → tie_value x (candidates_at (create_candidates p.agents).candidates_by_class g.class_id)
        ≤ length (actions g)
  unfolding create_candidates
  each_tie g i =
      let (k, e, a, row) = create_from-row p.agents 0 _ g d i in
      subst (λ o. tie_value x (or_nil o) ≤ length (actions g)) (sym e)
        (omega (
          arith,
          one_tie x g.class_id k 0 (actions g) (
              row-count x assigned (fresh_for g k) a (
                satisfies_rows-Elem x assigned (create_candidates p.agents).rows
                  (class_row (fresh_for g k) a) s row)),
        ))

  all_ties :
      ties x assigned (create_candidates p.agents) (length p.agents) p.agents
      < score_weight p (create_candidates p.agents)
  unfolding create_candidates
  all_ties = omega (
    arith,
    ties-bound x assigned (create_candidates p.agents) (length p.agents) (length p.agents) p.agents
        (omega arith) each_tie,
    create_from-count p.agents 0
        (record { candidates_by_class = []; assigned_by_class = []; rows = [] }) d (λ g i. refl),
  )

quality_value-split :
    (p : Problem) (x a : ℕ → Bool) (soft : List (ℕ × ℕ))
    → quality_value p (create_candidates p.agents) x a soft
      ≡ weighed_score p x soft * score_weight p (create_candidates p.agents)
        + ties x a (create_candidates p.agents) (length p.agents) p.agents
unfolding quality_value
quality_value-split p x a soft = grind (
  arith,
  agents_terms-split x a (create_candidates p.agents) (score_weight p (create_candidates p.agents))
      (length p.agents) p.agents,
  violation_terms-split (score_weight p (create_candidates p.agents)) soft,
)

-- If no two classes have one id, then of two choices that satisfy the rows of the classes the one
-- with the smaller score, the penalties of its candidates and soft violations, has the smaller value
-- of the objective, whatever the terms that break ties: the order of the classes that are not placed
-- and the indices of the actions.
pub quality_value-ranks :
    (p : Problem) (x a y b : ℕ → Bool) (soft soft' : List (ℕ × ℕ))
    → DistinctIds (ids_of p.agents)
    → satisfies_rows x a (create_candidates p.agents).rows ≡ true
    → satisfies_rows y b (create_candidates p.agents).rows ≡ true
    → weighed_score p x soft < weighed_score p y soft'
    → quality_value p (create_candidates p.agents) x a soft
      < quality_value p (create_candidates p.agents) y b soft'
quality_value-ranks p x a y b soft soft' d s t less =
    rw (quality_value-split p x a soft, quality_value-split p y b soft')
      (rank_step (weighed_score p x soft) (weighed_score p y soft')
        (score_weight p (create_candidates p.agents))
        (ties x a (create_candidates p.agents) (length p.agents) p.agents)
        (ties y b (create_candidates p.agents) (length p.agents) p.agents) less
        (all_ties p d x a s))
