-- ===== src/Cgcs/Run/Correct.antt =====
-- What a run of the greedy scheduler guarantees.
use academic_affairs_system.Common.{
  ◌≡◌, refl, subst, ap, ◌⊎◌, inl, inr, List, [], ◌∷◌, some, arith, Elem, Within, length,
}
use academic_affairs_system.Common.Text.{Text, text_eq_iff}
use academic_affairs_system.Common.Dict.{lookup, insert, lookup-insert}
use academic_affairs_system.Common.Sort.{Elem-sort_by, sort_by_keeps}
use academic_affairs_system.Cgcs.Model.{ClassAgent, Assignments, Problem}
use academic_affairs_system.Cgcs.Checks.{score}
use academic_affairs_system.Cgcs.Greedy.{start, ordered_agents}
use academic_affairs_system.Cgcs.Greedy.Placing.{
  IsSound, IsSound-empty, place_all-IsSound, place_all-Covered, place_all-failed, Covered,
}
use academic_affairs_system.Cgcs.Repair.{agents_by_id, repair_failed_agents, repair_rounds}
use academic_affairs_system.Cgcs.Repair.Undo.{IsIndex}
use academic_affairs_system.Cgcs.Repair.Rounds.{
  CoveredId, repair_rounds-IsSound, repair_rounds-CoveredId,
}
use academic_affairs_system.Cgcs.Repair.Ending.{repair_failed_agents_total}
use academic_affairs_system.Cgcs.Run.{GreedyResult, result_of, first_pass, run_cgcs_greedy}

pub agents_by_id-IsIndex :
    (agents gs : List ClassAgent) (d : List (Text × ClassAgent))
    → Within gs agents
    → IsIndex agents d
    → IsIndex agents (agents_by_id gs d)
unfolding agents_by_id
agents_by_id-IsIndex agents [] d w v = v
agents_by_id-IsIndex agents (g ∷ gs) d w v =
    agents_by_id-IsIndex agents gs (insert g.class_id g d) (λ x i. w x (inr i))
      λ k h e. either k h (found k h e)
  where
    found :
        (k : Text) (h : ClassAgent)
        → lookup k (insert g.class_id g d) ≡ some h
        → ((g.class_id ≡ k) × (g ≡ h)) ⊎ (lookup k d ≡ some h)
    found k h e = ground (arith, lookup-insert g.class_id k g d, text_eq_iff g.class_id k)

    either :
        (k : Text) (h : ClassAgent)
        → ((g.class_id ≡ k) × (g ≡ h)) ⊎ (lookup k d ≡ some h)
        → Elem h agents × (h.class_id ≡ k)
    either k h (inl (p, q)) = subst (λ x. Elem x agents × (x.class_id ≡ k)) q (w g (inl refl), p)
    either k h (inr e) = v k h e

module _ (p : Problem) where
  ordered_listed : Within (ordered_agents p.agents p.distributions) p.agents
  unfolding ordered_agents
  ordered_listed x i = Elem-sort_by _ x p.agents i

  first_pass-IsSound : IsSound p.agents p.distributions (first_pass p).assignments
  unfolding first_pass
  first_pass-IsSound =
      place_all-IsSound p.agents p.distributions (ordered_agents p.agents p.distributions) start
        ordered_listed (IsSound-empty p.agents p.distributions)

  first_pass-failed : Within (first_pass p).failed p.agents
  unfolding first_pass
  first_pass-failed =
      place_all-failed p.agents p.distributions (ordered_agents p.agents p.distributions) start
        ordered_listed (λ x i. absurd i)

  first_pass-Covered :
      (g : ClassAgent)
      → Elem g p.agents
      → Covered (first_pass p).assignments (first_pass p).failed g
  unfolding first_pass ordered_agents
  first_pass-Covered g i =
      place_all-Covered p.agents p.distributions (ordered_agents p.agents p.distributions) start g
        (inl (sort_by_keeps _ g p.agents i))

-- What holds of the result of a run.
pub record IsCorrect (p : Problem) (r : GreedyResult) : Type 0 where
  pub sound : IsSound p.agents p.distributions r.assignments
  pub failed_listed : Within r.failed p.agents
  pub covered : (g : ClassAgent) → Elem g p.agents → CoveredId r.assignments r.failed g.class_id
  pub counted : r.hard_violations ≡ length r.failed
  pub scored : r.metrics ≡ score r.assignments p.distributions

result-IsCorrect :
    (p : Problem) (o : Assignments × List ClassAgent)
    → repair_failed_agents p.distributions
        (agents_by_id p.agents [])
        (first_pass p).failed
        (first_pass p).assignments
      ≡ some o
    → (r : GreedyResult) × (run_cgcs_greedy p ≡ some r) × IsCorrect p r
unfolding run_cgcs_greedy repair_failed_agents
result-IsCorrect p o e = (
  _,
  ap (result_of p.distributions) e,
  record {
    sound = kept.0;
    failed_listed = kept.1;
    covered = λ g i. covered g (first_pass-Covered p g i);
    counted = refl;
    scored = refl;
  },
)
  where
    rounds :
        repair_rounds p.distributions
          (agents_by_id p.agents [])
          (length (first_pass p).failed)
          (first_pass p).failed
          (first_pass p).assignments
        ≡ some o
    rounds = e

    kept : IsSound p.agents p.distributions o.0 × Within o.1 p.agents
    kept =
        repair_rounds-IsSound p.agents p.distributions (agents_by_id p.agents [])
          (agents_by_id-IsIndex p.agents p.agents [] (λ x i. i) (λ k g n. cc)) _ _ _ o rounds
          (first_pass-failed p) (first_pass-IsSound p)

    covered :
        (g : ClassAgent)
        → Covered (first_pass p).assignments (first_pass p).failed g
        → CoveredId o.0 o.1 g.class_id
    covered g (inl h) =
        repair_rounds-CoveredId p.distributions (agents_by_id p.agents [])
          (length (first_pass p).failed) (first_pass p).failed (first_pass p).assignments o
          g.class_id rounds (inl h)
    covered g (inr i) =
        repair_rounds-CoveredId p.distributions (agents_by_id p.agents [])
          (length (first_pass p).failed) (first_pass p).failed (first_pass p).assignments o
          g.class_id rounds (inr (g, i, refl))

-- A run ends with a result. In it every class that is placed has one of its own actions, no two of
-- them share a room at overlapping times or violate a required distribution that names both, each
-- class is placed or stands among the failed ones, which are classes of the problem, and
-- `hard_violations` counts those.
pub run_cgcs_greedy-IsCorrect :
    (p : Problem) → (r : GreedyResult) × (run_cgcs_greedy p ≡ some r) × IsCorrect p r
run_cgcs_greedy-IsCorrect p =
    let (o, e) =
      repair_failed_agents_total p.distributions (agents_by_id p.agents []) (first_pass p).failed
        (first_pass p).assignments in
    result-IsCorrect p o e
