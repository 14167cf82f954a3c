-- ===== src/Cgcs/Checks/Soft.antt =====
-- The penalty that the greedy search adds for an action is the growth of the score.
use academic_affairs_system.Common.{
  ℕ, ◌+◌, ◌≡◌, refl, sym, subst, true, false, List, [], ◌∷◌, none, arith, sum_of, All, Bool-cases,
  Option-cases, if◌then◌else◌, inl, inr,
}
use academic_affairs_system.Common.Text.{
  Text, text_eq, eq-of-text_eq, text_eq_self, contains, DistinctIds,
}
use academic_affairs_system.Common.Dict.{lookup, insert, values, lookup-insert}
use academic_affairs_system.Cgcs.Model.{Action, Distribution, Assignments}
use academic_affairs_system.Cgcs.Rules.Symmetry.{violates_comm}
use academic_affairs_system.Cgcs.Checks.{
  breaks, soft_penalty_of, incremental_soft_penalty, pair_breaks, pair_penalties,
  distribution_penalty, score,
}
use academic_affairs_system.Cgcs.Greedy.{full_penalty}

pub sum_values-insert :
    {V : Type 0} (f : V → ℕ) (k : Text) (v : V) (m : List (Text × V))
    → lookup k m ≡ none
    → sum_of f (values (insert k v m)) ≡ sum_of f (values m) + f v
sum_values-insert f k v [] h = omega arith
sum_values-insert f k v ((j, w) ∷ m) h = ground (arith, sum_values-insert f k v m)

module _ (d : Distribution) (c : Action) (m : Assignments) (new : lookup c.class_id m ≡ none) where
  -- The assignments with the action placed.
  abbrev placed : Assignments
  placed = insert c.class_id c m

  -- What one pair adds.
  abbrev pair_term : Assignments → Text → Text → ℕ
  pair_term n k j = if pair_breaks d n k j then d.penalty else 0

  abbrev term : Text → ℕ
  term k = if breaks d c m k then d.penalty else 0

  pair_term_other :
      (k j : Text)
      → text_eq c.class_id k ≡ false
      → text_eq c.class_id j ≡ false
      → pair_term placed k j ≡ pair_term m k j
  pair_term_other k j e f =
      ground (arith, lookup-insert c.class_id k c m, lookup-insert c.class_id j c m)

  pair_term_left :
      (j : Text) → text_eq c.class_id j ≡ false → pair_term placed c.class_id j ≡ term j
  unfolding breaks
  pair_term_left j f = ground (
    arith,
    lookup-insert c.class_id c.class_id c m,
    lookup-insert c.class_id j c m,
    text_eq_self c.class_id,
  )

  pair_term_right :
      (k : Text) → text_eq c.class_id k ≡ false → pair_term placed k c.class_id ≡ term k
  unfolding breaks
  pair_term_right k e = elim (Option-cases (lookup k m)) [
    | inl n ↦ ground (
      arith,
      lookup-insert c.class_id c.class_id c m,
      lookup-insert c.class_id k c m,
      text_eq_self c.class_id,
    )
    | inr (o, n) ↦ ground (
      arith,
      lookup-insert c.class_id c.class_id c m,
      lookup-insert c.class_id k c m,
      text_eq_self c.class_id,
      violates_comm d o c,
    )
  ]

  pair_term_unplaced : (j : Text) → pair_term m c.class_id j ≡ 0
  pair_term_unplaced j = ground arith

  pair_term_unplaced_right : (k : Text) → pair_term m k c.class_id ≡ 0
  pair_term_unplaced_right k = elim (Option-cases (lookup k m)) [
    | inl n ↦ ground arith
    | inr o ↦ ground arith
  ]

  term_self : term c.class_id ≡ 0
  unfolding breaks
  term_self = ground arith

  -- A row without the action's class, as the left class.
  row_left :
      (ids : List Text)
      → contains c.class_id ids ≡ false
      → sum_of (pair_term placed c.class_id) ids ≡ sum_of term ids
  row_left [] h = refl
  row_left (k ∷ ks) h = ground (arith, row_left ks, pair_term_left k)

  row_unplaced : (ids : List Text) → sum_of (pair_term m c.class_id) ids ≡ 0
  row_unplaced [] = refl
  row_unplaced (k ∷ ks) = ground (arith, row_unplaced ks, pair_term_unplaced k)

  row_other :
      (k : Text) (ids : List Text)
      → text_eq c.class_id k ≡ false
      → contains c.class_id ids ≡ false
      → sum_of (pair_term placed k) ids ≡ sum_of (pair_term m k) ids
  row_other k [] e h = refl
  row_other k (j ∷ js) e h = ground (arith, row_other k js, pair_term_other k j)

  -- A row that names the action's class once.
  row_with :
      (k : Text) (ids : List Text)
      → text_eq c.class_id k ≡ false
      → DistinctIds ids
      → contains c.class_id ids ≡ true
      → sum_of (pair_term placed k) ids ≡ sum_of (pair_term m k) ids + term k
  row_with k [] e u h = cc
  row_with k (j ∷ js) e u h = elim (Bool-cases (text_eq c.class_id j)) [
    | inl same ↦ here (eq-of-text_eq c.class_id j same)
    | inr other ↦ ground (arith, row_with k js e u.1, pair_term_other k j)
  ]
    where
      here :
          c.class_id ≡ j
          → sum_of (pair_term placed k) (j ∷ js) ≡ sum_of (pair_term m k) (j ∷ js) + term k
      here same =
          subst
            (λ w.
              pair_term placed k w + sum_of (pair_term placed k) js
              ≡ pair_term m k w + sum_of (pair_term m k) js + term k)
            same
            (omega (
              arith,
              row_other k js e (subst (λ w. contains w js ≡ false) (sym same) u.0),
              pair_term_right k e,
              pair_term_unplaced_right k,
            ))

  pairs_without :
      (ids : List Text)
      → contains c.class_id ids ≡ false
      → pair_penalties d placed ids ≡ pair_penalties d m ids
  unfolding pair_penalties
  pairs_without [] h = refl
  pairs_without (k ∷ ks) h =
      omega (arith, pairs_without ks (ground arith), row_other k ks (ground arith) (ground arith))

  terms_without :
      (ids : List Text)
      → contains c.class_id ids ≡ true
      → DistinctIds ids
      → pair_penalties d placed ids ≡ pair_penalties d m ids + sum_of term ids
  unfolding pair_penalties
  terms_without [] h u = cc
  terms_without (k ∷ ks) h u = elim (Bool-cases (text_eq c.class_id k)) [
    | inl same ↦ here (eq-of-text_eq c.class_id k same)
    | inr other ↦
        omega (arith, terms_without ks (ground arith) u.1, row_with k ks other u.1 (ground arith))
  ]
    where
      here :
          c.class_id ≡ k
          → sum_of (pair_term placed k) ks + pair_penalties d placed ks
            ≡ sum_of (pair_term m k) ks + pair_penalties d m ks + (term k + sum_of term ks)
      here same =
          subst
            (λ w.
              sum_of (pair_term placed w) ks + pair_penalties d placed ks
              ≡ sum_of (pair_term m w) ks + pair_penalties d m ks + (term w + sum_of term ks))
            same
            (omega (
              arith,
              row_left ks (apart same),
              row_unplaced ks,
              pairs_without ks (apart same),
              term_self,
            ))
        where
          apart : c.class_id ≡ k → contains c.class_id ks ≡ false
          apart e = subst (λ w. contains w ks ≡ false) (sym e) u.0

  -- Placing the action adds its soft penalty to what the distribution costs.
  distribution_penalty_insert :
      DistinctIds d.class_ids
      → distribution_penalty placed d ≡ distribution_penalty m d + soft_penalty_of c m d
  unfolding distribution_penalty soft_penalty_of
  distribution_penalty_insert u =
      ground (arith, pairs_without d.class_ids, terms_without d.class_ids)

distribution_penalties_insert :
    (c : Action) (m : Assignments) (ds : List Distribution)
    → lookup c.class_id m ≡ none
    → All (λ (d : Distribution). DistinctIds d.class_ids) ds
    → sum_of (distribution_penalty (insert c.class_id c m)) ds
      ≡ sum_of (distribution_penalty m) ds + incremental_soft_penalty c m ds
unfolding incremental_soft_penalty
distribution_penalties_insert c m [] new u = refl
distribution_penalties_insert c m (d ∷ ds) new u =
    omega (
      arith,
      distribution_penalty_insert d c m new u.0,
      distribution_penalties_insert c m ds new u.1,
    )

-- If the class of an action is not placed, and no distribution names a class twice, then placing
-- the action raises the total score by exactly the penalty by which the greedy search ranks it: its
-- own penalties and its incremental soft penalty.
pub score-insert :
    (c : Action) (m : Assignments) (ds : List Distribution)
    → lookup c.class_id m ≡ none
    → All (λ (d : Distribution). DistinctIds d.class_ids) ds
    → (score (insert c.class_id c m) ds).total_score
      ≡ (score m ds).total_score + full_penalty c m ds
unfolding score full_penalty
score-insert c m ds new u = omega (
  arith,
  sum_values-insert (λ (a : Action). a.time_penalty) c.class_id c m new,
  sum_values-insert (λ (a : Action). a.room_penalty) c.class_id c m new,
  distribution_penalties_insert c m ds new u,
)
