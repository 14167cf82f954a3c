-- ===== src/CpSat/Objective/Ties.antt =====
-- What the table of candidates says of the terms that break ties in the objective.
use academic_affairs_system.Common.{
  ℕ, zero, suc, Elem-append_left, Elem-append_right, ◌+◌, ◌-◌, ◌*◌, ◌≤◌, ◌<◌, ◌≡◌, refl, sym, subst,
  ◌∙◌, inl, inr, Bool, true, false, List, [], ◌∷◌, none, some, sum_of, length, map, arith, Elem,
  Bool-cases, if◌then◌else◌,
}
use academic_affairs_system.Common.Text.{
  Text, text_eq, text_eq_iff, text_eq_self, contains, DistinctIds,
}
use academic_affairs_system.Common.Dict.{lookup, insert, lookup-insert}
use academic_affairs_system.Cgcs.Model.{ClassAgent, Action, base_penalty}
use academic_affairs_system.Cgcs.Actions.{actions}
use academic_affairs_system.CpSat.Candidates.{
  Candidate, Created, Row, class_row, ordinals, candidates_from, add_class, create_from,
}
use academic_affairs_system.CpSat.Solve.{count_true, satisfies_row}
use academic_affairs_system.Cgcs.Checks.Soft.{sum_values-insert}
use academic_affairs_system.CpSat.Run.{candidate_count}
use academic_affairs_system.CpSat.Objective.{candidate_term}

abbrev pub ids_of : List ClassAgent → List Text
ids_of = map (λ (g : ClassAgent). g.class_id)

abbrev pub fresh_for : ClassAgent → ℕ → List Candidate
fresh_for g n = candidates_from g.class_id n 0 (actions g)

create_from-elsewhere :
    (gs : List ClassAgent) (n : ℕ) (s : Created) (k : Text)
    → contains k (ids_of gs) ≡ false
    → lookup k (create_from gs n s).candidates_by_class ≡ lookup k s.candidates_by_class
unfolding create_from
create_from-elsewhere [] n s k e = refl
create_from-elsewhere (g ∷ gs) n s k e =
    create_from-elsewhere gs (n + length (actions g)) (add_class g (fresh_for g n) s) k
      (ground arith)
    ∙ ground (
      arith,
      lookup-insert g.class_id k (fresh_for g n) s.candidates_by_class,
      text_eq_iff g.class_id k,
      text_eq_self k,
    )

module _ (x : ℕ → Bool) where
  abbrev pub base_value : List Candidate → ℕ
  base_value = sum_of (λ (c : Candidate). if x c.ordinal then base_penalty c.action else 0)

  abbrev pub tie_value : List Candidate → ℕ
  tie_value = sum_of (λ (c : Candidate). if x c.ordinal then c.action_index else 0)

  pub candidate_terms-split :
      (w : ℕ) (cs : List Candidate)
      → sum_of (candidate_term x w) cs ≡ base_value cs * w + tie_value cs
  candidate_terms-split w [] = omega arith
  candidate_terms-split w (c ∷ cs) = elim (Bool-cases (x c.ordinal)) [
    | inl e ↦ rw e (grind (arith, candidate_terms-split w cs))
    | inr e ↦ rw e (omega (arith, candidate_terms-split w cs))
  ]

  no_tie :
      (k : Text) (n i : ℕ) (ps : List Action)
      → count_true x (ordinals (candidates_from k n i ps)) ≡ 0
      → tie_value (candidates_from k n i ps) ≡ 0
  unfolding candidates_from
  no_tie k n i [] e = refl
  no_tie k n i (a ∷ ps) e = ground (arith, no_tie k (n + 1) (i + 1) ps)

  pub one_tie :
      (k : Text) (n i : ℕ) (ps : List Action)
      → count_true x (ordinals (candidates_from k n i ps)) ≤ 1
      → tie_value (candidates_from k n i ps) ≤ i + length ps
  unfolding candidates_from
  one_tie k n i [] e = omega arith
  one_tie k n i (a ∷ ps) e = elim (Bool-cases (x n)) [
    | inl f ↦ rw f (omega (arith, no_tie k (n + 1) (i + 1) ps (ground arith)))
    | inr f ↦ rw f (omega (arith, one_tie k (n + 1) (i + 1) ps (ground arith)))
  ]

create_from-rows :
    (gs : List ClassAgent) (n : ℕ) (s : Created) (r : Row)
    → Elem r s.rows
    → Elem r (create_from gs n s).rows
unfolding create_from
create_from-rows [] n s r i = i
create_from-rows (g ∷ gs) n s r i =
    create_from-rows gs (n + length (actions g)) (add_class g (fresh_for g n) s) r
      (Elem-append_left r s.rows (class_row (fresh_for g n) (length s.rows) ∷ []) i)

-- Each class has its list and the row of the list.
pub create_from-row :
    (gs : List ClassAgent) (n : ℕ) (s : Created) (g : ClassAgent)
    → DistinctIds (ids_of gs)
    → Elem g gs
    → (k : ℕ) × (lookup g.class_id (create_from gs n s).candidates_by_class ≡ some (fresh_for g k))
      × (a : ℕ) × Elem (class_row (fresh_for g k) a) (create_from gs n s).rows
unfolding create_from
create_from-row [] n s g d i = absurd i
create_from-row (h ∷ gs) n s g (a, d) (inl e) = (
  n,
  subst
      (λ w. lookup w.class_id (create_from (h ∷ gs) n s).candidates_by_class ≡ some (fresh_for w n))
      (sym e)
      (create_from-elsewhere gs (n + length (actions h)) (add_class h (fresh_for h n) s) h.class_id
          a
        ∙ lookup-insert h.class_id h.class_id (fresh_for h n) s.candidates_by_class
        ∙ rw (text_eq_self h.class_id) refl),
  length s.rows,
  subst (λ w. Elem (class_row (fresh_for w n) (length s.rows)) (create_from (h ∷ gs) n s).rows)
      (sym e)
      (create_from-rows gs (n + length (actions h)) (add_class h (fresh_for h n) s)
        (class_row (fresh_for h n) (length s.rows))
        (Elem-append_right (class_row (fresh_for h n) (length s.rows)) s.rows
          (class_row (fresh_for h n) (length s.rows) ∷ []) (inl refl))),
)
create_from-row (h ∷ gs) n s g (a, d) (inr i) =
    create_from-row gs (n + length (actions h)) (add_class h (fresh_for h n) s) g d i

length-candidates_from :
    (k : Text) (n i : ℕ) (ps : List Action) → length (candidates_from k n i ps) ≡ length ps
unfolding candidates_from
length-candidates_from k n i [] = refl
length-candidates_from k n i (a ∷ ps) = omega (arith, length-candidates_from k (n + 1) (i + 1) ps)

other_id :
    (k : Text) (gs : List ClassAgent) (g : ClassAgent)
    → contains k (ids_of gs) ≡ false
    → Elem g gs
    → text_eq k g.class_id ≡ false
other_id k [] g e i = absurd i
other_id k (h ∷ gs) g e (inl same) =
    subst (λ w. text_eq k w.class_id ≡ false) (sym same) (ground arith)
other_id k (h ∷ gs) g e (inr i) = other_id k gs g (ground arith) i

pub create_from-count :
    (gs : List ClassAgent) (n : ℕ) (s : Created)
    → DistinctIds (ids_of gs)
    → ((g : ClassAgent) → Elem g gs → lookup g.class_id s.candidates_by_class ≡ none)
    → candidate_count (create_from gs n s) ≡ candidate_count s + sum_of (λ g. length (actions g)) gs
unfolding create_from
create_from-count [] n s d new = omega arith
create_from-count (h ∷ gs) n s (a, d) new = omega (
  arith,
  create_from-count gs (n + length (actions h)) (add_class h (fresh_for h n) s) d still_new,
  sum_values-insert length h.class_id (fresh_for h n) s.candidates_by_class (new h (inl refl)),
  length-candidates_from h.class_id n 0 (actions h),
)
  where
    still_new :
        (g : ClassAgent)
        → Elem g gs
        → lookup g.class_id (insert h.class_id (fresh_for h n) s.candidates_by_class) ≡ none
    still_new g i = ground (
      arith,
      lookup-insert h.class_id g.class_id (fresh_for h n) s.candidates_by_class,
      new g (inr i),
      other_id h.class_id gs g a i,
    )

pub row-count :
    (x assigned : ℕ → Bool) (cs : List Candidate) (n : ℕ)
    → satisfies_row x assigned (class_row cs n) ≡ true
    → count_true x (ordinals cs) ≤ 1
row-count x assigned [] n e = omega arith
row-count x assigned (c ∷ cs) n e = ground arith

pub times_one_minus : (a v : ℕ) → a * (1 - v) ≤ a
times_one_minus a zero = omega arith
times_one_minus a (suc v) = grind arith

pub rank_step : (s t w u v : ℕ) → s < t → u < w → s * w + u < t * w + v
rank_step s t w u v h k = ranked (t - s - 1) (omega arith)
  where
    ranked : (d : ℕ) → t ≡ s + 1 + d → s * w + u < t * w + v
    ranked d e = rw e (grind (arith, k))
