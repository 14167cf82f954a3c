-- ===== src/CpSat/Solve/Assigned.antt =====
-- The variables `assigned_n` say which classes are placed.
use academic_affairs_system.Common.{
  ℕ, ◌+◌, ◌≡◌, ◌≢◌, refl, sym, subst, ap, ◌∙◌, ◌↔◌, inl, inr, Bool, true, false, List, [], ◌++◌,
  ◌∷◌, Option, none, some, arith, Elem, Elem-append_left, Elem-append_right, length, Bool-cases,
}
use academic_affairs_system.Common.Text.{Text, text_eq, text_eq_iff}
use academic_affairs_system.Common.Dict.{lookup, has_key, lookup-insert}
use academic_affairs_system.Cgcs.Model.{ClassAgent, Action, Assignments, Problem}
use academic_affairs_system.Cgcs.Actions.{actions}
use academic_affairs_system.CpSat.Candidates.{
  Candidate, Row, Created, ordinals, class_row, add_class, candidates_from, create_from,
  create_candidates,
}
use academic_affairs_system.CpSat.Conflicts.{Compiled}
use academic_affairs_system.CpSat.Solve.{
  count_true, satisfies_row, satisfies_rows, satisfies_compiled, first_chosen, keep_selected,
  read_from, read_assignments,
}
use academic_affairs_system.CpSat.Solve.Table.{Table, DistinctKeys, create_candidates-IsTable}

-- A class with a list of candidates has a variable and the row that ties them.
abbrev HasRow : Created → Text → List Candidate → ℕ → Type 0
HasRow s k cs n = (lookup k s.candidates_by_class ≡ some cs) × Elem (class_row cs n) s.rows

abbrev HasRows : Created → Type 0
HasRows s =
    (k : Text) (n : ℕ)
    → lookup k s.assigned_by_class ≡ some n
    → (cs : List Candidate) × HasRow s k cs n

add_class-HasRows :
    (g : ClassAgent) (cs : List Candidate) (s : Created) → HasRows s → HasRows (add_class g cs s)
add_class-HasRows g cs s h k n e = elim (Bool-cases (text_eq g.class_id k)) [
  | inl same ↦ (
    cs,
    (
      ground (arith, lookup-insert g.class_id k cs s.candidates_by_class),
      subst (λ w. Elem (class_row cs w) (s.rows ++ class_row cs (length s.rows) ∷ []))
          (ground (arith, lookup-insert g.class_id k (length s.rows) s.assigned_by_class))
          (Elem-append_right (class_row cs (length s.rows)) s.rows
            (class_row cs (length s.rows) ∷ []) (inl refl)),
    ),
  )
  | inr apart ↦
      let (ds, (f, i)) =
        h k n (ground (arith, lookup-insert g.class_id k (length s.rows) s.assigned_by_class)) in
      (
        ds,
        (
          ground (arith, lookup-insert g.class_id k cs s.candidates_by_class),
          Elem-append_left (class_row ds n) s.rows (class_row cs (length s.rows) ∷ []) i,
        ),
      )
]

create_from-HasRows :
    (gs : List ClassAgent) (n : ℕ) (s : Created) → HasRows s → HasRows (create_from gs n s)
unfolding create_from
create_from-HasRows [] n s h = h
create_from-HasRows (g ∷ gs) n s h =
    create_from-HasRows gs (n + length (actions g)) _
      (add_class-HasRows g (candidates_from g.class_id n 0 (actions g)) s h)

create_candidates-HasRows : (agents : List ClassAgent) → HasRows (create_candidates agents)
unfolding create_candidates
create_candidates-HasRows agents = create_from-HasRows agents 0 _ (λ k n e. cc)

module _ (x : ℕ → Bool) where
  pub read_from-elsewhere :
      (t : Table) (m : Assignments) (k : Text)
      → has_key k t ≡ false
      → lookup k (read_from x t m) ≡ lookup k m
  unfolding read_from
  read_from-elsewhere [] m k e = refl
  read_from-elsewhere ((j, cs) ∷ t) m k e =
      read_from-elsewhere t (keep_selected j (first_chosen x cs) m) k (ground arith)
      ∙ elsewhere (first_chosen x cs)
    where
      elsewhere : (o : Option Action) → lookup k (keep_selected j o m) ≡ lookup k m
      elsewhere none = refl
      elsewhere (some a) = ground (arith, lookup-insert j k a m)

  pub read_from-at :
      (t : Table) (m : Assignments) (k : Text) (cs : List Candidate)
      → DistinctKeys t
      → lookup k m ≡ none
      → lookup k t ≡ some cs
      → lookup k (read_from x t m) ≡ first_chosen x cs
  unfolding read_from
  read_from-at [] m k cs d new e = cc
  read_from-at ((j, ds) ∷ t) m k cs (n, d) new e = elim (Bool-cases (text_eq j k)) [
    | inl same ↦
        read_from-elsewhere t (keep_selected j (first_chosen x ds) m) k
          (subst (λ w. has_key w t ≡ false) ((text_eq_iff j k).0 same) n)
        ∙ here (first_chosen x ds) same
        ∙ ap (first_chosen x) (ground arith)
    | inr apart ↦
        read_from-at t (keep_selected j (first_chosen x ds) m) k cs d
          (there (first_chosen x ds) apart) (ground arith)
  ]
    where
      here : (o : Option Action) → text_eq j k ≡ true → lookup k (keep_selected j o m) ≡ o
      here none same = new
      here (some a) same = ground (arith, lookup-insert j k a m)

      there : (o : Option Action) → text_eq j k ≡ false → lookup k (keep_selected j o m) ≡ none
      there none apart = new
      there (some a) apart = ground (arith, lookup-insert j k a m)

  -- A class has a chosen candidate exactly if the number of its true literals is not 0.
  first_chosen-none :
      (cs : List Candidate) → count_true x (ordinals cs) ≡ 0 → first_chosen x cs ≡ none
  unfolding first_chosen
  first_chosen-none [] e = refl
  first_chosen-none (c ∷ cs) e = ground (arith, first_chosen-none cs)

  first_chosen-count :
      (cs : List Candidate) → first_chosen x cs ≡ none → count_true x (ordinals cs) ≡ 0
  unfolding first_chosen
  first_chosen-count [] e = refl
  first_chosen-count (c ∷ cs) e = ground (arith, first_chosen-count cs)

  module _ (assigned : ℕ → Bool) where
    pub satisfies_rows-Elem :
        (rs : List Row) (r : Row)
        → satisfies_rows x assigned rs ≡ true
        → Elem r rs
        → satisfies_row x assigned r ≡ true
    unfolding satisfies_rows
    satisfies_rows-Elem [] r s i = absurd i
    satisfies_rows-Elem (q ∷ rs) r s (inl e) =
        subst (λ w. satisfies_row x assigned w ≡ true) (sym e) (ground arith)
    satisfies_rows-Elem (q ∷ rs) r s (inr i) = satisfies_rows-Elem rs r (ground arith) i

    -- A satisfied row makes the variable tell whether a candidate is chosen.
    chosen_if_assigned :
        (cs : List Candidate) (n : ℕ)
        → satisfies_row x assigned (class_row cs n) ≡ true
        → (first_chosen x cs ≡ none) ↔ (assigned n ≡ false)
    chosen_if_assigned [] n s = (λ e. ground arith, λ e. unfold first_chosen in refl)
    chosen_if_assigned (c ∷ cs) n s = (
      λ e. let none_true = first_chosen-count (c ∷ cs) e in ground arith,
      λ e. first_chosen-none (c ∷ cs) (ground arith),
    )

has_key_when :
    (k : Text) (m : Assignments) (o : Option Action) (b : Bool)
    → lookup k m ≡ o
    → (o ≡ none) ↔ (b ≡ false)
    → has_key k m ≡ b
has_key_when k m none b e h = ground (arith, h.0 refl)
has_key_when k m (some a) true e h = ground arith
has_key_when k m (some a) false e h = absurd (some-not-none (h.1 refl))
  where
    some-not-none : some a ≢ none
    some-not-none p = cc

-- In values that satisfy the rows of the classes and of the compiled conflicts, the variable
-- `assigned_n` of a class is true exactly when the assignments read from the values place the
-- class.
pub has_key-read_assignments :
    (p : Problem) (x assigned : ℕ → Bool) (c : Compiled) (k : Text) (n : ℕ)
    → satisfies_compiled x assigned (create_candidates p.agents) c ≡ true
    → lookup k (create_candidates p.agents).assigned_by_class ≡ some n
    → has_key k (read_assignments x (create_candidates p.agents).candidates_by_class) ≡ assigned n
unfolding satisfies_compiled read_assignments
has_key-read_assignments p x assigned c k n s e =
    let (b, h) = create_candidates-IsTable p.agents in
    let (cs, (f, i)) = create_candidates-HasRows p.agents k n e in
    let read =
      read_from-at x (create_candidates p.agents).candidates_by_class [] k cs h.keys refl f in
    let row =
      satisfies_rows-Elem x assigned (create_candidates p.agents).rows (class_row cs n)
        (ground arith) i in
    let iff = chosen_if_assigned x assigned cs n row in
    has_key_when k _ (first_chosen x cs) (assigned n) read iff
