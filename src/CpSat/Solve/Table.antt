-- ===== src/CpSat/Solve/Table.antt =====
-- The table that `_create_candidates` builds: what its entries are, and that two classes share no
-- literal.
use academic_affairs_system.Common.{
  ℕ, ◌+◌, ◌<◌, ◌≤◌, ◌≡◌, ◌≢◌, refl, sym, subst, ap, ◌∙◌, ◌⊎◌, inl, inr, false, List, [], ◌∷◌, some,
  arith, Elem, Within, length, Bool-cases,
}
use academic_affairs_system.Common.Text.{Text, text_eq, text_eq_iff, text_eq_self}
use academic_affairs_system.Common.Dict.{lookup, insert, has_key, lookup-insert, has_key-insert}
use academic_affairs_system.Cgcs.Model.{ClassAgent, Action}
use academic_affairs_system.Cgcs.Actions.{actions}
use academic_affairs_system.Cgcs.Greedy.Placing.{Allowed}
use academic_affairs_system.CpSat.Candidates.{
  Candidate, Created, candidates_from, add_class, create_from, create_candidates,
}

abbrev pub Table : Type 0
Table = List (Text × List Candidate)

-- No key stands twice.
abbrev pub DistinctKeys : {V : Type 0} → List (Text × V) → Type 0
DistinctKeys [] = Unit
DistinctKeys ((k, v) ∷ m) = (has_key k m ≡ false) × DistinctKeys m

pub insert-DistinctKeys :
    {V : Type 0} (k : Text) (v : V) (m : List (Text × V))
    → DistinctKeys m
    → DistinctKeys (insert k v m)
insert-DistinctKeys k v [] d = (refl, tt)
insert-DistinctKeys k v ((j, w) ∷ m) (n, d) = elim (Bool-cases (text_eq j k)) [
  | inl e ↦ rw e (n, d)
  | inr e ↦ rw e (
    ground (arith, has_key-insert k j v m, text_eq_iff j k, text_eq_iff k j),
    insert-DistinctKeys k v m d,
  )
]

pub lookup-Elem :
    {V : Type 0} (k : Text) (v : V) (m : List (Text × V))
    → DistinctKeys m
    → Elem (k, v) m
    → lookup k m ≡ some v
lookup-Elem k v [] d i = absurd i
lookup-Elem k v ((j, w) ∷ m) (n, d) (inl e) =
    subst (λ p. lookup p.0 ((j, w) ∷ m) ≡ some p.1) (sym e) (ground (arith, text_eq_self j))
lookup-Elem k v ((j, w) ∷ m) (n, d) (inr i) =
    let found = lookup-Elem k v m d i in ground (arith, text_eq_iff j k)

-- What stands in a class's list, with the ordinals counted from `low` up to `high`.
pub candidates_from-Elem :
    (k : Text) (n i : ℕ) (xs : List Action) (c : Candidate)
    → Elem c (candidates_from k n i xs)
    → (c.class_id ≡ k) × (n ≤ c.ordinal) × (c.ordinal < n + length xs) × Elem c.action xs
unfolding candidates_from
candidates_from-Elem k n i [] c m = absurd m
candidates_from-Elem k n i (a ∷ xs) c (inl e) = (
  ap (λ w. w.class_id) e,
  omega (arith, ap (λ w. w.ordinal) e),
  omega (arith, ap (λ w. w.ordinal) e),
  inl (ap (λ w. w.action) e),
)
candidates_from-Elem k n i (a ∷ xs) c (inr m) =
    let (p, q, r, s) = candidates_from-Elem k (n + 1) (i + 1) xs c m in
    (p, omega arith, omega arith, inr s)

-- The table after some classes, where `n` is the next ordinal.
pub record IsTable (agents : List ClassAgent) (n : ℕ) (t : Table) : Type 0 where
  pub keys : DistinctKeys t
  pub listed :
      (k : Text) (cs : List Candidate) (c : Candidate)
      → lookup k t ≡ some cs
      → Elem c cs
      → (c.class_id ≡ k) × (c.ordinal < n) × Allowed agents k c.action
  pub apart :
      (j k : Text) (cs ds : List Candidate) (c d : Candidate)
      → j ≢ k
      → lookup j t ≡ some cs
      → lookup k t ≡ some ds
      → Elem c cs
      → Elem d ds
      → c.ordinal ≢ d.ordinal

abbrev fresh_candidates : ClassAgent → ℕ → List Candidate
fresh_candidates g n = candidates_from g.class_id n 0 (actions g)

module _ (agents : List ClassAgent) (g : ClassAgent) (known : Elem g agents) (n : ℕ) (s : Created)
    (h : IsTable agents n s.candidates_by_class) where
  -- An entry after a class is added: the new one or an old one.
  entry :
      (k : Text) (cs : List Candidate)
      → lookup k (insert g.class_id (fresh_candidates g n) s.candidates_by_class) ≡ some cs
      → ((g.class_id ≡ k) × (fresh_candidates g n ≡ cs))
        ⊎ (lookup k s.candidates_by_class ≡ some cs)
  entry k cs e = ground (
    arith,
    lookup-insert g.class_id k (fresh_candidates g n) s.candidates_by_class,
    text_eq_iff g.class_id k,
  )

  entry_bounds :
      (k : Text) (cs : List Candidate) (c : Candidate)
      → lookup k (insert g.class_id (fresh_candidates g n) s.candidates_by_class) ≡ some cs
      → Elem c cs
      → ((g.class_id ≡ k) × (n ≤ c.ordinal) × Elem c (fresh_candidates g n))
        ⊎ (c.ordinal < n) × (lookup k s.candidates_by_class ≡ some cs)
  entry_bounds k cs c e m = elim (entry k cs e) [
    | inl (p, q) ↦
        let new = subst (Elem c) (sym q) m in
        inl (p, (candidates_from-Elem g.class_id n 0 (actions g) c new).1, new)
    | inr old ↦ inr ((h.listed k cs c old m).1, old)
  ]

  add_class-IsTable :
      IsTable agents
        (n + length (actions g))
        (add_class g (fresh_candidates g n) s).candidates_by_class
  add_class-IsTable = record {
    keys = insert-DistinctKeys g.class_id (fresh_candidates g n) s.candidates_by_class h.keys;
    listed = λ k cs c e m. elim (entry_bounds k cs c e m) [
      | inl (p, b, new) ↦
          let (q, _, r, i) = candidates_from-Elem g.class_id n 0 (actions g) c new in
          (q ∙ p, r, (g, known, p, i))
      | inr (b, old) ↦ let (q, r, a) = h.listed k cs c old m in (q, omega arith, a)
    ];
    apart = λ j k cs ds c d ne e f i m. elim (entry_bounds j cs c e i) [
      | inl (p, b, new) ↦ elim (entry_bounds k ds d f m) [
        | inl (q, b', new') ↦ absurd (ne (sym p ∙ q))
        | inr (b', old') ↦ λ same. omega arith
      ]
      | inr (b, old) ↦ elim (entry_bounds k ds d f m) [
        | inl (q, b', new') ↦ λ same. omega arith
        | inr (b', old') ↦ h.apart j k cs ds c d ne old old' i m
      ]
    ];
  }

create_from-IsTable :
    (agents gs : List ClassAgent) (n : ℕ) (s : Created)
    → Within gs agents
    → IsTable agents n s.candidates_by_class
    → (k : ℕ) × IsTable agents k (create_from gs n s).candidates_by_class
unfolding create_from
create_from-IsTable agents [] n s w h = (n, h)
create_from-IsTable agents (g ∷ gs) n s w h =
    create_from-IsTable agents gs (n + length (actions g)) (add_class g (fresh_candidates g n) s)
      (λ x i. w x (inr i)) (add_class-IsTable agents g (w g (inl refl)) n s h)

pub create_candidates-IsTable :
    (agents : List ClassAgent)
    → (n : ℕ) × IsTable agents n (create_candidates agents).candidates_by_class
unfolding create_candidates
create_candidates-IsTable agents =
    create_from-IsTable agents agents 0 _ (λ x i. i)
      (record { keys = tt; listed = λ k cs c e m. cc; apart = λ j k cs ds c d ne e f i m. cc })
