-- ===== src/Validation/Longest.antt =====
-- The loop over the sorted periods finds the length of the longest run.
use academic_affairs_system.Common.{
  ℕ, zero, suc, ◌+◌, max, ◌≤◌, ◌<◌, ◌≡◌, refl, sym, subst, ◌⊎◌, inl, inr, true, List, [], ◌∷◌, some,
  arith, Elem, Bool-cases, ltb, ◌==◌, if◌then◌else◌,
}
use academic_affairs_system.Validation.{longest_from, longest_run}
use academic_affairs_system.Validation.Occupied.{IsRising}

-- As many numbers as asked for, from the first on, stand in the list.
abbrev pub HasRun : ℕ → ℕ → List ℕ → Type 0
HasRun first n ns = (i : ℕ) → i < n → Elem (first + i) ns

-- What is left of a run that starts at the head.
HasRun-tail : (p n : ℕ) (ps : List ℕ) → HasRun p (suc n) (p ∷ ps) → HasRun (p + 1) n ps
HasRun-tail p n ps run i h = elim (run (suc i) (omega (arith, h))) [
  | inl e ↦ absurd (omega (arith, e))
  | inr m ↦ subst (λ k. Elem k ps) (omega arith) m
]

-- A run that starts above the head stands in the rest.
HasRun-above :
    (p first n : ℕ) (ps : List ℕ) → p < first → HasRun first n (p ∷ ps) → HasRun first n ps
HasRun-above p first n ps above run i h = elim (run i h) [
  | inl e ↦ absurd (omega (arith, e, above))
  | inr m ↦ m
]

longest_from-grows :
    (ns : List ℕ) (q current longest : ℕ) → longest ≤ longest_from (some q) current longest ns
unfolding longest_from
longest_from-grows [] q current longest = omega arith
longest_from-grows (p ∷ ps) q current longest = ground (
  arith,
  longest_from-grows ps p (if p == q + 1 then current + 1 else 1)
      (max longest (if p == q + 1 then current + 1 else 1)),
)

-- A run that goes on through the rest is counted with what came before.
run_goes_on :
    (n : ℕ) (ns : List ℕ) (q current longest : ℕ)
    → IsRising (q ∷ ns)
    → current ≤ longest
    → HasRun (q + 1) n ns
    → current + n ≤ longest_from (some q) current longest ns
unfolding longest_from
run_goes_on zero ns q current longest r h run =
    omega (arith, longest_from-grows ns q current longest)
run_goes_on (suc n) [] q current longest r h run = absurd (run 0 (omega arith))
run_goes_on (suc n) (p ∷ ps) q current longest r h run = rw follows_on (
    omega (
      arith,
      run_goes_on n ps p (current + 1) (max longest (current + 1)) r.1 (omega arith)
          (HasRun-tail p n ps (subst (λ k. HasRun k (suc n) (p ∷ ps)) (sym head) run)),
    ))
  where
    head : p ≡ q + 1
    head = elim (run 0 (omega arith)) [
      | inl e ↦ omega (arith, e)
      | inr m ↦ absurd (omega (arith, r.0 p (inl refl), r.1.0 (q + 1 + 0) m))
    ]

    follows_on : (p == q + 1) ≡ true
    follows_on = ground (arith, head)

next-positive : (q p current : ℕ) → 1 ≤ (if p == q + 1 then current + 1 else 1)
next-positive q p current = ground arith

-- A run in the rest is counted.
run_counted :
    (n first : ℕ) (ns : List ℕ) (q current longest : ℕ)
    → IsRising (q ∷ ns)
    → HasRun first (suc n) ns
    → suc n ≤ longest_from (some q) current longest ns
unfolding longest_from
run_counted n first [] q current longest r run = absurd (run 0 (omega arith))
run_counted n first (p ∷ ps) q current longest r run =
    let next = if p == q + 1 then current + 1 else 1 in
    elim (run 0 (omega arith)) [
      | inl e ↦ omega (
        arith,
        next-positive q p current,
        run_goes_on n ps p next (max longest next) r.1 (omega arith)
            (HasRun-tail p n ps (subst (λ k. HasRun k (suc n) (p ∷ ps)) (head e) run)),
      )
      | inr m ↦
          run_counted n first ps p next (max longest next) r.1
            (HasRun-above p first (suc n) ps (omega (arith, r.1.0 (first + 0) m)) run)
    ]
  where
    head : first + 0 ≡ p → first ≡ p
    head e = omega (arith, e)

-- Every run is counted.
pub longest_run-counts :
    (n first : ℕ) (ns : List ℕ) → IsRising ns → HasRun first (suc n) ns → suc n ≤ longest_run ns
unfolding longest_run longest_from
longest_run-counts n first [] r run = absurd (run 0 (omega arith))
longest_run-counts n first (p ∷ ps) r run = elim (run 0 (omega arith)) [
  | inl e ↦ omega (
    arith,
    run_goes_on n ps p 1 (max 0 1) r (omega arith)
        (HasRun-tail p n ps (subst (λ k. HasRun k (suc n) (p ∷ ps)) (omega (arith, e)) run)),
  )
  | inr m ↦
      run_counted n first ps p 1 (max 0 1) r
        (HasRun-above p first (suc n) ps (omega (arith, r.0 (first + 0) m)) run)
]

-- A run of that length is there, if the length is not 0.
abbrev pub IsRealized : ℕ → List ℕ → Type 0
IsRealized n ns = (n ≡ 0) ⊎ ((first : ℕ) × HasRun first n ns)

-- The run that ends at `q`.
EndsAt : ℕ → ℕ → List ℕ → Type 0
EndsAt q current set = (first : ℕ) × (first + current ≡ q + 1) × HasRun first current set

extended :
    (first current q : ℕ) (set : List ℕ)
    → first + current ≡ q + 1
    → Elem (q + 1) set
    → HasRun first current set
    → HasRun first (current + 1) set
extended first current q set e m run i h = elim (Bool-cases (ltb i current)) [
  | inl below ↦ run i (ground arith)
  | inr last ↦ subst (λ k. Elem k set) (ground arith) m
]

single : (p : ℕ) (set : List ℕ) → Elem p set → HasRun p 1 set
single p set m i h = subst (λ k. Elem k set) (omega (arith, h)) m

IsRealized-max :
    (a b : ℕ) (set : List ℕ) → IsRealized a set → IsRealized b set → IsRealized (max a b) set
IsRealized-max a b set x y = elim (Bool-cases (ltb a b)) [
  | inl e ↦ subst (λ k. IsRealized k set) (ground arith) y
  | inr e ↦ subst (λ k. IsRealized k set) (ground arith) x
]

module _ (set : List ℕ) where
  EndsAt-next :
      (q p current : ℕ)
      → Elem p set
      → EndsAt q current set
      → EndsAt p (if p == q + 1 then current + 1 else 1) set
  unfolding EndsAt
  EndsAt-next q p current m (first, e, run) = elim (Bool-cases (p == q + 1)) [
    | inl f ↦ rw f (
      first,
      ground arith,
      extended first current q set e (subst (λ k. Elem k set) (ground arith) m) run,
    )
    | inr f ↦ rw f (p, refl, single p set m)
  ]

  IsRealized-of_EndsAt : (q current : ℕ) → EndsAt q current set → IsRealized current set
  unfolding EndsAt
  IsRealized-of_EndsAt q current (first, e, run) = inr (first, run)

  longest_from-IsRealized :
      (ns : List ℕ) (q current longest : ℕ)
      → ((k : ℕ) → Elem k ns → Elem k set)
      → EndsAt q current set
      → IsRealized longest set
      → IsRealized (longest_from (some q) current longest ns) set
  unfolding longest_from
  longest_from-IsRealized [] q current longest i e r = r
  longest_from-IsRealized (p ∷ ps) q current longest i e r =
      let next = if p == q + 1 then current + 1 else 1 in
      let e' = EndsAt-next q p current (i p (inl refl)) e in
      longest_from-IsRealized ps p next (max longest next) (λ k m. i k (inr m)) e'
        (IsRealized-max longest next set r (IsRealized-of_EndsAt p next e'))

-- The length that is found is that of a run.
pub longest_run-IsRealized : (ns : List ℕ) → IsRealized (longest_run ns) ns
unfolding longest_run longest_from EndsAt
longest_run-IsRealized [] = inl refl
longest_run-IsRealized (p ∷ ps) =
    longest_from-IsRealized (p ∷ ps) ps p 1 (max 0 1) (λ k m. inr m)
      (p, refl, single p (p ∷ ps) (inl refl)) (inr (p, single p (p ∷ ps) (inl refl)))
