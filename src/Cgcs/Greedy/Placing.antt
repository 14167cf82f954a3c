-- ===== src/Cgcs/Greedy/Placing.antt =====
-- The outer loop of `run_cgcs_greedy` keeps the hard constraints and loses no class.
use academic_affairs_system.Common.{
  ℕ, ◌≡◌, refl, sym, subst, ◌∙◌, ◌⊎◌, inl, inr, true, List, [], ◌∷◌, Option, none, some, arith,
  Elem, Elem-append, Elem-append_left, Elem-append_right, Bool-cases, Within,
}
use academic_affairs_system.Common.Text.{Text, text_eq_iff, text_eq_self}
use academic_affairs_system.Common.Dict.{
  lookup, insert, has_key, lookup-insert, has_key-insert, lookup-erase, erase,
}
use academic_affairs_system.Cgcs.Model.{ClassAgent, Action, Distribution, Assignments}
use academic_affairs_system.Cgcs.Actions.{actions}
use academic_affairs_system.Cgcs.Actions.Offers.{actions-class_id}
use academic_affairs_system.Cgcs.Checks.{is_feasible}
use academic_affairs_system.Cgcs.Checks.Hard.{
  HardValid, HardValid-insert, HardValid-erase, HardValid-ext, HardValid-empty,
}
use academic_affairs_system.Cgcs.Greedy.{choose, Progress, settle, place, place_all, full_penalty}
use academic_affairs_system.Cgcs.Greedy.Choice.{choose-some}

-- The action is one of those of a listed class with this id.
abbrev pub Allowed : List ClassAgent → Text → Action → Type 0
Allowed agents k a = (g : ClassAgent) × Elem g agents × (g.class_id ≡ k) × Elem a (actions g)

-- The hard constraints hold, and every entry is an action of its class.
pub record IsSound (agents : List ClassAgent) (ds : List Distribution) (m : Assignments)
    : Type 0 where
  pub valid : HardValid ds m
  pub allowed : (k : Text) (a : Action) → lookup k m ≡ some a → Allowed agents k a

pub IsSound-ext :
    (agents : List ClassAgent) (ds : List Distribution) (m n : Assignments)
    → ((k : Text) → lookup k m ≡ lookup k n)
    → IsSound agents ds m
    → IsSound agents ds n
IsSound-ext agents ds m n same s = record {
  valid = HardValid-ext ds m n same s.valid;
  allowed = λ k a e. s.allowed k a (same k ∙ e);
}

pub IsSound-empty : (agents : List ClassAgent) (ds : List Distribution) → IsSound agents ds []
IsSound-empty agents ds = record { valid = HardValid-empty ds; allowed = λ k a e. cc }

pub IsSound-erase :
    (agents : List ClassAgent) (ds : List Distribution) (k : Text) (m : Assignments)
    → IsSound agents ds m
    → IsSound agents ds (erase k m)
IsSound-erase agents ds k m s = record {
  valid = HardValid-erase ds k m s.valid;
  allowed = λ j a e. s.allowed j a (kept j a e);
}
  where
    kept : (j : Text) (a : Action) → lookup j (erase k m) ≡ some a → lookup j m ≡ some a
    kept j a e = ground (arith, lookup-erase k j m)

pub IsSound-insert :
    (agents : List ClassAgent) (ds : List Distribution) (g : ClassAgent) (a : Action)
    (m : Assignments)
    → IsSound agents ds m
    → Elem g agents
    → Elem a (actions g)
    → is_feasible a m ds ≡ true
    → IsSound agents ds (insert g.class_id a m)
IsSound-insert agents ds g a m s i j f = record {
  valid =
      subst (λ k. HardValid ds (insert k a m)) (actions-class_id g a j)
        (HardValid-insert ds a m s.valid f);
  allowed = λ k b e. either k b (found k b e);
}
  where
    found :
        (k : Text) (b : Action)
        → lookup k (insert g.class_id a m) ≡ some b
        → ((g.class_id ≡ k) × (a ≡ b)) ⊎ (lookup k m ≡ some b)
    found k b e = ground (arith, lookup-insert g.class_id k a m, text_eq_iff g.class_id k)

    either :
        (k : Text) (b : Action)
        → ((g.class_id ≡ k) × (a ≡ b)) ⊎ (lookup k m ≡ some b)
        → Allowed agents k b
    either k b (inl (p, q)) = (g, i, p, subst (λ w. Elem w (actions g)) q j)
    either k b (inr old) = s.allowed k b old

-- The class is placed, or stands among those that are not.
abbrev pub Covered : Assignments → List ClassAgent → ClassAgent → Type 0
Covered m failed g = (has_key g.class_id m ≡ true) ⊎ Elem g failed

module _ (agents : List ClassAgent) (ds : List Distribution) where
  place-IsSound :
      (g : ClassAgent) (s : Progress)
      → Elem g agents
      → IsSound agents ds s.assignments
      → IsSound agents ds (place ds g s).assignments
  unfolding place
  place-IsSound g s i v = elim (Bool-cases (has_key g.class_id s.assignments)) [
    | inl old ↦ rw (old, place) v
    | inr new ↦ rw (new, place) (chosen (choose s.assignments ds (actions g) none) refl)
  ]
    where
      fits :
          (a : Action) (p : ℕ)
          → (◌≡◌ {A = Option (Action × ℕ)} none (some (a, p)))
            ⊎ (Elem a (actions g)
                × (is_feasible a s.assignments ds ≡ true)
                × (p ≡ full_penalty a s.assignments ds))
          → IsSound agents ds (insert g.class_id a s.assignments)
      fits a p (inl e) = cc
      fits a p (inr (j, f, e)) = IsSound-insert agents ds g a s.assignments v i j f

      chosen :
          (r : Option (Action × ℕ))
          → choose s.assignments ds (actions g) none ≡ r
          → IsSound agents ds (settle g s r).assignments
      chosen none e = v
      chosen (some (a, p)) e = fits a p (choose-some s.assignments ds (actions g) none a p e)

  pub place_all-IsSound :
      (gs : List ClassAgent) (s : Progress)
      → Within gs agents
      → IsSound agents ds s.assignments
      → IsSound agents ds (place_all ds gs s).assignments
  unfolding place_all
  place_all-IsSound [] s i v = v
  place_all-IsSound (g ∷ gs) s i v =
      place_all-IsSound gs (place ds g s) (λ x m. i x (inr m))
        (place-IsSound g s (i g (inl refl)) v)

  -- What was covered stays so, and the agent of the round becomes so.
  settle-Covered :
      (g h : ClassAgent) (s : Progress) (r : Option (Action × ℕ))
      → (g ≡ h) ⊎ Covered s.assignments s.failed h
      → Covered (settle g s r).assignments (settle g s r).failed h
  settle-Covered g h s none (inl e) = inr (Elem-append_right h s.failed (g ∷ []) (inl (sym e)))
  settle-Covered g h s none (inr (inl k)) = inl k
  settle-Covered g h s none (inr (inr i)) = inr (Elem-append_left h s.failed (g ∷ []) i)
  settle-Covered g h s (some (a, p)) (inl e) = inl (
      subst (λ w. has_key w.class_id (insert g.class_id a s.assignments) ≡ true) e
        (ground
          (arith, has_key-insert g.class_id g.class_id a s.assignments, text_eq_self g.class_id)))
  settle-Covered g h s (some (a, p)) (inr (inl k)) =
      inl (ground (arith, has_key-insert g.class_id h.class_id a s.assignments))
  settle-Covered g h s (some (a, p)) (inr (inr i)) = inr i

  place-Covered :
      (g h : ClassAgent) (s : Progress)
      → (g ≡ h) ⊎ Covered s.assignments s.failed h
      → Covered (place ds g s).assignments (place ds g s).failed h
  unfolding place
  place-Covered g h s c = elim (Bool-cases (has_key g.class_id s.assignments)) [
    | inl old ↦ rw (old, place) (there old c)
    | inr new ↦ rw (new, place) (settle-Covered g h s (choose s.assignments ds (actions g) none) c)
  ]
    where
      there :
          has_key g.class_id s.assignments ≡ true
          → (g ≡ h) ⊎ Covered s.assignments s.failed h
          → Covered s.assignments s.failed h
      there old (inl e) = inl (subst (λ w. has_key w.class_id s.assignments ≡ true) e old)
      there old (inr k) = k

  pub place_all-Covered :
      (gs : List ClassAgent) (s : Progress) (h : ClassAgent)
      → Elem h gs ⊎ Covered s.assignments s.failed h
      → Covered (place_all ds gs s).assignments (place_all ds gs s).failed h
  unfolding place_all
  place_all-Covered [] s h (inl i) = absurd i
  place_all-Covered [] s h (inr c) = c
  place_all-Covered (g ∷ gs) s h (inl (inl e)) =
      place_all-Covered gs (place ds g s) h (inr (place-Covered g h s (inl (sym e))))
  place_all-Covered (g ∷ gs) s h (inl (inr i)) = place_all-Covered gs (place ds g s) h (inl i)
  place_all-Covered (g ∷ gs) s h (inr c) =
      place_all-Covered gs (place ds g s) h (inr (place-Covered g h s (inr c)))

  settle-failed :
      (g x : ClassAgent) (s : Progress) (r : Option (Action × ℕ))
      → Elem x (settle g s r).failed
      → Elem x s.failed ⊎ (x ≡ g)
  settle-failed g x s none m = elim (Elem-append x s.failed (g ∷ []) m) [
    | inl i ↦ inl i
    | inr j ↦ elim j [ inl e ↦ inr e | inr n ↦ absurd n ]
  ]
  settle-failed g x s (some c) m = inl m

  place-failed :
      (g x : ClassAgent) (s : Progress) → Elem x (place ds g s).failed → Elem x s.failed ⊎ (x ≡ g)
  unfolding place
  place-failed g x s m = elim (Bool-cases (has_key g.class_id s.assignments)) [
    | inl old ↦ inl (rw (old, place) at m)
    | inr new ↦
        settle-failed g x s (choose s.assignments ds (actions g) none) (rw (new, place) at m)
  ]

  -- Only listed classes fail.
  pub place_all-failed :
      (gs : List ClassAgent) (s : Progress)
      → Within gs agents
      → Within s.failed agents
      → Within (place_all ds gs s).failed agents
  unfolding place_all
  place_all-failed [] s i w = w
  place_all-failed (g ∷ gs) s i w =
      place_all-failed gs (place ds g s) (λ x m. i x (inr m))
        λ x m. elim (place-failed g x s m) [
          | inl old ↦ w x old
          | inr e ↦ subst (λ y. Elem y agents) (sym e) (i g (inl refl))
        ]
