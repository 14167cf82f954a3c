-- ===== src/Cgcs/Repair/Best.antt =====
-- `_best_feasible_action`: an action that fits and is first by the key, if any action fits.
use academic_affairs_system.Common.{
  ◌≡◌, refl, sym, inl, inr, true, false, List, [], ◌∷◌, Option, none, some, select, Elem,
  Elem-select, select_keeps, subst, Bool-cases,
}
use academic_affairs_system.Common.Keys.{lt_on, lt_on-Order}
use academic_affairs_system.Common.Sort.{min_from, min_from-Elem, min_from_least}
use academic_affairs_system.Cgcs.Model.{ClassAgent, Action, Distribution, Assignments}
use academic_affairs_system.Cgcs.Actions.{actions}
use academic_affairs_system.Cgcs.Checks.{is_feasible}
use academic_affairs_system.Cgcs.Repair.{choice_key, first_least, best_feasible_action}

-- The result is the first by the key among the actions that fit; it is missing only if none fits.
abbrev pub IsFirstFit : ClassAgent → Assignments → List Distribution → Option Action → Type 0
IsFirstFit g m ds none = (x : Action) → Elem x (actions g) → is_feasible x m ds ≡ false
IsFirstFit g m ds (some a) =
    Elem a (actions g)
    × (is_feasible a m ds ≡ true)
    × ((x : Action)
        → Elem x (actions g)
        → is_feasible x m ds ≡ true
        → lt_on (choice_key m ds) x a ≡ false)

first_least-IsFirstFit :
    (g : ClassAgent) (m : Assignments) (ds : List Distribution) (xs : List Action)
    → select (λ a. is_feasible a m ds) (actions g) ≡ xs
    → IsFirstFit g m ds (first_least m ds xs)
first_least-IsFirstFit g m ds [] e = λ x i. elim (Bool-cases (is_feasible x m ds)) [
  | inl f ↦ absurd (subst (Elem x) e (select_keeps (λ a. is_feasible a m ds) x (actions g) i f))
  | inr f ↦ f
]
first_least-IsFirstFit g m ds (a ∷ rest) e = (here.0, here.1, least)
  where
    chosen : Action
    chosen = min_from (lt_on (choice_key m ds)) a rest

    here : Elem chosen (actions g) × (is_feasible chosen m ds ≡ true)
    here =
        Elem-select (λ x. is_feasible x m ds) chosen (actions g)
          (subst (Elem chosen) (sym e) (min_from-Elem (lt_on-Order (choice_key m ds)) a rest))

    least :
        (x : Action)
        → Elem x (actions g)
        → is_feasible x m ds ≡ true
        → lt_on (choice_key m ds) x chosen ≡ false
    least x i f =
        min_from_least (lt_on-Order (choice_key m ds)) a rest x
          (subst (Elem x) e (select_keeps (λ y. is_feasible y m ds) x (actions g) i f))

-- The action that a repair takes for a class fits, and no action of the class that fits comes
-- before it by penalty, then start, then room; there is none only if no action fits.
pub best_feasible_action-IsFirstFit :
    (g : ClassAgent) (m : Assignments) (ds : List Distribution)
    → IsFirstFit g m ds (best_feasible_action g m ds)
unfolding best_feasible_action
best_feasible_action-IsFirstFit g m ds =
    first_least-IsFirstFit g m ds (select (λ a. is_feasible a m ds) (actions g)) refl
