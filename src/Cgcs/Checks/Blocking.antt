-- ===== src/Cgcs/Checks/Blocking.antt =====
-- `_blocking_class_ids` names the reasons for which `_is_feasible` refuses an action.
use academic_affairs_system.Common.{
  ◌≡◌, refl, sym, ap, ◌∙◌, ◌↔◌, inl, inr, Bool, true, false, not, ◌&&◌, List, [], ◌∷◌, ◌++◌, arith,
  any, select, Bool-cases,
}
use academic_affairs_system.Common.Text.{Text, contains}
use academic_affairs_system.Cgcs.Model.{Action, Distribution, Assignments}
use academic_affairs_system.Cgcs.Checks.{
  breaks, is_hard_for, has_room_clash, breaks_hard, is_feasible, add_ids, room_blockers,
  hard_blockers, blocking_class_ids,
}

-- A list that is empty, as a test.
abbrev none_in {ℓ} : {A : Type ℓ} → List A → Bool
none_in [] = true
none_in (x ∷ xs) = false

none_in_append : {A : Type 0} (xs : List A) (x : A) → none_in (xs ++ x ∷ []) ≡ false
none_in_append [] x = refl
none_in_append (y ∷ ys) x = refl

none_in-add_ids : (ks ids : List Text) → none_in (add_ids ks ids) ≡ (none_in ks && none_in ids)
unfolding add_ids
none_in-add_ids [] ids = refl
none_in-add_ids (k ∷ ks) [] = ground (arith, none_in-add_ids ks (k ∷ []))
none_in-add_ids (k ∷ ks) (i ∷ ids) = elim (Bool-cases (contains k (i ∷ ids))) [
  | inl e ↦ rw e (ground (arith, none_in-add_ids ks (i ∷ ids)))
  | inr e ↦ rw e (ground (arith, none_in-add_ids ks ((i ∷ ids) ++ k ∷ [])))
]

none_in-select : {A : Type 0} (p : A → Bool) (xs : List A) → none_in (select p xs) ≡ not (any p xs)
none_in-select p [] = refl
none_in-select p (x ∷ xs) = ground (arith, none_in-select p xs)

none_in-room_blockers :
    (c : Action) (m : Assignments) → none_in (room_blockers c m) ≡ not (has_room_clash c m)
unfolding room_blockers has_room_clash
none_in-room_blockers c [] = ground arith
none_in-room_blockers c (e ∷ m) = ground (arith, none_in-room_blockers c m)

none_in-hard_blockers :
    (c : Action) (m : Assignments) (ds : List Distribution) (ids : List Text)
    → none_in (hard_blockers c m ds ids) ≡ (none_in ids && not (any (breaks_hard c m) ds))
unfolding hard_blockers breaks_hard
none_in-hard_blockers c m [] ids = ground arith
none_in-hard_blockers c m (d ∷ ds) ids = elim (Bool-cases (is_hard_for c d)) [
  | inl e ↦ ground (
    arith,
    none_in-hard_blockers c m ds (add_ids (select (breaks d c m) d.class_ids) ids),
    none_in-add_ids (select (breaks d c m) d.class_ids) ids,
    none_in-select (breaks d c m) d.class_ids,
  )
  | inr e ↦ ground (arith, none_in-hard_blockers c m ds ids)
]

none_in-blocking :
    (c : Action) (m : Assignments) (ds : List Distribution)
    → none_in (blocking_class_ids c m ds) ≡ is_feasible c m ds
unfolding blocking_class_ids is_feasible
none_in-blocking c m ds = ground (
  arith,
  none_in-hard_blockers c m ds (add_ids (room_blockers c m) []),
  none_in-add_ids (room_blockers c m) [],
  none_in-room_blockers c m,
)

nil_of_none_in : {A : Type 0} (xs : List A) → none_in xs ≡ true → xs ≡ []
nil_of_none_in [] h = refl
nil_of_none_in (x ∷ xs) h = cc

-- An action fits exactly when no class blocks it: the repair's list of blockers and the check of
-- the first pass agree, for any assignments and distributions.
pub is_feasible_iff_unblocked :
    (c : Action) (m : Assignments) (ds : List Distribution)
    → (is_feasible c m ds ≡ true) ↔ (blocking_class_ids c m ds ≡ [])
is_feasible_iff_unblocked c m ds = (
  λ f. nil_of_none_in (blocking_class_ids c m ds) (none_in-blocking c m ds ∙ f),
  λ e. sym (none_in-blocking c m ds) ∙ ap none_in e,
)
