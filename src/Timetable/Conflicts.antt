-- ===== src/Timetable/Conflicts.antt =====
-- What it means that no conflict with another lesson is found.
use academic_affairs_system.Common.{
  ◌≡◌, ◌≢◌, refl, sym, subst, ap, ◌∙◌, inl, inr, true, false, ◌&&◌, List, [], ◌∷◌, ◌++◌, some,
  arith, Elem, Bool-cases,
}
use academic_affairs_system.Common.Text.{Text, text_eq, text_eq_iff, contains, is_truthy}
use academic_affairs_system.Common.Dict.{lookup}
use academic_affairs_system.Cgcs.Model.{Action, Distribution, Assignments}
use academic_affairs_system.Cgcs.Times.{overlaps, shares_week, shares_day, shares_bit}
use academic_affairs_system.Cgcs.Rules.{violates}
use academic_affairs_system.Cgcs.Checks.{same_room_overlap}
use academic_affairs_system.Cgcs.Checks.Hard.{Compatible}
use academic_affairs_system.Timetable.{
  moved_overlaps, room_conflicts, rule_conflicts, other_conflicts,
}

pub append-nil : {A : Type 0} (xs ys : List A) → (xs ++ ys) ≡ [] → (xs ≡ []) × (ys ≡ [])
append-nil [] ys e = (refl, e)
append-nil (x ∷ xs) ys e = absurd (cons-not-nil e)
  where
    cons-not-nil : (x ∷ (xs ++ ys)) ≢ []
    cons-not-nil p = cc

room_conflicts-nil :
    (c : Action) (k : Text) (a : Action)
    → room_conflicts c k a ≡ []
    → (is_truthy c.room_id && same_room_overlap c a) ≡ false
unfolding same_room_overlap overlaps shares_week shares_day shares_bit moved_overlaps
room_conflicts-nil c k a e = ground arith

rule_conflicts-nil :
    (id : Text) (c : Action) (k : Text) (a : Action) (ds : List Distribution) (d : Distribution)
    → rule_conflicts id c k a ds ≡ []
    → Elem d ds
    → d.required ≡ true
    → contains id d.class_ids ≡ true
    → contains k d.class_ids ≡ true
    → violates d c a ≡ false
unfolding rule_conflicts
rule_conflicts-nil id c k a [] d e i q m n = absurd i
rule_conflicts-nil id c k a (x ∷ ds) d e (inl s) q m n =
    subst (λ w. violates w c a ≡ false) (sym s)
      (at_first (subst (λ w. w.required ≡ true) s q)
        (subst (λ w. contains id w.class_ids ≡ true) s m)
        (subst (λ w. contains k w.class_ids ≡ true) s n))
  where
    at_first :
        x.required ≡ true
        → contains id x.class_ids ≡ true
        → contains k x.class_ids ≡ true
        → violates x c a ≡ false
    at_first q' m' n' = ground arith
rule_conflicts-nil id c k a (x ∷ ds) d e (inr i) q m n =
    rule_conflicts-nil id c k a ds d (ground arith) i q m n

-- No conflict with another lesson of the board: the two are compatible.
pub other_conflicts-nil :
    (id : Text) (c : Action) (ds : List Distribution) (m : Assignments) (k : Text) (a : Action)
    → other_conflicts id c ds m ≡ []
    → lookup k m ≡ some a
    → text_eq k id ≡ false
    → c.class_id ≡ id
    → a.class_id ≡ k
    → Compatible ds c a
unfolding other_conflicts
other_conflicts-nil id c ds [] k a e f n p q = cc
other_conflicts-nil id c ds ((j, b) ∷ m) k a e f n p q = elim (Bool-cases (text_eq j k)) [
  | inl here ↦ first here
  | inr there ↦ elim (Bool-cases (text_eq j id)) [
    | inl own ↦ other_conflicts-nil id c ds m k a (rw own at e) (rw there at f) n p q
    | inr other ↦
        other_conflicts-nil id c ds m k a
          (append-nil (rule_conflicts id c j b ds) (other_conflicts id c ds m)
            (append-nil (room_conflicts c j b)
              (rule_conflicts id c j b ds ++ other_conflicts id c ds m) (rw other at e)).1).1
          (rw there at f) n p q
  ]
]
  where
    some_same : some b ≡ some a → b ≡ a
    some_same h = cc

    first : text_eq j k ≡ true → Compatible ds c a
    first here =
        let jk = (text_eq_iff j k).0 here in
        let own = subst (λ w. text_eq w id ≡ false) (sym jk) n in
        let parts =
          append-nil (room_conflicts c j b)
            (rule_conflicts id c j b ds ++ other_conflicts id c ds m) (rw own at e) in
        let rules = append-nil (rule_conflicts id c j b ds) (other_conflicts id c ds m) parts.1 in
        let same = some_same (rw here at f) in
        subst (λ w. Compatible ds c w) same
          (record {
            rooms = room_conflicts-nil c j b parts.0;
            rules = λ d i h u v.
                rule_conflicts-nil id c j b ds d rules.0 i h
                  (subst (λ w. contains w d.class_ids ≡ true) p u)
                  (subst (λ w. contains w d.class_ids ≡ true)
                    (ap (λ w. w.class_id) same ∙ q ∙ sym jk) v);
          })
