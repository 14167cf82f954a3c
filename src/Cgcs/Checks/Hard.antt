-- ===== src/Cgcs/Checks/Hard.antt =====
-- The hard constraints as an invariant of the assignments, the room rule and the required
-- distributions, and what `_is_feasible` guarantees.
use academic_affairs_system.Common.{
  ◌≡◌, ◌≢◌, refl, sym, subst, ◌∙◌, ◌⊎◌, inl, inr, Bool, true, false, ◌&&◌, List, [], Option, none,
  some, arith, any-false, Elem,
}
use academic_affairs_system.Common.Text.{
  Text, text_eq_iff, contains, Elem-of-contains, is_truthy, option_text_eq,
}
use academic_affairs_system.Common.Dict.{
  lookup, insert, erase, lookup-insert, lookup-erase, any-values-false,
}
use academic_affairs_system.Cgcs.Model.{Action, Distribution, Assignments}
use academic_affairs_system.Cgcs.Times.{overlaps}
use academic_affairs_system.Cgcs.Times.Overlap.{overlaps_comm}
use academic_affairs_system.Cgcs.Rules.{violates}
use academic_affairs_system.Cgcs.Rules.Symmetry.{violates_comm}
use academic_affairs_system.Cgcs.Checks.{same_room_overlap, breaks, breaks_hard, is_feasible}

-- Two actions may stand together: not in one room at overlapping times, and no required
-- distribution that names both of them is violated.
pub record Compatible (ds : List Distribution) (a b : Action) : Type 0 where
  pub rooms : (is_truthy a.room_id && same_room_overlap a b) ≡ false
  pub rules :
      (d : Distribution)
      → Elem d ds
      → d.required ≡ true
      → contains a.class_id d.class_ids ≡ true
      → contains b.class_id d.class_ids ≡ true
      → violates d a b ≡ false

-- Every entry is filed under its own class, and any two of them are compatible.
pub record HardValid (ds : List Distribution) (m : Assignments) : Type 0 where
  pub keyed : (k : Text) (a : Action) → lookup k m ≡ some a → a.class_id ≡ k
  pub apart :
      (k j : Text) (a b : Action)
      → k ≢ j
      → lookup k m ≡ some a
      → lookup j m ≡ some b
      → Compatible ds a b

same_room_test_comm :
    (p q : Option Text) (u v : Bool)
    → u ≡ v
    → (is_truthy p && (option_text_eq p q && u)) ≡ (is_truthy q && (option_text_eq q p && v))
same_room_test_comm none none u v e = refl
same_room_test_comm none (some b) u v e = ground arith
same_room_test_comm (some a) none u v e = ground arith
same_room_test_comm (some a) (some b) u v e = ground (arith, text_eq_iff a b, text_eq_iff b a)

same_room_overlap_comm :
    (a b : Action)
    → (is_truthy a.room_id && same_room_overlap a b)
      ≡ (is_truthy b.room_id && same_room_overlap b a)
unfolding same_room_overlap
same_room_overlap_comm a b =
    same_room_test_comm a.room_id b.room_id (overlaps a.time b.time) (overlaps b.time a.time)
      (overlaps_comm a.time b.time)

pub Compatible-sym : (ds : List Distribution) (a b : Action) → Compatible ds a b → Compatible ds b a
Compatible-sym ds a b h = record {
  rooms = sym (same_room_overlap_comm a b) ∙ h.rooms;
  rules = λ d i q p r. violates_comm d b a ∙ h.rules d i q r p;
}

room_of_feasible :
    (c : Action) (m : Assignments) (ds : List Distribution) (k : Text) (a : Action)
    → is_feasible c m ds ≡ true
    → lookup k m ≡ some a
    → (is_truthy c.room_id && same_room_overlap c a) ≡ false
unfolding is_feasible
room_of_feasible c m ds k a f e = ground (arith, any-values-false (same_room_overlap c) k a m)

rule_of_feasible :
    (c : Action) (m : Assignments) (ds : List Distribution) (k : Text) (a : Action)
    (d : Distribution)
    → is_feasible c m ds ≡ true
    → lookup k m ≡ some a
    → Elem d ds
    → d.required ≡ true
    → contains c.class_id d.class_ids ≡ true
    → contains k d.class_ids ≡ true
    → violates d c a ≡ false
unfolding is_feasible
rule_of_feasible c m ds k a d f e i q p r = ground (
  arith,
  any-false (breaks_hard c m) ds d,
  any-false (breaks d c m) d.class_ids k,
  Elem-of-contains k d.class_ids r,
)

-- An action that passes the check is compatible with every action that is placed.
pub Compatible-of-feasible :
    (c : Action) (m : Assignments) (ds : List Distribution) (k : Text) (a : Action)
    → is_feasible c m ds ≡ true
    → lookup k m ≡ some a
    → a.class_id ≡ k
    → Compatible ds c a
Compatible-of-feasible c m ds k a f e key = record {
  rooms = room_of_feasible c m ds k a f e;
  rules = λ d i q p r.
      rule_of_feasible c m ds k a d f e i q p (subst (λ j. contains j d.class_ids ≡ true) key r);
}

-- The invariant depends on what the dict answers only.
pub HardValid-ext :
    (ds : List Distribution) (m n : Assignments)
    → ((k : Text) → lookup k m ≡ lookup k n)
    → HardValid ds m
    → HardValid ds n
HardValid-ext ds m n same v = record {
  keyed = λ k a e. v.keyed k a (same k ∙ e);
  apart = λ k j a b ne e f. v.apart k j a b ne (same k ∙ e) (same j ∙ f);
}

pub HardValid-empty : (ds : List Distribution) → HardValid ds []
HardValid-empty ds = record { keyed = λ k a e. cc; apart = λ k j a b ne e f. cc }

pub HardValid-erase :
    (ds : List Distribution) (k : Text) (m : Assignments)
    → HardValid ds m
    → HardValid ds (erase k m)
HardValid-erase ds k m v = record {
  keyed = λ j a e. v.keyed j a (kept j a e);
  apart = λ i j a b ne e f. v.apart i j a b ne (kept i a e) (kept j b f);
}
  where
    kept : (j : Text) (a : Action) → lookup j (erase k m) ≡ some a → lookup j m ≡ some a
    kept j a e = ground (arith, lookup-erase k j m)

-- If every entry stands under its own class and no two placed classes share a room at overlapping
-- times or break a required distribution that names both, then placing an action that passes the
-- check keeps this so.
pub HardValid-insert :
    (ds : List Distribution) (c : Action) (m : Assignments)
    → HardValid ds m
    → is_feasible c m ds ≡ true
    → HardValid ds (insert c.class_id c m)
HardValid-insert ds c m v f = record { keyed = filed; apart = apart }
  where
    found :
        (j : Text) (a : Action)
        → lookup j (insert c.class_id c m) ≡ some a
        → ((c.class_id ≡ j) × (c ≡ a)) ⊎ (lookup j m ≡ some a)
    found j a e = ground (arith, lookup-insert c.class_id j c m, text_eq_iff c.class_id j)

    filed : (j : Text) (a : Action) → lookup j (insert c.class_id c m) ≡ some a → a.class_id ≡ j
    filed j a e = elim (found j a e) [
      | inl (k, p) ↦ subst (λ w. w.class_id ≡ j) p k
      | inr old ↦ v.keyed j a old
    ]

    beside : (j : Text) (a : Action) → lookup j m ≡ some a → Compatible ds c a
    beside j a e = Compatible-of-feasible c m ds j a f e (v.keyed j a e)

    apart :
        (i j : Text) (a b : Action)
        → i ≢ j
        → lookup i (insert c.class_id c m) ≡ some a
        → lookup j (insert c.class_id c m) ≡ some b
        → Compatible ds a b
    apart i j a b ne e g = elim (found i a e) [
      | inl (p, q) ↦ elim (found j b g) [
        | inl (p', q') ↦ absurd (ne (sym p ∙ p'))
        | inr old ↦ subst (λ w. Compatible ds w b) q (beside j b old)
      ]
      | inr old ↦ elim (found j b g) [
        | inl (p', q') ↦ subst (λ w. Compatible ds a w) q' (Compatible-sym ds c a (beside i a old))
        | inr old' ↦ v.apart i j a b ne old old'
      ]
    ]
