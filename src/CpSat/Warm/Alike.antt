-- ===== src/CpSat/Warm/Alike.antt =====
-- Actions that a solution does not tell apart meet the same hard constraints.
use academic_affairs_system.Common.{
  ℕ, ◌≡◌, ◌≢◌, refl, sym, subst, ◌∙◌, inl, inr, Bool, true, false, not, ◌&&◌, ◌||◌, List, [], ◌∷◌,
  Option, none, some, arith, Bool-cases, if◌then◌else◌,
}
use academic_affairs_system.Common.Text.{
  Text, text_eq, text_eq_iff, is_truthy, option_text_eq, option_text_eq_sound, contains,
}
use academic_affairs_system.Cgcs.Model.{
  TimeOption, Action, Distribution, option_eq, DistributionType, not_overlap, same_room,
  different_time, different_days, different_weeks, same_days, same_start, same_time, precedence,
  consecutive, different_week_same_day_same_start, other,
}
use academic_affairs_system.Cgcs.Times.{shares_week, shares_day, overlaps}
use academic_affairs_system.Cgcs.Rules.{
  violates, violates_type, violates_precedence, violates_consecutive, not_adjacent, gap,
}
use academic_affairs_system.Cgcs.Checks.{same_room_overlap}
use academic_affairs_system.Cgcs.Checks.Hard.{Compatible}
use academic_affairs_system.CpSat.Warm.{action_key_of, key_eq, class_node}

-- The room as a solution has it: none if the string is empty.
abbrev written_room : Option Text → Option Text
written_room r = if is_truthy r then r else none

-- The first action does what the second does, as far as a solution tells.
pub record Alike (a b : Action) : Type 0 where
  pub class_id : a.class_id ≡ b.class_id
  pub days : a.time.days ≡ b.time.days
  pub weeks : a.time.weeks ≡ b.time.weeks
  pub start : a.time.start ≡ b.time.start
  pub span : a.time.span ≡ b.time.span
  pub period : a.time.period_index ≡ b.time.period_index
  pub room : a.room_id ≡ written_room b.room_id

option_eq_sound : (p q : Option ℕ) → option_eq p q ≡ true → p ≡ q
option_eq_sound none none h = refl
option_eq_sound (some p) (some q) h = ground arith
option_eq_sound none (some q) h = cc
option_eq_sound (some p) none h = cc

pub Alike-key_eq :
    (a b : Action)
    → a.class_id ≡ b.class_id
    → key_eq (action_key_of a) (class_node b).1 ≡ true
    → Alike a b
unfolding key_eq
Alike-key_eq a b e h = record {
  class_id = e;
  days = ground (arith, text_eq_iff a.time.days b.time.days);
  weeks = ground (arith, text_eq_iff a.time.weeks b.time.weeks);
  start = ground arith;
  span = ground arith;
  period = option_eq_sound a.time.period_index b.time.period_index (ground arith);
  room = option_text_eq_sound a.room_id (written_room b.room_id) (ground arith);
}

clash_written :
    (p q : Option Text) (u : Bool)
    → (is_truthy (written_room p) && (option_text_eq (written_room p) (written_room q) && u)) ≡ true
    → (is_truthy p && (option_text_eq p q && u)) ≡ true
clash_written none q u h = cc
clash_written (some []) q u h = cc
clash_written (some (x ∷ xs)) none u h = cc
clash_written (some (x ∷ xs)) (some []) u h = cc
clash_written (some (x ∷ xs)) (some (y ∷ ys)) u h = h

differ_written :
    (p q : Option Text)
    → not (option_text_eq (written_room p) (written_room q)) ≡ true
    → not (option_text_eq p q) ≡ true
differ_written none none h = h
differ_written none (some []) h = refl
differ_written none (some (y ∷ ys)) h = refl
differ_written (some []) none h = refl
differ_written (some []) (some []) h = cc
differ_written (some []) (some (y ∷ ys)) h = refl
differ_written (some (x ∷ xs)) none h = refl
differ_written (some (x ∷ xs)) (some []) h = refl
differ_written (some (x ∷ xs)) (some (y ∷ ys)) h = h

gap-Alike :
    (p q : Option ℕ) (s t u v : TimeOption)
    → s.start ≡ u.start
    → s.span ≡ u.span
    → t.start ≡ v.start
    → gap p q s t ≡ gap p q u v
gap-Alike (some p) (some q) s t u v e f h = refl
gap-Alike (some p) none s t u v e f h = rw (e, f, h) refl
gap-Alike none q s t u v e f h = rw (e, f, h) refl

not_adjacent-Alike :
    (a c b d : Action)
    → Alike a c
    → Alike b d
    → not_adjacent a.time b.time ≡ not_adjacent c.time d.time
unfolding not_adjacent
not_adjacent-Alike a c b d l r =
    λ i. not (text_eq (l.weeks i) (r.weeks i)) || not (text_eq (l.days i) (r.days i)) || gaps i
  where
    gaps :
        gap a.time.period_index b.time.period_index a.time b.time
        ≡ gap c.time.period_index d.time.period_index c.time d.time
    gaps =
        (λ i. gap (l.period i) (r.period i) a.time b.time)
        ∙ gap-Alike c.time.period_index d.time.period_index a.time b.time c.time d.time l.start
            l.span r.start

module _ (a b c d : Action) (l : Alike a c) (r : Alike b d) where
  overlaps-Alike : overlaps a.time b.time ≡ overlaps c.time d.time
  unfolding overlaps shares_week shares_day
  overlaps-Alike = rw (l.days, l.weeks, l.start, l.span, r.days, r.weeks, r.start, r.span) refl

  rooms-Alike :
      (is_truthy a.room_id && same_room_overlap a b) ≡ true
      → (is_truthy c.room_id && same_room_overlap c d) ≡ true
  unfolding same_room_overlap
  rooms-Alike h =
      clash_written c.room_id d.room_id (overlaps c.time d.time)
        (rw (l.room, r.room, overlaps-Alike) at h)

  violates_consecutive-Alike :
      (g : Distribution) → violates_consecutive g a b ≡ violates_consecutive g c d
  unfolding violates_consecutive
  violates_consecutive-Alike g =
      rw (l.class_id, r.class_id, not_adjacent-Alike a c b d l r, not_adjacent-Alike b d a c r l)
        refl

  -- What the actions that were read violate, those that were written violate.
  violates_type-Alike :
      (t : DistributionType) (g : Distribution)
      → violates_type t g a b ≡ true
      → violates_type t g c d ≡ true
  unfolding violates_type shares_week shares_day violates_precedence
  violates_type-Alike not_overlap g h = sym overlaps-Alike ∙ h
  violates_type-Alike same_room g h = differ_written c.room_id d.room_id (rw (l.room, r.room) at h)
  violates_type-Alike different_time g h =
      rw (l.weeks, r.weeks, l.days, r.days, l.start, r.start) at h
  violates_type-Alike different_days g h = rw (l.weeks, r.weeks, l.days, r.days) at h
  violates_type-Alike different_weeks g h = rw (l.weeks, r.weeks) at h
  violates_type-Alike same_days g h = rw (l.days, r.days) at h
  violates_type-Alike same_start g h = rw (l.start, r.start) at h
  violates_type-Alike same_time g h =
      rw (l.weeks, r.weeks, l.days, r.days, l.start, r.start, l.span, r.span) at h
  violates_type-Alike precedence g h =
      rw
        (l.class_id, r.class_id, l.weeks, r.weeks, l.days, r.days, l.start, r.start, l.span, r.span)
        at h
  violates_type-Alike consecutive g h = sym (violates_consecutive-Alike g) ∙ h
  violates_type-Alike different_week_same_day_same_start g h =
      rw (l.weeks, r.weeks, l.days, r.days, l.start, r.start) at h
  violates_type-Alike (other t) g h = h

pub Compatible-Alike :
    (ds : List Distribution) (a b c d : Action)
    → Alike a c
    → Alike b d
    → Compatible ds c d
    → Compatible ds a b
unfolding violates
Compatible-Alike ds a b c d l r ok = record {
  rooms = elim (Bool-cases (is_truthy a.room_id && same_room_overlap a b)) [
    | inl h ↦ absurd (true-not-false (sym (rooms-Alike a b c d l r h) ∙ ok.rooms))
    | inr h ↦ h
  ];
  rules = λ g i q m n. elim (Bool-cases (violates g a b)) [
    | inl h ↦ absurd (
        true-not-false (
          sym (violates_type-Alike a b c d l r g.distribution_type g h)
          ∙ ok.rules g i q (subst (λ k. contains k g.class_ids ≡ true) l.class_id m)
              (subst (λ k. contains k g.class_ids ≡ true) r.class_id n)))
    | inr h ↦ h
  ];
}
  where
    true-not-false : true ≢ false
    true-not-false p = cc
