-- ===== src/Examples/Timetable.antt =====
-- A move of maths from the first slot to the second while music and art stay where they are.
use academic_affairs_system.Common.{
  ℕ, ◌≡◌, refl, sym, subst, ◌∙◌, ◌⊎◌, inl, inr, true, false, some, List, [], ◌∷◌, arith, length,
  ltb, Elem, if◌then◌else◌,
}
use academic_affairs_system.Common.Text.{Text, text, text_eq, text_eq_iff, text_eq_comm, contains}
use academic_affairs_system.Common.Dict.{lookup}
use academic_affairs_system.Cgcs.Model.{Action, Assignments, ClassAgent, Distribution, Problem}
use academic_affairs_system.Cgcs.Actions.{room_action}
use academic_affairs_system.Cgcs.Rules.{violates}
use academic_affairs_system.Cgcs.Checks.Hard.{Compatible, Compatible-sym, HardValid}
use academic_affairs_system.Cgcs.Repair.{agents_by_id}
use academic_affairs_system.Timetable.{
  Entry, Request, Conflict, hard_issue, checked, validate_move, first_where, place_entries,
  other_conflicts, rule_conflicts, moved_overlaps,
}
use academic_affairs_system.Timetable.Moved.{StayCompatible, validate_move-HardValid}
use academic_affairs_system.Examples.Greedy.{program}
use academic_affairs_system.Examples.Data.{
  slot, hall, teacher, two_classes, maths, music, spread, maths_second, music_first,
}

abbrev art : ClassAgent
art = record {
  class_id = text "a";
  label = text "Art";
  time_options = slot 3 ∷ [];
  room_options = hall ∷ [];
}

abbrev art_third : Action
art_third = room_action art hall (slot 3)

-- Music and art have one teacher.
abbrev arts : Distribution
arts = record teacher { distribution_id = text "e"; class_ids = text "u" ∷ text "a" ∷ [] }

abbrev three_classes : Problem
three_classes = record two_classes {
  agents = maths ∷ music ∷ art ∷ [];
  distributions = teacher ∷ spread ∷ arts ∷ [];
}

abbrev entry : Text → ℕ → Entry
entry id start = record {
  lesson_id = some id;
  weekday = 1;
  start_slot = start;
  week_bits = text "11";
  duration_slots = 1;
  room_id = some (text "hall");
}

abbrev entries : List Entry
entries = entry (text "m") 1 ∷ entry (text "u") 1 ∷ entry (text "a") 3 ∷ []

abbrev to_second : Request
to_second = record {
  lesson_id = text "m";
  weekday = 1;
  start_slot = 2;
  room_id = some (text "hall");
}

-- A check that admits three lessons.
abbrev at_most_three : Assignments → List Conflict
at_most_three m = if ltb 3 (length m) then hard_issue ∷ [] else []

abbrev after_move : Assignments
after_move = (text "m", maths_second) ∷ (text "u", music_first) ∷ (text "a", art_third) ∷ []

validate-to_second :
    validate_move at_most_three three_classes entries to_second ≡ checked [] after_move
unfolding program validate_move agents_by_id first_where place_entries other_conflicts
    rule_conflicts moved_overlaps
validate-to_second = refl

music-art-Compatible : Compatible three_classes.distributions music_first art_third
unfolding program
music-art-Compatible = record { rooms = refl; rules = rules }
  where
    rules :
        (d : Distribution)
        → Elem d three_classes.distributions
        → d.required ≡ true
        → contains (text "u") d.class_ids ≡ true
        → contains (text "a") d.class_ids ≡ true
        → violates d music_first art_third ≡ false
    rules d (inl e) q m n = subst (λ w. violates w music_first art_third ≡ false) (sym e) refl
    rules d (inr (inl e)) q m n = cc
    rules d (inr (inr (inl e))) q m n =
        subst (λ w. violates w music_first art_third ≡ false) (sym e) refl
    rules d (inr (inr (inr i))) q m n = absurd i

-- What stays is music or art.
stays :
    (k : Text) (a : Action)
    → text_eq k (text "m") ≡ false
    → lookup k after_move ≡ some a
    → ((text "u" ≡ k) × (music_first ≡ a)) ⊎ ((text "a" ≡ k) × (art_third ≡ a))
stays k a n e =
    ground (arith, text_eq_iff (text "u") k, text_eq_iff (text "a") k, text_eq_comm (text "m") k)

after_move-StayCompatible : StayCompatible (text "m") three_classes.distributions after_move
after_move-StayCompatible k j a b ne n o e f = pairs (stays k a n e) (stays j b o f)
  where
    pairs :
        ((text "u" ≡ k) × (music_first ≡ a)) ⊎ ((text "a" ≡ k) × (art_third ≡ a))
        → ((text "u" ≡ j) × (music_first ≡ b)) ⊎ ((text "a" ≡ j) × (art_third ≡ b))
        → Compatible three_classes.distributions a b
    pairs (inl (p, q)) (inl (p', q')) = absurd (ne (sym p ∙ p'))
    pairs (inl (p, q)) (inr (p', q')) =
        subst (λ w. Compatible three_classes.distributions w b) q
          (subst (Compatible three_classes.distributions music_first) q' music-art-Compatible)
    pairs (inr (p, q)) (inl (p', q')) =
        subst (λ w. Compatible three_classes.distributions w b) q
          (subst (Compatible three_classes.distributions art_third) q'
            (Compatible-sym three_classes.distributions music_first art_third music-art-Compatible))
    pairs (inr (p, q)) (inr (p', q')) = absurd (ne (sym p ∙ p'))

validate_move-HardValid_example :
    HardValid three_classes.distributions after_move × (at_most_three after_move ≡ [])
validate_move-HardValid_example =
    validate_move-HardValid at_most_three three_classes entries to_second after_move
      validate-to_second after_move-StayCompatible
