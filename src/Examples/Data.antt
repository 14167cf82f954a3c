-- ===== src/Examples/Data.antt =====
-- A problem of two classes that share a room, as in tests/test_scheduling.py.
use academic_affairs_system.Common.{ℕ, true, false, some, [], ◌∷◌}
use academic_affairs_system.Common.Text.{text}
use academic_affairs_system.Cgcs.Model.{
  TimeOption, RoomOption, ClassAgent, Action, Distribution, not_overlap, different_days,
  Assignments, Problem,
}
use academic_affairs_system.Cgcs.Actions.{room_action}

abbrev pub slot : ℕ → TimeOption
slot n = record {
  days = text "10000";
  weeks = text "11";
  start = n;
  span = 1;
  penalty = 0;
  period_index = some n;
}

abbrev pub hall : RoomOption
hall = record { room_id = text "hall"; penalty = 0; unavailable_times = []; timed_penalties = [] }

abbrev pub maths : ClassAgent
maths = record {
  class_id = text "m";
  label = text "Maths";
  time_options = slot 1 ∷ slot 2 ∷ [];
  room_options = hall ∷ [];
}

abbrev pub music : ClassAgent
music = record {
  class_id = text "u";
  label = text "Music";
  time_options = slot 1 ∷ [];
  room_options = hall ∷ [];
}

abbrev pub teacher : Distribution
teacher = record {
  distribution_id = text "d";
  distribution_type = not_overlap;
  required = true;
  penalty = 0;
  class_ids = text "m" ∷ text "u" ∷ [];
  name = text "teacher";
  scope = text "auto-teacher";
}

-- The two should be on different days, at a cost of 5 otherwise.
abbrev pub spread : Distribution
spread = record {
  distribution_id = text "s";
  distribution_type = different_days;
  required = false;
  penalty = 5;
  class_ids = text "m" ∷ text "u" ∷ [];
  name = text "spread";
  scope = text "custom";
}

abbrev pub two_classes : Problem
two_classes = record {
  name = text "p";
  rooms = [];
  agents = maths ∷ music ∷ [];
  distributions = teacher ∷ spread ∷ [];
  resource_limits = [];
}

abbrev pub maths_first : Action
maths_first = room_action maths hall (slot 1)

abbrev pub maths_second : Action
maths_second = room_action maths hall (slot 2)

abbrev pub music_first : Action
music_first = room_action music hall (slot 1)

-- Music in the first slot.
abbrev pub only_music : Assignments
only_music = (text "u", music_first) ∷ []

abbrev pub only_maths : Assignments
only_maths = (text "m", maths_first) ∷ []
