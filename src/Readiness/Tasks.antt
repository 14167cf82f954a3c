-- ===== src/Readiness/Tasks.antt =====
-- What the check of a project asks of each task.
use academic_affairs_system.Common.{
  ◌≡◌, ◌≢◌, refl, sym, ap, ◌∙◌, subst, inl, inr, Bool, true, false, not, ◌&&◌, List, [], ◌∷◌, ◌++◌,
  any, select, arith, Elem, if◌then◌else◌,
}
use academic_affairs_system.Common.Text.{text_eq, is_empty, is_truthy, or_empty}
use academic_affairs_system.Compilation.Rows.{Task, Lesson, RoomRow, CoursePlan, Snapshot}
use academic_affairs_system.Compilation.Options.{named_with_id}
use academic_affairs_system.Compilation.Classes.{active_tasks}
use academic_affairs_system.Compilation.Build.{build_problem}
use academic_affairs_system.Compilation.Times.{group_from-lookup}
use academic_affairs_system.Validation.Limits.Days.{both_empty}
use academic_affairs_system.Readiness.{
  ProjectIssue, fixed_room_unavailable, fixed_room_type_mismatch, room_type_unavailable,
  is_active_teacher, teacher_issues, enabled_slots, expanded_slots, slot_issues, fixed_room,
  is_active_room, has_type, is_other_type, is_room_kind, room_issues, task_issues, weekly_total,
}

-- A task that can be scheduled as it stands.
pub record IsSchedulable (s : Snapshot) (t : Task) : Type 0 where
  -- It has a teacher, who is active.
  pub named : is_empty (or_empty t.primary_teacher_id) ≡ false
  pub teacher : is_active_teacher (named_with_id (or_empty t.primary_teacher_id) s.teachers) ≡ true
  -- Its enabled lessons take the slots that it has a week.
  pub slots :
      enabled_slots (select (λ (l : Lesson). text_eq l.teaching_task_id t.id) s.lessons)
      ≡ t.weekly_slots
  -- A fixed room is active, and of the type that is asked for.
  pub room : is_empty (or_empty t.fixed_room_id) ≡ false → is_active_room (fixed_room s t) ≡ true
  pub room_type : is_other_type (or_empty t.required_room_type) (fixed_room s t) ≡ false
  -- Some active room has the type that is asked for.
  pub some_room :
      is_room_kind (or_empty t.required_room_type) ≡ true
      → any
          (has_type (or_empty t.required_room_type))
          (select (λ (r : RoomRow). r.is_active) s.rooms)
        ≡ true

-- The active tasks of a plan have the slots that it plans, if it plans any.
abbrev pub IsCovered : List Task → CoursePlan → Type 0
IsCovered tasks plan =
    plan.weekly_slots ≢ 0
    → weekly_total (
        select (λ (t : Task). text_eq (or_empty t.course_plan_id) plan.id)
          (select (λ (t : Task). is_truthy t.course_plan_id) tasks))
      ≡ plan.weekly_slots

pub record IsReady (s : Snapshot) (plans : List CoursePlan) : Type 0 where
  pub compiled : (build_problem s).1.errors ≡ []
  pub tasks : (t : Task) → Elem t (active_tasks s) → IsSchedulable s t
  pub plans_covered : (q : CoursePlan) → Elem q plans → IsCovered (active_tasks s) q

expanded_slots-select :
    (s : Snapshot) (t : Task)
    → expanded_slots s t
      ≡ enabled_slots (select (λ (l : Lesson). text_eq l.teaching_task_id t.id) s.lessons)
unfolding expanded_slots
expanded_slots-select s t =
    ap enabled_slots (group_from-lookup (λ (l : Lesson). l.teaching_task_id) t.id s.lessons [])

module _ (s : Snapshot) (t : Task) where
  -- What the three checks of a task find nothing against.
  teacher_issues-none :
      teacher_issues s t ≡ []
      → (is_empty (or_empty t.primary_teacher_id) ≡ false)
        × (is_active_teacher (named_with_id (or_empty t.primary_teacher_id) s.teachers) ≡ true)
  unfolding teacher_issues
  teacher_issues-none h = ground arith

  slot_issues-none : slot_issues s t ≡ [] → expanded_slots s t ≡ t.weekly_slots
  unfolding slot_issues
  slot_issues-none h = ground arith

  abbrev typed_rooms : Bool
  typed_rooms =
      any (has_type (or_empty t.required_room_type)) (select (λ (r : RoomRow). r.is_active) s.rooms)

  abbrev RoomFits : Type 0
  RoomFits =
      (is_empty (or_empty t.fixed_room_id) ≡ false → is_active_room (fixed_room s t) ≡ true)
      × (is_other_type (or_empty t.required_room_type) (fixed_room s t) ≡ false)
      × (is_room_kind (or_empty t.required_room_type) ≡ true → typed_rooms ≡ true)

  room_tests :
      (a b c e f : Bool) (x y z : List ProjectIssue)
      → x ≢ []
      → y ≢ []
      → z ≢ []
      → (if not a && not b then x else if c then y else if e && not f then z else []) ≡ []
      → (a ≡ false → b ≡ true) × (c ≡ false) × (e ≡ true → f ≡ true)
  room_tests a b c e f x y z nx ny nz h = ground arith

  room_issues-none : room_issues s t ≡ [] → RoomFits
  unfolding room_issues
  room_issues-none h =
      room_tests (is_empty (or_empty t.fixed_room_id)) (is_active_room (fixed_room s t))
        (is_other_type (or_empty t.required_room_type) (fixed_room s t))
        (is_room_kind (or_empty t.required_room_type)) typed_rooms
        (fixed_room_unavailable t.id (or_empty t.fixed_room_id) ∷ [])
        (fixed_room_type_mismatch t.id (or_empty t.fixed_room_id) (or_empty t.required_room_type)
          ∷ [])
        (room_type_unavailable t.id (or_empty t.required_room_type) ∷ []) (λ q. cc) (λ q. cc)
        (λ q. cc) h

  IsSchedulable-of_issues :
      teacher_issues s t ≡ [] → slot_issues s t ≡ [] → room_issues s t ≡ [] → IsSchedulable s t
  IsSchedulable-of_issues a b c =
      let (n, h) = teacher_issues-none a in
      let (r, k, m) = room_issues-none c in
      record {
        named = n;
        teacher = h;
        slots = sym (expanded_slots-select s t) ∙ slot_issues-none b;
        room = r;
        room_type = k;
        some_room = m;
      }

  none-teacher_issues : IsSchedulable s t → teacher_issues s t ≡ []
  unfolding teacher_issues
  none-teacher_issues h = rw (h.named, h.teacher) refl

  none-slot_issues : IsSchedulable s t → slot_issues s t ≡ []
  unfolding slot_issues
  none-slot_issues h = ground (arith, expanded_slots-select s t ∙ h.slots)

  tests_of_room :
      (a b c e f : Bool) (x y z : List ProjectIssue)
      → (a ≡ false → b ≡ true)
      → c ≡ false
      → (e ≡ true → f ≡ true)
      → (if not a && not b then x else if c then y else if e && not f then z else []) ≡ []
  tests_of_room a b c e f x y z p q r = ground arith

  none-room_issues : IsSchedulable s t → room_issues s t ≡ []
  unfolding room_issues
  none-room_issues h =
      tests_of_room (is_empty (or_empty t.fixed_room_id)) (is_active_room (fixed_room s t))
        (is_other_type (or_empty t.required_room_type) (fixed_room s t))
        (is_room_kind (or_empty t.required_room_type)) typed_rooms
        (fixed_room_unavailable t.id (or_empty t.fixed_room_id) ∷ [])
        (fixed_room_type_mismatch t.id (or_empty t.fixed_room_id) (or_empty t.required_room_type)
          ∷ [])
        (room_type_unavailable t.id (or_empty t.required_room_type) ∷ []) h.room h.room_type
        h.some_room

module _ (s : Snapshot) where
  pub task_issues-none :
      (ts : List Task) → task_issues s ts ≡ [] → (t : Task) → Elem t ts → IsSchedulable s t
  unfolding task_issues
  task_issues-none [] h t m = absurd m
  task_issues-none (u ∷ ts) h t m =
      let (a, rest) =
        both_empty (teacher_issues s u) (slot_issues s u ++ (room_issues s u ++ task_issues s ts))
          h in
      let (b, rest') = both_empty (slot_issues s u) (room_issues s u ++ task_issues s ts) rest in
      let (c, later) = both_empty (room_issues s u) (task_issues s ts) rest' in
      elim m [
        | inl e ↦ subst (IsSchedulable s) (sym e) (IsSchedulable-of_issues s u a b c)
        | inr n ↦ task_issues-none ts later t n
      ]

  pub none-task_issues :
      (ts : List Task) → ((t : Task) → Elem t ts → IsSchedulable s t) → task_issues s ts ≡ []
  unfolding task_issues
  none-task_issues [] h = refl
  none-task_issues (u ∷ ts) h =
      rw
        (
          none-teacher_issues s u (h u (inl refl)),
          none-slot_issues s u (h u (inl refl)),
          none-room_issues s u (h u (inl refl)),
        )
        (none-task_issues ts (λ t m. h t (inr m)))
