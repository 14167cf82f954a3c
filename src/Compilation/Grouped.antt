-- ===== src/Compilation/Grouped.antt =====
-- The groups of lessons that `_build_problem` collects by teacher and by homeroom.
use academic_affairs_system.Common.{
  ◌≡◌, refl, sym, subst, inl, inr, false, List, [], ◌∷◌, Option, none, some, arith, Elem,
  Elem-append_left, Elem-append_right, Bool-cases,
}
use academic_affairs_system.Common.Text.{Text, text_eq, text_eq_iff, is_empty}
use academic_affairs_system.Common.Dict.{lookup}
use academic_affairs_system.Common.Groups.{add_to}
use academic_affairs_system.Compilation.Rows.{Task, Lesson}
use academic_affairs_system.Compilation.Schedules.{or_nothing}
use academic_affairs_system.Compilation.Constraints.{Groups}
use academic_affairs_system.Compilation.Classes.{Inputs, Build, task_with_id}
use academic_affairs_system.Compilation.Build.{add_if_some, lesson_with, build_lessons}

-- The lesson stands in the group of the key.
abbrev pub InGroupOf : Text → Text → Groups → Type 0
InGroupOf k id groups = Elem id (or_nothing (lookup k groups))

add_to_self : (k id : Text) (g : Groups) → InGroupOf k id (add_to text_eq k id g)
add_to_self k id [] = ground (arith, text_eq_iff k k)
add_to_self k id ((j, ids) ∷ g) = elim (Bool-cases (text_eq j k)) [
  | inl e ↦ rw (e, e) (Elem-append_right id ids (id ∷ []) (inl refl))
  | inr e ↦ rw (e, e) (add_to_self k id g)
]

add_to-keeps :
    (k j id x : Text) (g : Groups) → InGroupOf k id g → InGroupOf k id (add_to text_eq j x g)
add_to-keeps k j id x [] m = absurd m
add_to-keeps k j id x ((i, ids) ∷ g) m = elim (Bool-cases (text_eq i j)) [
  | inl e ↦ elim (Bool-cases (text_eq i k)) [
    | inl f ↦ rw (e, f) (Elem-append_left id ids (x ∷ []) (rw f at m))
    | inr f ↦ rw (e, f) (rw f at m)
  ]
  | inr e ↦ elim (Bool-cases (text_eq i k)) [
    | inl f ↦ rw (e, f) (rw f at m)
    | inr f ↦ rw (e, f) (add_to-keeps k j id x g (rw f at m))
  ]
]

-- A lesson with a task, whose resource `of_task` names, stands in its group.
pub record IsGrouping (groups : Build → Groups) (of_task : Task → Option Text) : Type 0 where
  pub adds :
      (i : Inputs) (t : Task) (l : Lesson) (b : Build) (k : Text)
      → of_task t ≡ some k
      → is_empty k ≡ false
      → InGroupOf k l.id (groups (lesson_with i (some t) l b))
  pub keeps :
      (i : Inputs) (t : Option Task) (l : Lesson) (b : Build) (k id : Text)
      → InGroupOf k id (groups b)
      → InGroupOf k id (groups (lesson_with i t l b))

add_if_some_self :
    (o : Option Text) (k id : Text) (g : Groups)
    → o ≡ some k
    → is_empty k ≡ false
    → InGroupOf k id (add_if_some o id g)
add_if_some_self none k id g e n = cc
add_if_some_self (some j) k id g e n = ground (arith, add_to_self k id g)

add_if_some-keeps :
    (o : Option Text) (k id x : Text) (g : Groups)
    → InGroupOf k id g
    → InGroupOf k id (add_if_some o x g)
add_if_some-keeps none k id x g m = m
add_if_some-keeps (some j) k id x g m = elim (Bool-cases (is_empty j)) [
  | inl e ↦ rw e m
  | inr e ↦ rw e (add_to-keeps k j id x g m)
]

pub by_teacher-IsGrouping :
    IsGrouping (λ (b : Build). b.by_teacher) (λ (t : Task). t.primary_teacher_id)
by_teacher-IsGrouping = record {
  adds = λ i t l b k e n. add_if_some_self t.primary_teacher_id k l.id b.by_teacher e n;
  keeps = keeps;
}
  where
    keeps :
        (i : Inputs) (t : Option Task) (l : Lesson) (b : Build) (k id : Text)
        → InGroupOf k id b.by_teacher
        → InGroupOf k id (lesson_with i t l b).by_teacher
    keeps i none l b k id m = m
    keeps i (some t) l b k id m = add_if_some-keeps t.primary_teacher_id k id l.id b.by_teacher m

pub by_homeroom-IsGrouping :
    IsGrouping (λ (b : Build). b.by_homeroom) (λ (t : Task). some t.homeroom_id)
by_homeroom-IsGrouping = record { adds = λ i t l b k e n. added t l b k e; keeps = keeps }
  where
    added :
        (t : Task) (l : Lesson) (b : Build) (k : Text)
        → some t.homeroom_id ≡ some k
        → InGroupOf k l.id (add_to text_eq t.homeroom_id l.id b.by_homeroom)
    added t l b k e = ground (arith, add_to_self t.homeroom_id l.id b.by_homeroom)

    keeps :
        (i : Inputs) (t : Option Task) (l : Lesson) (b : Build) (k id : Text)
        → InGroupOf k id b.by_homeroom
        → InGroupOf k id (lesson_with i t l b).by_homeroom
    keeps i none l b k id m = m
    keeps i (some t) l b k id m = add_to-keeps k t.homeroom_id id l.id b.by_homeroom m

module _ (groups : Build → Groups) (of_task : Task → Option Text) (h : IsGrouping groups of_task)
    (i : Inputs) (ts : List Task) where
  build_lessons-keeps :
      (ls : List Lesson) (b : Build) (k id : Text)
      → InGroupOf k id (groups b)
      → InGroupOf k id (groups (build_lessons i ts ls b))
  unfolding build_lessons
  build_lessons-keeps [] b k id m = m
  build_lessons-keeps (l ∷ ls) b k id m =
      build_lessons-keeps ls (lesson_with i (task_with_id l.teaching_task_id ts) l b) k id
        (h.keeps i (task_with_id l.teaching_task_id ts) l b k id m)

  pub build_lessons-groups :
      (ls : List Lesson) (b : Build) (l : Lesson) (t : Task) (k : Text)
      → Elem l ls
      → task_with_id l.teaching_task_id ts ≡ some t
      → of_task t ≡ some k
      → is_empty k ≡ false
      → InGroupOf k l.id (groups (build_lessons i ts ls b))
  unfolding build_lessons
  build_lessons-groups [] b l t k m e q n = absurd m
  build_lessons-groups (v ∷ ls) b l t k (inr m) e q n =
      build_lessons-groups ls (lesson_with i (task_with_id v.teaching_task_id ts) v b) l t k m e q n
  build_lessons-groups (v ∷ ls) b l t k (inl m) e q n =
      build_lessons-keeps ls (lesson_with i (task_with_id v.teaching_task_id ts) v b) k l.id (
        subst
          (λ (z : Lesson).
            InGroupOf k l.id (groups (lesson_with i (task_with_id z.teaching_task_id ts) z b)))
          m
          (subst (λ o. InGroupOf k l.id (groups (lesson_with i o l b))) (sym e)
            (h.adds i t l b k q n)))
