-- ===== src/Compilation/Builtin/Apart.antt =====
-- No assignments that keep the required distributions of the compiled problem hold two lessons of one teacher
-- or one homeroom at overlapping times.
use academic_affairs_system.Common.{
  ◌≡◌, ◌≢◌, refl, sym, ap, ◌∙◌, subst, ◌⊎◌, inl, inr, true, false, not, List, [], ◌∷◌, ◌++◌, Option,
  some, arith, Elem, Elem-append_left, Elem-append_right, select_keeps, length, ltb, select,
}
use academic_affairs_system.Common.Text.{Text, text, is_empty, contains}
use academic_affairs_system.Common.Dict.{lookup}
use academic_affairs_system.Cgcs.Model.{not_overlap, Action, Assignments, Problem}
use academic_affairs_system.Cgcs.Times.{overlaps}
use academic_affairs_system.Cgcs.Rules.{violates, violates_type}
use academic_affairs_system.Cgcs.Checks.Hard.{HardValid}
use academic_affairs_system.Cgcs.Parsing.{supported_distributions, parse_problem}
use academic_affairs_system.Xml.{Parsed, parsed, value_error}
use academic_affairs_system.Compilation.Rows.{Task, Lesson, Snapshot, Constraint}
use academic_affairs_system.Compilation.Nodes.{DistributionNode, Document}
use academic_affairs_system.Compilation.Constraints.{Groups}
use academic_affairs_system.Compilation.Classes.{
  Build, task_with_id, active_tasks, compiled_lessons,
}
use academic_affairs_system.Compilation.Build.{
  inputs_of, nothing_built, builtin_nodes, built, added, document_of, build_problem,
}
use academic_affairs_system.Compilation.Readback.Rules.{
  nonempty_ids, distribution_rule, if_known, distribution_rules, rules_of,
}
use academic_affairs_system.Compilation.Readback.Whole.{problem_of, parse_problem-document_element}
use academic_affairs_system.Compilation.Grouped.{
  InGroupOf, IsGrouping, by_teacher-IsGrouping, by_homeroom-IsGrouping, build_lessons-groups,
}
use academic_affairs_system.Compilation.Builtin.{Separates, builtin_nodes-Separates}
use academic_affairs_system.Compilation.Builtin.Unique.{contains-of-Elem, two-in-length}
use academic_affairs_system.Compilation.Builtin.Kept.{compile_user_constraints-keeps}

-- The lesson is compiled, and the resource of its task is the one of that id.
pub record Uses (s : Snapshot) (resource : Task → Option Text) (k : Text) (l : Lesson)
    : Type 0 where
  pub compiled : Elem l (compiled_lessons s)
  pub task :
      (t : Task) × (task_with_id l.teaching_task_id (active_tasks s) ≡ some t)
      × (resource t ≡ some k)

abbrev pub teacher_of : Task → Option Text
teacher_of t = t.primary_teacher_id

abbrev pub homeroom_of : Task → Option Text
homeroom_of t = some t.homeroom_id

-- One teacher has both lessons, or one homeroom has.
abbrev pub ShareResource : Snapshot → Text → Lesson → Lesson → Type 0
ShareResource s k l m =
    (Uses s teacher_of k l × Uses s teacher_of k m)
    ⊎ (Uses s homeroom_of k l × Uses s homeroom_of k m)

module _ (s : Snapshot) where
  grouped :
      (groups : Build → Groups) (resource : Task → Option Text)
      → IsGrouping groups resource
      → (k : Text) (l : Lesson) → is_empty k ≡ false
      → Uses s resource k l
      → InGroupOf k l.id (groups (built s))
  unfolding built
  grouped groups resource h k l n u =
      let (t, e, q) = u.task in
      build_lessons-groups groups resource h (inputs_of s) (active_tasks s) (compiled_lessons s)
        (nothing_built s) l t k u.compiled e q n

  abbrev teacher_nodes : List DistributionNode
  teacher_nodes = builtin_nodes (text "teacher") (built s).by_teacher

  abbrev homeroom_nodes : List DistributionNode
  homeroom_nodes = builtin_nodes (text "homeroom") (built s).by_homeroom

  separated :
      (k : Text) (l m : Lesson)
      → is_empty k ≡ false
      → l.id ≢ m.id
      → ShareResource s k l m
      → (d : DistributionNode) × Elem d (teacher_nodes ++ homeroom_nodes) × Separates d l.id m.id
  separated k l m n ne (inl (u, v)) =
      let (d, i, h) =
        builtin_nodes-Separates (text "teacher") k l.id m.id (built s).by_teacher
          (grouped (λ (b : Build). b.by_teacher) teacher_of by_teacher-IsGrouping k l n u)
          (grouped (λ (b : Build). b.by_teacher) teacher_of by_teacher-IsGrouping k m n v) ne in
      (d, Elem-append_left d teacher_nodes homeroom_nodes i, h)
  separated k l m n ne (inr (u, v)) =
      let (d, i, h) =
        builtin_nodes-Separates (text "homeroom") k l.id m.id (built s).by_homeroom
          (grouped (λ (b : Build). b.by_homeroom) homeroom_of by_homeroom-IsGrouping k l n u)
          (grouped (λ (b : Build). b.by_homeroom) homeroom_of by_homeroom-IsGrouping k m n v) ne in
      (d, Elem-append_right d teacher_nodes homeroom_nodes i, h)

  in_document :
      (d : DistributionNode)
      → Elem d (teacher_nodes ++ homeroom_nodes)
      → Elem d (document_of s).distributions
  unfolding document_of added
  in_document d i =
      compile_user_constraints-keeps d (built s).by_task
        ((text "teacher", (built s).by_teacher) ∷ (text "homeroom", (built s).by_homeroom) ∷ [])
        (select (λ (c : Constraint). c.enabled) s.constraints)
        (record {
          distributions = teacher_nodes ++ homeroom_nodes;
          limits = [];
          diagnostics = (built s).diagnostics;
        })
        i

Elem-rules_of :
    {A B : Type 0} (h : A → List B) (x : A) (y : B) (xs : List A)
    → Elem x xs
    → Elem y (h x)
    → Elem y (rules_of h xs)
Elem-rules_of h x y [] m n = absurd m
Elem-rules_of h x y (z ∷ zs) (inl e) n =
    Elem-append_left y (h z) (rules_of h zs) (subst (λ w. Elem y (h w)) e n)
Elem-rules_of h x y (z ∷ zs) (inr m) n =
    Elem-append_right y (h z) (rules_of h zs) (Elem-rules_of h x y zs m n)

-- A node that separates two lessons is a rule of the problem that is read.
rule_read :
    (d : DistributionNode) (x y : Text)
    → Separates d x y
    → x ≢ y
    → is_empty x ≡ false
    → is_empty y ≡ false
    → Elem (distribution_rule d not_overlap) (distribution_rules d)
rule_read d x y h ne nx ny =
    subst
      (λ k. Elem (distribution_rule d not_overlap) (if_known d (lookup k supported_distributions)))
      (sym h.kind) (rw enough (inl refl))
  where
    enough : ltb (length (nonempty_ids d.class_ids)) 2 ≡ false
    enough = ground (
      arith,
      two-in-length x y (nonempty_ids d.class_ids)
          (select_keeps (λ id. not (is_empty id)) x d.class_ids h.first (ground arith))
          (select_keeps (λ id. not (is_empty id)) y d.class_ids h.second (ground arith)) ne,
    )

parsed_inj : (p q : Problem) → parsed p ≡ parsed q → p ≡ q
parsed_inj p q e = ap problem_in e
  where
    problem_in : Parsed Problem → Problem
    problem_in (parsed r) = r
    problem_in value_error = p

in_problem :
    (doc : Document) (d : DistributionNode)
    → Elem d doc.distributions
    → Elem (distribution_rule d not_overlap) (distribution_rules d)
    → Elem (distribution_rule d not_overlap) (problem_of doc).distributions
unfolding problem_of
in_problem doc d i r =
    Elem-rules_of distribution_rules d (distribution_rule d not_overlap) doc.distributions i r

violates-not_overlap :
    (d : DistributionNode) (a b : Action)
    → violates (distribution_rule d not_overlap) a b ≡ overlaps a.time b.time
unfolding violates violates_type
violates-not_overlap d a b = refl

-- If two different lessons that are compiled have the same teacher, or the same homeroom, whose id is
-- not empty, then in no assignments that keep the room rule and the required distributions of the
-- problem read from the compiled document do both stand at times that overlap. The ids of the lessons
-- are not empty.
pub build_problem-separates :
    (s : Snapshot) (p : Problem) (k : Text) (l m : Lesson) (assigned : Assignments) (a b : Action)
    → parse_problem (build_problem s).0 ≡ parsed p
    → HardValid p.distributions assigned
    → ShareResource s k l m
    → is_empty k ≡ false
    → is_empty l.id ≡ false
    → is_empty m.id ≡ false
    → l.id ≢ m.id
    → lookup l.id assigned ≡ some a
    → lookup m.id assigned ≡ some b
    → overlaps a.time b.time ≡ false
unfolding build_problem
build_problem-separates s p k l m assigned a b e v share nk nl nm ne ea eb =
    let (d, i, h) = separated s k l m nk ne share in
    sym (violates-not_overlap d a b)
    ∙ (v.apart l.id m.id a b ne ea eb).rules (distribution_rule d not_overlap)
        (subst (λ (q : Problem). Elem (distribution_rule d not_overlap) q.distributions)
          (parsed_inj (problem_of (document_of s)) p
            (sym (parse_problem-document_element (document_of s)) ∙ e))
          (in_problem (document_of s) d (in_document s d i) (rule_read d l.id m.id h ne nl nm)))
        h.required (named l a d ea nl h.first) (named m b d eb nm h.second)
  where
    named :
        (n : Lesson) (c : Action) (d : DistributionNode)
        → lookup n.id assigned ≡ some c
        → is_empty n.id ≡ false
        → Elem n.id d.class_ids
        → contains c.class_id (nonempty_ids d.class_ids) ≡ true
    named n c d f z i =
        subst (λ q. contains q (nonempty_ids d.class_ids) ≡ true) (sym (v.keyed n.id c f))
          (contains-of-Elem n.id (nonempty_ids d.class_ids)
            (select_keeps (λ id. not (is_empty id)) n.id d.class_ids i (ground arith)))
