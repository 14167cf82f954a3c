-- ===== src/Compilation/Builtin.antt =====
-- The built-in rules of `_build_problem`: they reach the scheduler, and its assignments keep the lessons
-- of a teacher or a homeroom apart.
pub mod Unique
pub mod Kept
pub mod Apart
pub mod Scheduled
use academic_affairs_system.Common.{
  ℕ, ◌≤◌, ◌≡◌, ◌≢◌, refl, sym, ap, ◌∙◌, subst, inl, inr, Bool, true, false, List, [], ◌∷◌, ◌++◌,
  Option, none, some, arith, Elem, Elem-append_left, Elem-append_right, Bool-cases, length, ltb,
  if◌then◌else◌,
}
use academic_affairs_system.Common.Text.{Text, text, text_eq, contains}
use academic_affairs_system.Common.Dict.{lookup}
use academic_affairs_system.Compilation.Nodes.{DistributionNode}
use academic_affairs_system.Compilation.Schedules.{or_nothing}
use academic_affairs_system.Compilation.Constraints.{Groups, unique, distribution}
use academic_affairs_system.Compilation.Build.{builtin_nodes}
use academic_affairs_system.Compilation.Grouped.{InGroupOf}
use academic_affairs_system.Compilation.Builtin.Unique.{unique-keeps, two-in-length}

-- The node that keeps a group apart.
pub record Separates (d : DistributionNode) (x y : Text) : Type 0 where
  pub kind : d.kind ≡ text "NotOverlap"
  pub required : d.required ≡ true
  pub first : Elem x d.class_ids
  pub second : Elem y d.class_ids

distribution-Separates :
    (id name scope x y : Text) (ids : List Text)
    → Elem x ids
    → Elem y ids
    → x ≢ y
    → (d : DistributionNode) × Elem d (distribution id (text "NotOverlap") ids true 0 name scope)
      × Separates d x y
unfolding distribution
distribution-Separates id name scope x y ids m n ne = (
  node,
  rw enough (inl refl),
  record { kind = refl; required = refl; first = in_x; second = in_y },
)
  where
    in_x : Elem x (unique ids)
    in_x = unique-keeps x ids m

    in_y : Elem y (unique ids)
    in_y = unique-keeps y ids n

    enough : ltb (length (unique ids)) 2 ≡ false
    enough = ground (arith, two-in-length x y (unique ids) in_x in_y ne)

    node : DistributionNode
    node = record {
      id = id;
      kind = text "NotOverlap";
      required = true;
      penalty = 0;
      name = name;
      scope = scope;
      class_ids = unique ids;
    }

-- Two lessons of one group are separated by a node.
pub builtin_nodes-Separates :
    (prefix k x y : Text) (groups : Groups)
    → InGroupOf k x groups
    → InGroupOf k y groups
    → x ≢ y
    → (d : DistributionNode) × Elem d (builtin_nodes prefix groups) × Separates d x y
unfolding builtin_nodes
builtin_nodes-Separates prefix k x y [] m n ne = absurd m
builtin_nodes-Separates prefix k x y ((j, ids) ∷ groups) m n ne = elim (Bool-cases (text_eq j k)) [
  | inl e ↦
      let (d, i, s) =
        distribution-Separates (text "builtin-" ++ (prefix ++ (text "-" ++ j)))
          (prefix ++ text "资源冲突") prefix x y ids (rw e at m) (rw e at n) ne in
      (
        d,
        Elem-append_left d
            (distribution (text "builtin-" ++ (prefix ++ (text "-" ++ j))) (text "NotOverlap") ids
              true 0 (prefix ++ text "资源冲突") prefix)
            (builtin_nodes prefix groups) i,
        s,
      )
  | inr e ↦
      let (d, i, s) = builtin_nodes-Separates prefix k x y groups (rw e at m) (rw e at n) ne in
      (
        d,
        Elem-append_right d
            (distribution (text "builtin-" ++ (prefix ++ (text "-" ++ j))) (text "NotOverlap") ids
              true 0 (prefix ++ text "资源冲突") prefix)
            (builtin_nodes prefix groups) i,
        s,
      )
]
