-- ===== src/Compilation/Builtin/Kept.antt =====
-- The constraints of the user only add nodes.
use academic_affairs_system.Common.{
  inl, inr, Bool, true, false, ◌&&◌, List, [], ◌∷◌, Elem, Elem-append_left, Bool-cases, length, leb,
  if◌then◌else◌,
}
use academic_affairs_system.Common.Text.{Text, text, text_eq, contains}
use academic_affairs_system.Compilation.Rows.{Constraint}
use academic_affairs_system.Compilation.Nodes.{DistributionNode}
use academic_affairs_system.Compilation.Constraints.{
  Groups, Added, distribution, spacing_nodes, spacing_targets, scoped_ids, is_limit_kind,
  pair_kinds, user_id, add_distributions, warn_not_compiled, compile_constraint,
  compile_user_constraints,
}

module _ (d : DistributionNode) (by_task : Groups) (resources : List (Text × Groups)) where
  compile_constraint-keeps :
      (c : Constraint) (a : Added)
      → Elem d a.distributions
      → Elem d (compile_constraint by_task resources c a).distributions
  unfolding compile_constraint
  compile_constraint-keeps c a m = elim (Bool-cases (text_eq c.kind (text "same_day_spacing"))) [
    | inl e ↦
        rw e (Elem-append_left d a.distributions (spacing_nodes c 0 (spacing_targets c by_task)) m)
    | inr e ↦ elim (Bool-cases (text_eq c.kind (text "preferred_periods"))) [
      | inl f ↦ rw (e, f) m
      | inr f ↦ elim (Bool-cases (is_limit_kind c.kind)) [
        | inl g ↦ rw (e, f, g) m
        | inr g ↦
            rw (e, f, g)
              (pair_or_warning
                (contains c.kind pair_kinds && leb 2 (length (scoped_ids c by_task))))
      ]
    ]
  ]
    where
      pair_or_warning :
          (b : Bool)
          → Elem d
              (if b
                then add_distributions
                    (distribution
                      (user_id c)
                      c.kind
                      (scoped_ids c by_task)
                      c.is_hard
                      c.weight
                      c.name
                      (text "custom"))
                    a
                else warn_not_compiled c a).distributions
      pair_or_warning true =
          Elem-append_left d a.distributions
            (distribution (user_id c) c.kind (scoped_ids c by_task) c.is_hard c.weight c.name
              (text "custom"))
            m
      pair_or_warning false = m

  pub compile_user_constraints-keeps :
      (cs : List Constraint) (a : Added)
      → Elem d a.distributions
      → Elem d (compile_user_constraints cs by_task resources a).distributions
  unfolding compile_user_constraints
  compile_user_constraints-keeps [] a m = m
  compile_user_constraints-keeps (c ∷ cs) a m =
      compile_user_constraints-keeps cs (compile_constraint by_task resources c a)
        (compile_constraint-keeps c a m)
