-- ===== src/CpSat/Warm/Kept.antt =====
-- Sound assignments that are written as a solution and read back are sound.
use academic_affairs_system.Common.{
  ◌≡◌, ◌≢◌, sym, subst, ap, ◌∙◌, ◌⊎◌, inl, inr, true, List, [], ◌∷◌, Option, none, some, map, arith,
  Elem, Elem-append, Bool-cases, Option-cases,
}
use academic_affairs_system.Common.Text.{Text, text_eq, text_lt, text_eq_iff, is_empty}
use academic_affairs_system.Common.Dict.{lookup, insert, lookup-insert}
use academic_affairs_system.Common.Sort.{sort_by}
use academic_affairs_system.Cgcs.Model.{ClassAgent, Action, Assignments, Problem}
use academic_affairs_system.Cgcs.Actions.{actions}
use academic_affairs_system.Cgcs.Actions.Offers.{actions-class_id}
use academic_affairs_system.Cgcs.Greedy.Placing.{IsSound, Allowed}
use academic_affairs_system.Cgcs.Repair.{agents_by_id}
use academic_affairs_system.Cgcs.Run.Correct.{agents_by_id-IsIndex}
use academic_affairs_system.CpSat.Warm.{
  ActionKey, ClassNode, action_key_of, key_eq, class_node, node_for, nodes_for, solution_nodes,
  select_nodes, action_with_key, agent_action, keep_action, assign_selected, greedy_assignments,
}
use academic_affairs_system.CpSat.Warm.Alike.{Alike, Alike-key_eq, Compatible-Alike}

-- A node of a solution is that of a placed action.
nodes_for-Elem :
    (ids : List Text) (m : Assignments) (n : ClassNode)
    → Elem n (nodes_for ids m)
    → (k : Text) × (a : Action) × (lookup k m ≡ some a) × (n ≡ class_node a)
unfolding nodes_for
nodes_for-Elem [] m n i = absurd i
nodes_for-Elem (k ∷ ids) m n i = elim (Elem-append n (node_for (lookup k m)) (nodes_for ids m) i) [
  | inl here ↦ elim (Option-cases (lookup k m)) [
    | inl e ↦ absurd (subst (λ o. Elem n (node_for o)) e here)
    | inr (a, e) ↦ found a e (subst (λ o. Elem n (node_for o)) e here)
  ]
  | inr later ↦ nodes_for-Elem ids m n later
]
  where
    found :
        (a : Action)
        → lookup k m ≡ some a
        → Elem n (class_node a ∷ [])
        → (j : Text) × (b : Action) × (lookup j m ≡ some b) × (n ≡ class_node b)
    found a e (inl q) = (k, a, e, q)
    found a e (inr j) = absurd j

Elem-insert :
    {V : Type 0} (e : Text × V) (k : Text) (v : V) (m : List (Text × V))
    → Elem e (insert k v m)
    → (e ≡ (k, v)) ⊎ Elem e m
Elem-insert e k v [] (inl p) = inl p
Elem-insert e k v [] (inr i) = absurd i
Elem-insert e k v ((j, w) ∷ m) i = elim (Bool-cases (text_eq j k)) [
  | inl same ↦ replaced same (rw same at i)
  | inr apart ↦ kept (λ h. Elem-insert e k v m h) (rw apart at i)
]
  where
    replaced : text_eq j k ≡ true → Elem e ((j, v) ∷ m) → (e ≡ (k, v)) ⊎ Elem e ((j, w) ∷ m)
    replaced same (inl p) = inl (p ∙ ap (λ x. (x, v)) ((text_eq_iff j k).0 same))
    replaced same (inr h) = inr (inr h)

    kept :
        (Elem e (insert k v m) → (e ≡ (k, v)) ⊎ Elem e m)
        → Elem e ((j, w) ∷ insert k v m)
        → (e ≡ (k, v)) ⊎ Elem e ((j, w) ∷ m)
    kept rest (inl p) = inr (inl p)
    kept rest (inr h) = elim (rest h) [ inl new ↦ inl new | inr old ↦ inr (inr old) ]

select_nodes-Elem :
    (nodes : List ClassNode) (selected : List (Text × ActionKey)) (e : Text × ActionKey)
    → Elem e (select_nodes nodes selected)
    → Elem e nodes ⊎ Elem e selected
unfolding select_nodes
select_nodes-Elem [] selected e i = inr i
select_nodes-Elem ((k, key) ∷ nodes) selected e i = elim (Bool-cases (is_empty k)) [
  | inl h ↦ elim (select_nodes-Elem nodes selected e (rw h at i)) [
    | inl later ↦ inl (inr later)
    | inr old ↦ inr old
  ]
  | inr h ↦ elim (select_nodes-Elem nodes (insert k key selected) e (rw h at i)) [
    | inl later ↦ inl (inr later)
    | inr old ↦ elim (Elem-insert e k key selected old) [
      | inl new ↦ inl (inl new)
      | inr older ↦ inr older
    ]
  ]
]

action_with_key-Elem :
    (key : ActionKey) (xs : List Action) (a : Action)
    → action_with_key key xs ≡ some a
    → Elem a xs × (key_eq (action_key_of a) key ≡ true)
unfolding action_with_key
action_with_key-Elem key [] a e = cc
action_with_key-Elem key (x ∷ xs) a e = elim (Bool-cases (key_eq (action_key_of x) key)) [
  | inl h ↦ first (rw h at e) h
  | inr h ↦ let (i, f) = action_with_key-Elem key xs a (rw h at e) in (inr i, f)
]
  where
    first :
        some x ≡ some a
        → key_eq (action_key_of x) key ≡ true
        → Elem a (x ∷ xs) × (key_eq (action_key_of a) key ≡ true)
    first p h =
        let same : x ≡ a = cc in
        (inl (sym same), subst (λ w. key_eq (action_key_of w) key ≡ true) same h)

keep_action-lookup :
    (j k : Text) (o : Option Action) (m : Assignments) (a : Action)
    → lookup k (keep_action j o m) ≡ some a
    → ((j ≡ k) × (o ≡ some a)) ⊎ (lookup k m ≡ some a)
keep_action-lookup j k none m a e = inr e
keep_action-lookup j k (some b) m a e = ground (arith, lookup-insert j k b m, text_eq_iff j k)

-- An entry that is read has the key of a node with its id.
assign_selected-lookup :
    (by_id : List (Text × ClassAgent)) (selected : List (Text × ActionKey)) (m : Assignments)
    (k : Text) (a : Action)
    → lookup k (assign_selected by_id selected m) ≡ some a
    → ((key : ActionKey) × Elem (k, key) selected × (agent_action key (lookup k by_id) ≡ some a))
      ⊎ (lookup k m ≡ some a)
unfolding assign_selected
assign_selected-lookup by_id [] m k a e = inr e
assign_selected-lookup by_id ((j, key) ∷ rest) m k a e =
    elim (assign_selected-lookup by_id rest (keep_action j (agent_action key (lookup j by_id)) m) k
      a e) [
        | inl (later, i, f) ↦ inl (later, inr i, f)
        | inr old ↦ elim (keep_action-lookup j k (agent_action key (lookup j by_id)) m a old) [
          | inl (p, f) ↦ inl (
            key,
            inl (ap (λ w. (w, key)) (sym p)),
            subst (λ w. agent_action key (lookup w by_id) ≡ some a) p f,
          )
          | inr older ↦ inr older
        ]
      ]

module _ (p : Problem) (m : Assignments) (s : IsSound p.agents p.distributions m) where
  -- What was placed at an id and what is read there.
  record Restored (k : Text) (a : Action) : Type 0 where
    written : Action
    placed : lookup k m ≡ some written
    alike : Alike a written
    allowed : Allowed p.agents k a

  module _ (k : Text) (a : Action) where
    Restored-from :
        (g : ClassAgent) (b : Action) (j : Text) (key : ActionKey)
        → lookup k (agents_by_id p.agents []) ≡ some g
        → lookup j m ≡ some b
        → (k, key) ≡ class_node b
        → action_with_key key (actions g) ≡ some a
        → Restored k a
    Restored-from g b j key e f q h =
        let (i, same) = action_with_key-Elem key (actions g) a h in
        let (listed, named) =
          agents_by_id-IsIndex p.agents p.agents [] (λ x x-in. x-in) (λ l c l-in. cc) k g e in
        let at_k = ap (λ w. w.0) q in
        let at_j = s.valid.keyed j b f in
        record {
          written = b;
          placed = subst (λ w. lookup w m ≡ some b) (sym at_j ∙ sym at_k) f;
          alike =
              Alike-key_eq a b (actions-class_id g a i ∙ named ∙ at_k)
                (subst (λ w. key_eq (action_key_of a) w ≡ true) (ap (λ w. w.1) q) same);
          allowed = (g, listed, named, i);
        }

    Restored-for : lookup k (greedy_assignments p (solution_nodes m)) ≡ some a → Restored k a
    unfolding greedy_assignments solution_nodes
    Restored-for e =
        elim (assign_selected-lookup (agents_by_id p.agents []) (select_nodes (solution_nodes m) [])
          [] k a e) [
            | inr absent ↦ absurd (none-not-some absent)
            | inl (key, i, f) ↦ elim (select_nodes-Elem (solution_nodes m) [] (k, key) i) [
              | inr absent ↦ absurd absent
              | inl node ↦
                  let (j, b, placed, q) =
                    nodes_for-Elem (sort_by text_lt (map (λ (w : Text × Action). w.0) m)) m (k, key)
                      node in
                  elim (Option-cases (lookup k (agents_by_id p.agents []))) [
                    | inl missing ↦ absurd (none-not-some (sym (ap (agent_action key) missing) ∙ f))
                    | inr (g, found) ↦
                        Restored-from g b j key found placed q
                          (sym (ap (agent_action key) found) ∙ f)
                  ]
            ]
          ]
      where
        none-not-some : none ≢ some a
        none-not-some absent = cc

-- Sound assignments that are written as the class elements of a solution and read back give sound
-- assignments: every class that is read has one of its own actions, with the time and the room that
-- were written, and the room rule and the required distributions hold between them.
pub greedy_assignments-IsSound :
    (p : Problem) (m : Assignments)
    → IsSound p.agents p.distributions m
    → IsSound p.agents p.distributions (greedy_assignments p (solution_nodes m))
greedy_assignments-IsSound p m s = record {
  valid = record {
    keyed = λ k a e.
        let (g, i, named, j) = (Restored-for p m s k a e).allowed in actions-class_id g a j ∙ named;
    apart = λ k j a b ne e f.
        let r = Restored-for p m s k a e in
        let q = Restored-for p m s j b f in
        Compatible-Alike p.distributions a b r.written q.written r.alike q.alike
          (s.valid.apart k j r.written q.written ne r.placed q.placed);
  };
  allowed = λ k a e. (Restored-for p m s k a e).allowed;
}
