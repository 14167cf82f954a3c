-- ===== src/Compilation/Readback/Rules.antt =====
-- The rules of the document, read back.
use academic_affairs_system.Common.{
  ℕ, max, ◌≡◌, refl, ap, Bool, not, List, [], ◌∷◌, ◌++◌, Option, none, some, map, select, length,
  ltb, Bool-cases, inl, inr, if◌then◌else◌,
}
use academic_affairs_system.Common.Text.{Text, text, is_empty}
use academic_affairs_system.Common.Dict.{lookup}
use academic_affairs_system.Cgcs.Model.{DistributionType, Distribution, LimitType, ResourceLimit}
use academic_affairs_system.Cgcs.Parsing.{
  has_id, id_of, supported_distributions, named_ids, distribution_of, parse_distribution,
  limit_types, limit_of, parse_limit, parse_each,
}
use academic_affairs_system.Xml.{
  Element, children_of, findall, children_tagged, int_of, Parsed, parsed,
}
use academic_affairs_system.Xml.Numbers.{int_of-decimal}
use academic_affairs_system.Xml.Search.{children_tagged-map, select-map}
use academic_affairs_system.Compilation.Nodes.{
  DistributionNode, LimitNode, member_element, distribution_element, limit_element,
}

abbrev pub nonempty_ids : List Text → List Text
nonempty_ids = select (λ id. not (is_empty id))

-- A penalty is written only for a rule that is not required.
abbrev pub read_penalty : Bool → ℕ → ℕ
read_penalty required penalty = if required then 0 else penalty

abbrev pub distribution_rule : DistributionNode → DistributionType → Distribution
distribution_rule d kind = record {
  distribution_id = d.id;
  distribution_type = kind;
  required = d.required;
  penalty = read_penalty d.required d.penalty;
  class_ids = nonempty_ids d.class_ids;
  name = d.name;
  scope = d.scope;
}

abbrev pub if_known : DistributionNode → Option DistributionType → List Distribution
if_known d none = []
if_known d (some kind) =
    if ltb (length (nonempty_ids d.class_ids)) 2 then [] else distribution_rule d kind ∷ []

-- What the scheduler sees of a distribution: nothing if its type is not supported or it names fewer
-- than two classes.
abbrev pub distribution_rules : DistributionNode → List Distribution
distribution_rules d = if_known d (lookup d.kind supported_distributions)

abbrev pub limit_rule : LimitNode → LimitType → ResourceLimit
limit_rule l kind = record {
  constraint_id = l.id;
  limit_type = kind;
  required = l.required;
  penalty = read_penalty l.required l.penalty;
  limit = max 1 l.limit;
  class_ids = nonempty_ids l.class_ids;
  name = l.name;
  scope = l.scope;
}

abbrev pub if_limit : LimitNode → Option LimitType → List ResourceLimit
if_limit l none = []
if_limit l (some kind) =
    if ltb (length (nonempty_ids l.class_ids)) 1 then [] else limit_rule l kind ∷ []

abbrev pub limit_rules : LimitNode → List ResourceLimit
limit_rules l = if_limit l (lookup l.kind limit_types)

map_ids : (ids : List Text) → map id_of (map member_element ids) ≡ ids
map_ids [] = refl
map_ids (x ∷ xs) = ap (λ z. x ∷ z) (map_ids xs)

members_ids :
    (ids : List Text)
    → map id_of
        (select has_id (children_tagged (text "class") (children_of (map member_element ids))))
      ≡ nonempty_ids ids
members_ids ids =
    rw
      (
        children_tagged-map (text "class") member_element ids (λ x. refl),
        select-map has_id member_element (λ id. not (is_empty id)) ids (λ x. refl),
      )
      (map_ids (nonempty_ids ids))

named_ids-distribution :
    (d : DistributionNode) → named_ids (distribution_element d) ≡ nonempty_ids d.class_ids
unfolding named_ids findall
named_ids-distribution d = members_ids d.class_ids

named_ids-limit : (l : LimitNode) → named_ids (limit_element l) ≡ nonempty_ids l.class_ids
unfolding named_ids findall
named_ids-limit l = members_ids l.class_ids

distribution_of-node :
    (d : DistributionNode) (ids : List Text) (kind : Option DistributionType)
    → ids ≡ nonempty_ids d.class_ids
    → distribution_of (distribution_element d) ids kind ≡ parsed (if_known d kind)
unfolding int_of
distribution_of-node d ids none e = refl
distribution_of-node d ids (some kind) e =
    elim (Bool-cases (ltb (length (nonempty_ids d.class_ids)) 2)) [
      | inl few ↦ rw (e, few) refl
      | inr enough ↦ elim (Bool-cases d.required) [
        | inl q ↦ rw (e, enough, q) refl
        | inr q ↦ rw (e, enough, q, int_of-decimal d.penalty) refl
      ]
    ]

pub parse_distribution-node :
    (d : DistributionNode)
    → parse_distribution (distribution_element d) ≡ parsed (distribution_rules d)
unfolding parse_distribution
parse_distribution-node d =
    distribution_of-node d (named_ids (distribution_element d))
      (lookup d.kind supported_distributions) (named_ids-distribution d)

limit_of-node :
    (l : LimitNode) (ids : List Text) (kind : Option LimitType)
    → ids ≡ nonempty_ids l.class_ids
    → limit_of (limit_element l) ids kind ≡ parsed (if_limit l kind)
unfolding int_of
limit_of-node l ids none e = refl
limit_of-node l ids (some kind) e = elim (Bool-cases (ltb (length (nonempty_ids l.class_ids)) 1)) [
  | inl few ↦ rw (e, few) refl
  | inr enough ↦ elim (Bool-cases l.required) [
    | inl q ↦ rw (e, enough, q, int_of-decimal l.limit) refl
    | inr q ↦ rw (e, enough, q, int_of-decimal l.limit, int_of-decimal l.penalty) refl
  ]
]

pub parse_limit-node : (l : LimitNode) → parse_limit (limit_element l) ≡ parsed (limit_rules l)
unfolding parse_limit
parse_limit-node l =
    limit_of-node l (named_ids (limit_element l)) (lookup l.kind limit_types) (named_ids-limit l)

abbrev pub rules_of : {A B : Type 0} → (A → List B) → List A → List B
rules_of h [] = []
rules_of h (x ∷ xs) = h x ++ rules_of h xs

pub parse_each-map :
    {A B : Type 0} (f : Element → Parsed (List B)) (g : A → Element) (h : A → List B) (xs : List A)
    → ((x : A) → f (g x) ≡ parsed (h x))
    → parse_each f (map g xs) ≡ parsed (rules_of h xs)
parse_each-map f g h [] e = refl
parse_each-map f g h (x ∷ xs) e = rw (e x, parse_each-map f g h xs e) refl
