-- ===== src/Xml/Search.antt =====
-- How the searches in a document treat lists of elements.
use academic_affairs_system.Common.{
  ◌≡◌, refl, sym, ap, ◌∙◌, Bool, true, false, List, [], ◌∷◌, ◌++◌, map, arith, select, Bool-cases,
  inl, inr,
}
use mathlib.Core.List.{append_assoc}
use academic_affairs_system.Common.Text.{Text, text_eq}
use academic_affairs_system.Xml.{
  Element, children_of, tag_of, children_tagged, descendants, descendants_in, if_tagged, Parsed,
  parsed, parse_all,
}

module _ (tag : Text) where
  pub children_tagged-append :
      (xs ys : List Element)
      → children_tagged tag (children_of (xs ++ ys))
        ≡ children_tagged tag (children_of xs) ++ children_tagged tag (children_of ys)
  unfolding children_tagged
  children_tagged-append [] ys = refl
  children_tagged-append (x ∷ xs) ys = ground (arith, children_tagged-append xs ys)

  pub descendants_in-append :
      (xs ys : List Element)
      → descendants_in tag (children_of (xs ++ ys))
        ≡ descendants_in tag (children_of xs) ++ descendants_in tag (children_of ys)
  unfolding descendants_in
  descendants_in-append [] ys = refl
  descendants_in-append (x ∷ xs) ys =
      ap (λ z. if_tagged tag x ++ (descendants tag x ++ z)) (descendants_in-append xs ys)
      ∙ ap (λ z. if_tagged tag x ++ z)
          (sym (
            append_assoc (descendants tag x) (descendants_in tag (children_of xs))
              (descendants_in tag (children_of ys))))
      ∙ sym (
          append_assoc (if_tagged tag x) (descendants tag x ++ descendants_in tag (children_of xs))
            (descendants_in tag (children_of ys)))

module _ (tag : Text) {A : Type 0} (g : A → Element) where
  pub children_tagged-map :
      (xs : List A)
      → ((x : A) → text_eq (tag_of (g x)) tag ≡ true)
      → children_tagged tag (children_of (map g xs)) ≡ map g xs
  unfolding children_tagged
  children_tagged-map [] h = refl
  children_tagged-map (x ∷ xs) h = rw (h x, children_tagged-map xs h) refl

  pub children_tagged-other :
      (xs : List A)
      → ((x : A) → text_eq (tag_of (g x)) tag ≡ false)
      → children_tagged tag (children_of (map g xs)) ≡ []
  unfolding children_tagged
  children_tagged-other [] h = refl
  children_tagged-other (x ∷ xs) h = rw (h x) (children_tagged-other xs h)

  pub descendants_in-map :
      (xs : List A)
      → ((x : A) → text_eq (tag_of (g x)) tag ≡ true)
      → ((x : A) → descendants tag (g x) ≡ [])
      → descendants_in tag (children_of (map g xs)) ≡ map g xs
  unfolding descendants_in
  descendants_in-map [] h k = refl
  descendants_in-map (x ∷ xs) h k = rw (h x, k x, descendants_in-map xs h k) refl

  pub descendants_in-other :
      (xs : List A)
      → ((x : A) → text_eq (tag_of (g x)) tag ≡ false)
      → ((x : A) → descendants tag (g x) ≡ [])
      → descendants_in tag (children_of (map g xs)) ≡ []
  unfolding descendants_in
  descendants_in-other [] h k = refl
  descendants_in-other (x ∷ xs) h k = rw (h x, k x) (descendants_in-other xs h k)

pub parse_all-map :
    {A B C : Type 0} (f : B → Parsed C) (g : A → B) (h : A → C) (xs : List A)
    → ((x : A) → f (g x) ≡ parsed (h x))
    → parse_all f (map g xs) ≡ parsed (map h xs)
parse_all-map f g h [] e = refl
parse_all-map f g h (x ∷ xs) e = rw (e x, parse_all-map f g h xs e) refl

module _ {A : Type 0} (p : A → Bool) where
  pub select-append : (xs ys : List A) → select p (xs ++ ys) ≡ select p xs ++ select p ys
  select-append [] ys = refl
  select-append (x ∷ xs) ys = ground (arith, select-append xs ys)

  pub select-map :
      {B : Type 0} (g : B → A) (q : B → Bool) (xs : List B)
      → ((x : B) → p (g x) ≡ q x)
      → select p (map g xs) ≡ map g (select q xs)
  select-map g q [] h = refl
  select-map g q (x ∷ xs) h = elim (Bool-cases (q x)) [
    | inl e ↦ rw (h x, e, select-map g q xs h) refl
    | inr e ↦ rw (h x, e, select-map g q xs h) refl
  ]

  pub select-none :
      {B : Type 0} (g : B → A) (xs : List B)
      → ((x : B) → p (g x) ≡ false)
      → select p (map g xs) ≡ []
  select-none g [] h = refl
  select-none g (x ∷ xs) h = rw (h x) (select-none g xs h)
