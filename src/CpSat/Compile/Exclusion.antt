-- ===== src/CpSat/Compile/Exclusion.antt =====
-- What it is for compiled constraints to exclude two candidates.
use academic_affairs_system.Common.{
  ℕ, ◌≤◌, ◌≡◌, ◌≢◌, sym, ap, subst, ◌∙◌, ◌⊎◌, inl, inr, true, List, [], ◌∷◌, map, length, arith,
  Elem, ltb,
}
use academic_affairs_system.Common.Text.{Text, text_eq_iff, set_add}
use academic_affairs_system.Common.Sort.{sort_by_keeps}
use academic_affairs_system.Cgcs.Checks.{add_ids}
use academic_affairs_system.CpSat.Candidates.{Candidate, ordinals}
use academic_affairs_system.CpSat.Conflicts.{
  Compiled, Signature, slot_of, day_of, week_of, start_of, signature_eq, candidate_pair,
  has_two_classes, group_of, Bucket,
}
use academic_affairs_system.CpSat.Compile.Grows.{set_add_keeps, set_add_self, Grows}

-- One hard group has both literals, or the two are a hard pair.
abbrev pub Excluded : Candidate → Candidate → Compiled → Type 0
Excluded l r s =
    ((g : List ℕ) × Elem g s.hard_groups × Elem l.ordinal g × Elem r.ordinal g)
    ⊎ Elem (candidate_pair l r) s.hard_pairs

pub Excluded-Grows :
    (l r : Candidate) (s t : Compiled) → Grows s t → Excluded l r s → Excluded l r t
Excluded-Grows l r s t h (inl (g, i, a, b)) = inl (g, h.groups g i, a, b)
Excluded-Grows l r s t h (inr i) = inr (h.pairs (candidate_pair l r) i)

pub candidate_pair_comm : (l r : Candidate) → candidate_pair l r ≡ candidate_pair r l
candidate_pair_comm l r = ground arith

pub Excluded-sym : (l r : Candidate) (s : Compiled) → Excluded l r s → Excluded r l s
Excluded-sym l r s (inl (g, i, a, b)) = inl (g, i, b, a)
Excluded-sym l r s (inr i) = inr (subst (λ p. Elem p s.hard_pairs) (candidate_pair_comm l r) i)

pub signature_eq_sound : (a b : Signature) → signature_eq a b ≡ true → a ≡ b
signature_eq_sound (slot_of w d s n) (slot_of w' d' s' n') h =
    ground (arith, text_eq_iff w w', text_eq_iff d d')
signature_eq_sound (day_of w d) (day_of w' d') h =
    ground (arith, text_eq_iff w w', text_eq_iff d d')
signature_eq_sound (week_of w) (week_of w') h = ground (arith, text_eq_iff w w')
signature_eq_sound (start_of w d s) (start_of w' d' s') h =
    ground (arith, text_eq_iff w w', text_eq_iff d d')
signature_eq_sound a b h = cc

add_ids_keeps : (x : Text) (ks ids : List Text) → Elem x ids → Elem x (add_ids ks ids)
unfolding add_ids
add_ids_keeps x [] ids m = m
add_ids_keeps x (k ∷ ks) ids m = add_ids_keeps x ks _ (set_add_keeps x k ids m)

add_ids_adds : (x : Text) (ks ids : List Text) → Elem x ks → Elem x (add_ids ks ids)
unfolding add_ids
add_ids_adds x [] ids m = absurd m
add_ids_adds x (k ∷ ks) ids (inl e) =
    add_ids_keeps x ks _ (subst (λ w. Elem x (set_add w ids)) e (set_add_self x ids))
add_ids_adds x (k ∷ ks) ids (inr m) = add_ids_adds x ks _ m

two_le_length : (a b : Text) (xs : List Text) → Elem a xs → Elem b xs → a ≢ b → 2 ≤ length xs
two_le_length a b [] i j n = absurd i
two_le_length a b (x ∷ []) (inl e) (inl f) n = absurd (n (e ∙ sym f))
two_le_length a b (x ∷ []) (inl e) (inr j) n = absurd j
two_le_length a b (x ∷ []) (inr i) j n = absurd i
two_le_length a b (x ∷ y ∷ xs) i j n = omega arith

Elem-map : {A B : Type 0} (f : A → B) (x : A) (xs : List A) → Elem x xs → Elem (f x) (map f xs)
Elem-map f x [] m = absurd m
Elem-map f x (y ∷ ys) (inl e) = inl (ap f e)
Elem-map f x (y ∷ ys) (inr m) = inr (Elem-map f x ys m)

pub has_two_classes-true :
    (l r : Candidate) (b : List Candidate)
    → Elem l b
    → Elem r b
    → l.class_id ≢ r.class_id
    → has_two_classes b ≡ true
has_two_classes-true l r b i j n = ground (
  arith,
  two_le_length l.class_id r.class_id (add_ids (map (λ (c : Candidate). c.class_id) b) [])
      (add_ids_adds l.class_id _ [] (Elem-map (λ (c : Candidate). c.class_id) l b i))
      (add_ids_adds r.class_id _ [] (Elem-map (λ (c : Candidate). c.class_id) r b j)) n,
)

pub Elem-group_of : (l : Candidate) (b : List Candidate) → Elem l b → Elem l.ordinal (group_of b)
Elem-group_of l b i =
    sort_by_keeps ltb l.ordinal (ordinals b) (Elem-map (λ (c : Candidate). c.ordinal) l b i)

-- Both stand in one bucket.
abbrev pub Together : Candidate → Candidate → List Bucket → Type 0
Together l r [] = ⊥
Together l r ((k, b) ∷ bs) = (Elem l b × Elem r b) ⊎ Together l r bs
