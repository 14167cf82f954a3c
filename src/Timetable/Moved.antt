-- ===== src/Timetable/Moved.antt =====
-- A move without conflicts keeps the room rule and the required distributions.
use academic_affairs_system.Common.{
  ◌≡◌, ◌≢◌, refl, sym, subst, ap, ◌∙◌, inl, inr, Bool, true, false, List, [], ◌∷◌, ◌++◌, Option,
  none, some, Elem, any, Bool-cases, Option-cases,
}
use academic_affairs_system.Common.Text.{Text, text_eq, text_eq_iff, option_text_eq}
use academic_affairs_system.Common.Dict.{lookup, insert, lookup-insert}
use academic_affairs_system.Cgcs.Model.{ClassAgent, Action, Distribution, Assignments, Problem}
use academic_affairs_system.Cgcs.Actions.{actions}
use academic_affairs_system.Cgcs.Actions.Offers.{actions-class_id}
use academic_affairs_system.Cgcs.Repair.{agents_by_id}
use academic_affairs_system.Cgcs.Run.Correct.{agents_by_id-IsIndex}
use academic_affairs_system.Cgcs.Checks.Hard.{Compatible, Compatible-sym, HardValid}
use academic_affairs_system.Timetable.{
  Conflict, Entry, Request, Board, MoveResult, refused, not_offered, option_not_allowed, MoveError,
  checked, first_where, is_entry, is_requested, place_found, place_agent, place_entry,
  place_entries, move_to, move_agent, has_entries, validate_move, other_conflicts,
}
use academic_affairs_system.Timetable.Conflicts.{append-nil, other_conflicts-nil}

-- What the board holds: every lesson's action is its own, and the moved lesson's is the requested.
abbrev IsBoard : Text → Action → Assignments → Type 0
IsBoard id c m =
    (k : Text) (a : Action) → lookup k m ≡ some a → (a.class_id ≡ k) × (text_eq k id ≡ true → a ≡ c)

insert-IsBoard :
    (id : Text) (c : Action) (k : Text) (a : Action) (m : Assignments)
    → a.class_id ≡ k
    → (text_eq k id ≡ true → a ≡ c)
    → IsBoard id c m
    → IsBoard id c (insert k a m)
insert-IsBoard id c k a m p h v j b e = elim (Bool-cases (text_eq k j)) [
  | inl same ↦
      new ((text_eq_iff k j).0 same) (some_same (sym (lookup-insert k j a m ∙ rw same refl) ∙ e))
  | inr apart ↦ v j b (sym (lookup-insert k j a m ∙ rw apart refl) ∙ e)
]
  where
    some_same : some a ≡ some b → a ≡ b
    some_same q = cc

    new : k ≡ j → a ≡ b → (b.class_id ≡ j) × (text_eq j id ≡ true → b ≡ c)
    new kj ab =
        subst (λ w. (w.class_id ≡ j) × (text_eq j id ≡ true → w ≡ c)) ab
          (p ∙ kj, λ t. h (subst (λ w. text_eq w id ≡ true) (sym kj) t))

first_where-Elem :
    (p : Action → Bool) (xs : List Action) (a : Action) → first_where p xs ≡ some a → Elem a xs
unfolding first_where
first_where-Elem p [] a e = cc
first_where-Elem p (x ∷ xs) a e = elim (Bool-cases (p x)) [
  | inl h ↦ inl (same (rw h at e))
  | inr h ↦ inr (first_where-Elem p xs a (rw h at e))
]
  where
    same : some x ≡ some a → a ≡ x
    same q = cc

module _ (p : Problem) (id : Text) (c : Action) (own : c.class_id ≡ id) where
  place_agent-IsBoard :
      (e : Entry) (lesson_id : Text) (b : Board)
      → IsBoard id c b.assignments
      → IsBoard id c
          (place_agent id c e lesson_id (lookup lesson_id (agents_by_id p.agents [])) b).assignments
  place_agent-IsBoard e lesson_id b v =
      elim (Option-cases (lookup lesson_id (agents_by_id p.agents []))) [
        | inl missing ↦ rw (missing, place_agent) v
        | inr (g, found) ↦ elim (Bool-cases (text_eq lesson_id id)) [
          | inl moved ↦
              rw (found, place_agent, moved)
                (insert-IsBoard id c lesson_id c b.assignments
                  (own ∙ sym ((text_eq_iff lesson_id id).0 moved)) (λ t. refl) v)
          | inr stays ↦
              rw (found, place_agent, stays)
                (placed g
                  (agents_by_id-IsIndex p.agents p.agents [] (λ x x-in. x-in) (λ l h l-in. cc)
                    lesson_id g found).1
                  stays (first_where (is_entry e) (actions g)) refl)
        ]
      ]
    where
      true-not-false : true ≢ false
      true-not-false q = cc

      placed :
          (g : ClassAgent)
          → g.class_id ≡ lesson_id
          → text_eq lesson_id id ≡ false
          → (o : Option Action) → first_where (is_entry e) (actions g) ≡ o
          → IsBoard id c (place_found lesson_id o b).assignments
      placed g named stays none f = v
      placed g named stays (some a) f =
          insert-IsBoard id c lesson_id a b.assignments
            (actions-class_id g a (first_where-Elem (is_entry e) (actions g) a f) ∙ named)
            (λ t. absurd (true-not-false (sym t ∙ stays))) v

  place_entry-IsBoard :
      (e : Entry) (lesson_id : Option Text) (b : Board)
      → IsBoard id c b.assignments
      → IsBoard id c (place_entry (agents_by_id p.agents []) id c e lesson_id b).assignments
  place_entry-IsBoard e none b v = v
  place_entry-IsBoard e (some lesson_id) b v = place_agent-IsBoard e lesson_id b v

  place_entries-IsBoard :
      (es : List Entry) (b : Board)
      → IsBoard id c b.assignments
      → IsBoard id c (place_entries (agents_by_id p.agents []) id c es b).assignments
  unfolding place_entries
  place_entries-IsBoard [] b v = v
  place_entries-IsBoard (e ∷ es) b v =
      place_entries-IsBoard es (place_entry (agents_by_id p.agents []) id c e e.lesson_id b)
        (place_entry-IsBoard e e.lesson_id b v)

-- Any two lessons that stay are compatible.
abbrev pub StayCompatible : Text → List Distribution → Assignments → Type 0
StayCompatible id ds m =
    (k j : Text) (a b : Action)
    → k ≢ j
    → text_eq k id ≡ false
    → text_eq j id ≡ false
    → lookup k m ≡ some a
    → lookup j m ≡ some b
    → Compatible ds a b

board-HardValid :
    (id : Text) (c : Action) (ds : List Distribution) (m : Assignments)
    → c.class_id ≡ id
    → IsBoard id c m
    → other_conflicts id c ds m ≡ []
    → StayCompatible id ds m
    → HardValid ds m
board-HardValid id c ds m own v free stay = record {
  keyed = λ k a e. (v k a e).0;
  apart = λ k j a b ne e f. elim (Bool-cases (text_eq k id)) [
    | inl ki ↦
        subst (λ w. Compatible ds w b) (sym ((v k a e).1 ki))
          (other_conflicts-nil id c ds m j b free f (distinct k j ki ne) own (v j b f).0)
    | inr kn ↦ elim (Bool-cases (text_eq j id)) [
      | inl ji ↦
          subst (λ w. Compatible ds a w) (sym ((v j b f).1 ji))
            (Compatible-sym ds c a (other_conflicts-nil id c ds m k a free e kn own (v k a e).0))
      | inr jn ↦ stay k j a b ne kn jn e f
    ]
  ];
}
  where
    distinct : (k j : Text) → text_eq k id ≡ true → k ≢ j → text_eq j id ≡ false
    distinct k j ki ne = elim (Bool-cases (text_eq j id)) [
      | inl ji ↦ absurd (ne ((text_eq_iff k id).0 ki ∙ sym ((text_eq_iff j id).0 ji)))
      | inr jn ↦ jn
    ]

move_to-HardValid :
    (validate : Assignments → List Conflict) (p : Problem) (entries : List Entry) (id : Text)
    (o : Option Action) (m : Assignments)
    → ((c : Action) → o ≡ some c → c.class_id ≡ id)
    → move_to validate p entries id o ≡ checked [] m
    → StayCompatible id p.distributions m
    → HardValid p.distributions m × (validate m ≡ [])
move_to-HardValid validate p entries id none m own e stay = absurd (not-checked e)
  where
    not-checked : not_offered (option_not_allowed ∷ []) ≢ checked [] m
    not-checked q = cc
move_to-HardValid validate p entries id (some c) m own e stay =
    subst (λ w. HardValid p.distributions w × (validate w ≡ [])) (placed e)
      (
        board-HardValid id c p.distributions board (own c refl)
            (place_entries-IsBoard p id c (own c refl) entries
              (record { conflicts = []; assignments = [] }) (λ k a n. cc))
            none_found.0 (subst (StayCompatible id p.distributions) (sym (placed e)) stay),
        none_found.1,
      )
  where
    board : Assignments
    board =
        (place_entries (agents_by_id p.agents []) id c entries
          (record { conflicts = []; assignments = [] })).assignments

    conflicts_of : MoveResult → List Conflict
    conflicts_of (refused x) = []
    conflicts_of (not_offered cs) = cs
    conflicts_of (checked cs n) = cs

    assignments_of : MoveResult → Assignments
    assignments_of (refused x) = []
    assignments_of (not_offered cs) = []
    assignments_of (checked cs n) = n

    placed : move_to validate p entries id (some c) ≡ checked [] m → board ≡ m
    placed q = ap assignments_of q

    free :
        move_to validate p entries id (some c) ≡ checked [] m
        → ((place_entries
              (agents_by_id p.agents [])
              id
              c
              entries
              (record { conflicts = []; assignments = [] })).conflicts
            ++ (other_conflicts id c p.distributions board ++ validate board))
          ≡ []
    free q = ap conflicts_of q

    none_found : (other_conflicts id c p.distributions board ≡ []) × (validate board ≡ [])
    none_found =
        append-nil (other_conflicts id c p.distributions board) (validate board)
          (append-nil
            (place_entries (agents_by_id p.agents []) id c entries
              (record { conflicts = []; assignments = [] })).conflicts
            (other_conflicts id c p.distributions board ++ validate board) (free e)).1

-- If a move is answered without a conflict, and any two of the lessons that stay respect the room rule
-- and the required distributions between them, then all the assignments with the moved lesson do,
-- and the check of the whole solution finds no hard issue in them.
pub validate_move-HardValid :
    (validate : Assignments → List Conflict) (p : Problem) (entries : List Entry) (r : Request)
    (m : Assignments)
    → validate_move validate p entries r ≡ checked [] m
    → StayCompatible r.lesson_id p.distributions m
    → HardValid p.distributions m × (validate m ≡ [])
unfolding validate_move
validate_move-HardValid validate p entries r m e stay = elim (Bool-cases (has_entries entries)) [
  | inr nothing ↦ absurd (not-refused (rw nothing at e))
  | inl some_entries ↦
      elim (Bool-cases
        (any (λ (x : Entry). option_text_eq x.lesson_id (some r.lesson_id)) entries)) [
          | inr missing ↦ absurd (not-refused (rw (some_entries, missing) at e))
          | inl listed ↦ elim (Option-cases (lookup r.lesson_id (agents_by_id p.agents []))) [
            | inl absent ↦ absurd (not-refused (rw (some_entries, listed, absent, move_agent) at e))
            | inr (g, found) ↦
                move_to-HardValid validate p entries r.lesson_id
                  (first_where (is_requested r) (actions g)) m
                  (λ c f.
                    actions-class_id g c (first_where-Elem (is_requested r) (actions g) c f)
                    ∙ (agents_by_id-IsIndex p.agents p.agents [] (λ x x-in. x-in) (λ l h l-in. cc)
                        r.lesson_id g found).1)
                  (rw (some_entries, listed, found, move_agent) at e) stay
          ]
        ]
]
  where
    not-refused : {x : MoveError} → refused x ≢ checked [] m
    not-refused q = cc
