-- ===== src/Cgcs/Actions/Offers.antt =====
-- Which actions a class has.
use academic_affairs_system.Common.{
  ◌≡◌, refl, sym, subst, ◌↔◌, inl, inr, false, List, [], ◌∷◌, Elem, Elem-append, Elem-append_left,
  Elem-append_right, Bool-cases,
}
use academic_affairs_system.Common.Keys.{lt_on}
use academic_affairs_system.Common.Sort.{Elem-sort_by, sort_by_keeps}
use academic_affairs_system.Cgcs.Model.{TimeOption, RoomOption, ClassAgent, Action}
use academic_affairs_system.Cgcs.Actions.{
  is_unavailable, room_action, free_action, room_actions, all_room_actions, free_actions,
  action_key, unsorted_actions, actions,
}

-- What the class may do: one of its times in one of its rooms that is not closed then, or, if it
-- has no room options, one of its times in no room.
pub data Offers (agent : ClassAgent) (a : Action) : Type 0 where
  in_room :
      (room : RoomOption) (time : TimeOption)
      → Elem room agent.room_options
      → Elem time agent.time_options
      → is_unavailable room time ≡ false
      → a ≡ room_action agent room time
      → Offers agent a
  anywhere :
      (time : TimeOption)
      → agent.room_options ≡ []
      → Elem time agent.time_options
      → a ≡ free_action agent time
      → Offers agent a

-- The times of one room.
abbrev InRoom : ClassAgent → RoomOption → List TimeOption → Action → Type 0
InRoom agent room times a =
    (t : TimeOption) × Elem t times
    × (is_unavailable room t ≡ false)
    × (a ≡ room_action agent room t)

module _ (agent : ClassAgent) (room : RoomOption) (t : TimeOption) (ts : List TimeOption)
    (a : Action) where
  InRoom-later : InRoom agent room ts a → InRoom agent room (t ∷ ts) a
  InRoom-later (u, i, open_then, e) = (u, inr i, open_then, e)

  InRoom-first :
      (rest : List Action)
      → is_unavailable room t ≡ false
      → (Elem a rest → InRoom agent room ts a)
      → Elem a (room_action agent room t ∷ rest)
      → InRoom agent room (t ∷ ts) a
  InRoom-first rest e sound (inl here) = (t, inl refl, e, here)
  InRoom-first rest e sound (inr m) = InRoom-later (sound m)

room_actions_sound :
    (agent : ClassAgent) (room : RoomOption) (times : List TimeOption) (a : Action)
    → Elem a (room_actions agent room times)
    → InRoom agent room times a
unfolding room_actions
room_actions_sound agent room [] a m = absurd m
room_actions_sound agent room (t ∷ ts) a m = elim (Bool-cases (is_unavailable room t)) [
  | inl e ↦ InRoom-later agent room t ts a (room_actions_sound agent room ts a (rw e at m))
  | inr e ↦
      InRoom-first agent room t ts a (room_actions agent room ts) e
        (room_actions_sound agent room ts a) (rw e at m)
]

room_actions_complete :
    (agent : ClassAgent) (room : RoomOption) (times : List TimeOption) (t : TimeOption)
    → Elem t times
    → is_unavailable room t ≡ false
    → Elem (room_action agent room t) (room_actions agent room times)
unfolding room_actions
room_actions_complete agent room [] t m e = absurd m
room_actions_complete agent room (u ∷ us) t (inl here) e =
    subst (λ w. Elem (room_action agent room t) (room_actions agent room (w ∷ us))) here
      (rw e (inl refl))
room_actions_complete agent room (u ∷ us) t (inr m) e = elim (Bool-cases (is_unavailable room u)) [
  | inl closed ↦ rw closed (room_actions_complete agent room us t m e)
  | inr free ↦ rw free (inr (room_actions_complete agent room us t m e))
]

-- The rooms of a class.
abbrev InRooms : ClassAgent → List RoomOption → Action → Type 0
InRooms agent rooms a = (r : RoomOption) × Elem r rooms × InRoom agent r agent.time_options a

all_room_actions_sound :
    (agent : ClassAgent) (rooms : List RoomOption) (a : Action)
    → Elem a (all_room_actions agent rooms)
    → InRooms agent rooms a
unfolding all_room_actions
all_room_actions_sound agent [] a m = absurd m
all_room_actions_sound agent (r ∷ rs) a m =
    elim (Elem-append a (room_actions agent r agent.time_options) (all_room_actions agent rs) m) [
      | inl x ↦ (r, inl refl, room_actions_sound agent r agent.time_options a x)
      | inr x ↦ let (q, i, rest) = all_room_actions_sound agent rs a x in (q, inr i, rest)
    ]

all_room_actions_complete :
    (agent : ClassAgent) (rooms : List RoomOption) (r : RoomOption) (a : Action)
    → Elem r rooms
    → Elem a (room_actions agent r agent.time_options)
    → Elem a (all_room_actions agent rooms)
unfolding all_room_actions
all_room_actions_complete agent [] r a i m = absurd i
all_room_actions_complete agent (q ∷ qs) r a (inl here) m =
    Elem-append_left a (room_actions agent q agent.time_options) (all_room_actions agent qs)
      (subst (λ w. Elem a (room_actions agent w agent.time_options)) here m)
all_room_actions_complete agent (q ∷ qs) r a (inr i) m =
    Elem-append_right a (room_actions agent q agent.time_options) (all_room_actions agent qs)
      (all_room_actions_complete agent qs r a i m)

free_actions_sound :
    (agent : ClassAgent) (times : List TimeOption) (a : Action)
    → Elem a (free_actions agent times)
    → (t : TimeOption) × Elem t times × (a ≡ free_action agent t)
unfolding free_actions
free_actions_sound agent [] a m = absurd m
free_actions_sound agent (t ∷ ts) a (inl e) = (t, inl refl, e)
free_actions_sound agent (t ∷ ts) a (inr m) =
    let (u, i, e) = free_actions_sound agent ts a m in (u, inr i, e)

free_actions_complete :
    (agent : ClassAgent) (times : List TimeOption) (t : TimeOption)
    → Elem t times
    → Elem (free_action agent t) (free_actions agent times)
unfolding free_actions
free_actions_complete agent [] t m = absurd m
free_actions_complete agent (u ∷ us) t (inl e) = inl (rw e)
free_actions_complete agent (u ∷ us) t (inr m) = inr (free_actions_complete agent us t m)

unsorted_sound :
    (rooms : List RoomOption) (agent : ClassAgent) (a : Action)
    → agent.room_options ≡ rooms
    → Elem a (unsorted_actions rooms agent)
    → Offers agent a
unfolding unsorted_actions
unsorted_sound [] agent a e m =
    let (t, i, p) = free_actions_sound agent agent.time_options a m in anywhere t e i p
unsorted_sound (r ∷ rs) agent a e m =
    let (q, i, inside) = all_room_actions_sound agent (r ∷ rs) a m in
    let (t, j, open_then, p) = inside in in_room q t (subst (Elem q) (sym e) i) j open_then p

unsorted_complete_room :
    (rooms : List RoomOption) (agent : ClassAgent) (r : RoomOption) (t : TimeOption)
    → Elem r rooms
    → Elem t agent.time_options
    → is_unavailable r t ≡ false
    → Elem (room_action agent r t) (unsorted_actions rooms agent)
unfolding unsorted_actions
unsorted_complete_room [] agent r t i j e = absurd i
unsorted_complete_room (q ∷ qs) agent r t i j e =
    all_room_actions_complete agent (q ∷ qs) r _ i
      (room_actions_complete agent r agent.time_options t j e)

unsorted_complete_free :
    (rooms : List RoomOption) (agent : ClassAgent) (t : TimeOption)
    → rooms ≡ []
    → Elem t agent.time_options
    → Elem (free_action agent t) (unsorted_actions rooms agent)
unfolding unsorted_actions
unsorted_complete_free [] agent t e i = free_actions_complete agent agent.time_options t i
unsorted_complete_free (r ∷ rs) agent t e i = cc

actions_sound : (agent : ClassAgent) (a : Action) → Elem a (actions agent) → Offers agent a
unfolding actions
actions_sound agent a m =
    unsorted_sound agent.room_options agent a refl (Elem-sort_by (lt_on action_key) a _ m)

actions_complete : (agent : ClassAgent) (a : Action) → Offers agent a → Elem a (actions agent)
unfolding actions
actions_complete agent a (in_room r t i j e p) = sort_by_keeps (lt_on action_key) a _ (
    subst (λ w. Elem w (unsorted_actions agent.room_options agent)) (sym p)
      (unsorted_complete_room agent.room_options agent r t i j e))
actions_complete agent a (anywhere t e i p) = sort_by_keeps (lt_on action_key) a _ (
    subst (λ w. Elem w (unsorted_actions agent.room_options agent)) (sym p)
      (unsorted_complete_free agent.room_options agent t e i))

-- The actions of a class are exactly what it offers: each of its times in each of its rooms, save
-- where the room is closed at that time, or each of its times in no room if it has no room options.
pub actions_iff : (agent : ClassAgent) (a : Action) → Elem a (actions agent) ↔ Offers agent a
actions_iff agent a = (actions_sound agent a, actions_complete agent a)

pub Offers-class_id :
    (agent : ClassAgent) (a : Action) → Offers agent a → a.class_id ≡ agent.class_id
Offers-class_id agent a (in_room r t i j e p) = rw p
Offers-class_id agent a (anywhere t e i p) = rw p

pub actions-class_id :
    (agent : ClassAgent) (a : Action) → Elem a (actions agent) → a.class_id ≡ agent.class_id
actions-class_id agent a m = Offers-class_id agent a (actions_sound agent a m)
