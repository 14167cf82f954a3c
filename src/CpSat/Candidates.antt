-- ===== src/CpSat/Candidates.antt =====
-- `Candidate` and `_create_candidates` of sidecar/stt_desktop/scheduler_engine/cp_sat.py. A Boolean
-- variable of the solver is known by its number: the literal `x_n` by the ordinal n.
use academic_affairs_system.Common.{ℕ, ◌+◌, List, [], ◌∷◌, ◌++◌, length, map}
use academic_affairs_system.Common.Text.{Text}
use academic_affairs_system.Common.Dict.{insert}
use academic_affairs_system.Cgcs.Model.{ClassAgent, Action}
use academic_affairs_system.Cgcs.Actions.{actions}

pub record Candidate : Type 0 where
  pub ordinal : ℕ
  pub class_id : Text
  pub action_index : ℕ
  pub action : Action

-- The constraints that tie a class's literals to its variable `assigned_n`.
pub data Row : Type 0 where
  sum_is : (literals : List ℕ) (assigned : ℕ) → Row
  zero_is : (assigned : ℕ) → Row

pub record Created : Type 0 where
  pub candidates_by_class : List (Text × List Candidate)
  pub assigned_by_class : List (Text × ℕ)
  pub rows : List Row

-- `enumerate(_actions(agent))`, numbering the literals from `ordinal`.
unfoldable pub candidates_from : Text → ℕ → ℕ → List Action → List Candidate
candidates_from class_id ordinal action_index [] = []
candidates_from class_id ordinal action_index (a ∷ rest) =
    record { ordinal = ordinal; class_id = class_id; action_index = action_index; action = a }
    ∷ candidates_from class_id (ordinal + 1) (action_index + 1) rest

abbrev pub ordinals : List Candidate → List ℕ
ordinals = map (λ (c : Candidate). c.ordinal)

abbrev pub class_row : List Candidate → ℕ → Row
class_row [] assigned = zero_is assigned
class_row (c ∷ cs) assigned = sum_is (ordinals (c ∷ cs)) assigned

abbrev pub add_class : ClassAgent → List Candidate → Created → Created
add_class agent candidates s =
    let assigned = length s.rows in
    record {
      candidates_by_class = insert agent.class_id candidates s.candidates_by_class;
      assigned_by_class = insert agent.class_id assigned s.assigned_by_class;
      rows = s.rows ++ class_row candidates assigned ∷ [];
    }

unfoldable pub create_from : List ClassAgent → ℕ → Created → Created
unfolding candidates_from
create_from [] ordinal s = s
create_from (agent ∷ agents) ordinal s =
    create_from agents (ordinal + length (actions agent))
      (add_class agent (candidates_from agent.class_id ordinal 0 (actions agent)) s)

unfoldable pub create_candidates : List ClassAgent → Created
create_candidates agents =
    create_from agents 0 (record { candidates_by_class = []; assigned_by_class = []; rows = [] })
