-- ===== src/Rounds/Candidates.antt =====
-- The candidates that are persisted, and their rounds.
use academic_affairs_system.Common.{◌≡◌, ◌⊎◌, ◌∷◌, some, Elem}
use academic_affairs_system.Common.Text.{Text, DistinctIds}
use academic_affairs_system.Common.Dict.{lookup}
use academic_affairs_system.Rounds.{Round, Store, succeeded}
use academic_affairs_system.Rounds.Steps.{Steps}

-- No round has two candidates, and a round that has one has succeeded.
pub record IsConsistent (s : Store) : Type 0 where
  pub unique : DistinctIds s.candidates
  pub owned :
      (k : Text)
      → Elem k s.candidates
      → (r : Round) × (lookup k s.rounds ≡ some r) × (r.status ≡ succeeded)

-- Either no candidate is added, or one for the round, which has succeeded and had not before.
abbrev AddsFor : Text → Store → Store → Type 0
AddsFor id s t =
    (t.candidates ≡ s.candidates)
    ⊎ ((t.candidates ≡ id ∷ s.candidates)
        × (r : Round) × (lookup id t.rounds ≡ some r)
        × (r.status ≡ succeeded))
