-- ===== src/Storage/Writes.antt =====
-- A write against a register of rows with a revision: it moves to the next revision, or leaves all as it
-- was.
use academic_affairs_system.Common.{
  ℕ, ◌+◌, ◌≡◌, ◌≢◌, refl, sym, inl, inr, Bool, ◌||◌, Option, none, some, Bool-cases, ◌==◌,
  if◌then◌else◌,
}
use academic_affairs_system.Storage.Values.{Result, ok, raised, manifest_failed}
use academic_affairs_system.Storage.Transactions.{
  Engine, Faults, Repository, Outcome, Body, begin, rollback, write, close,
}

-- No write is done with these.
abbrev pub refuses : Faults → Bool
refuses faults = faults.locked || faults.commit_fails

module _ (e : Engine) where
  open e use {Db, find, execute}

  -- The register: the rows and the revision.
  abbrev pub Register : Type 0
  Register = Db × ℕ

  abbrev pub register_of : Repository e → Register
  register_of r = (r.db, r.revision)

  -- A change of the rows by a caller who expects a revision.
  abbrev pub taken : Option Db → Register → Register
  taken none s = s
  taken (some d) (old, n) = (d, n + 1)

  abbrev pub attempt : Bool → ℕ → (Db → Option Db) → Register → Register
  attempt refused expected change (d, n) =
      if refused then (d, n) else if n == expected then taken (change d) (d, n) else (d, n)

  abbrev pub change_of : {A : Type 0} → Result A × Db → Option Db
  change_of (ok a, d) = some d
  change_of (raised x, d) = none

  restored :
      (d : Db) (r : Repository e) → r.before ≡ none → rollback e (record (begin e r) { db = d }) ≡ r
  restored d r h = λ i. record r { before = sym h i }

  module _ {A : Type 0} (faults : Faults) (expected : ℕ) where
    close-register :
        (x : Result A × Db) (r : Repository e)
        → register_of (close e faults (begin e r) x).1
          ≡ (if faults.commit_fails then register_of r else taken (change_of x) (register_of r))
    close-register (raised x, d) r = elim (Bool-cases faults.commit_fails) [
      | inl c ↦ rw c refl
      | inr c ↦ rw c refl
    ]
    close-register (ok a, d) r = elim (Bool-cases faults.commit_fails) [
      | inl c ↦ rw c refl
      | inr c ↦ elim (Bool-cases faults.manifest_unwritable) [
        | inl h ↦ rw (c, h) refl
        | inr h ↦ rw (c, h) refl
      ]
    ]

    pub write-register :
        (body : Body e A) (r : Repository e)
        → register_of (write e faults expected body r).1
          ≡ attempt (refuses faults) expected (λ d. change_of (body d)) (register_of r)
    unfolding write
    write-register body r = elim (Bool-cases faults.locked) [
      | inl h ↦ rw h refl
      | inr h ↦ elim (Bool-cases (r.revision == expected)) [
        | inl q ↦ rw (h, q) (close-register (body r.db) r)
        | inr q ↦ elim (Bool-cases faults.commit_fails) [
          | inl c ↦ rw (h, q, c) refl
          | inr c ↦ rw (h, q, c) refl
        ]
      ]
    ]

    -- What a write may be when it raises: the repository as it was, or done with the manifest behind.
    abbrev pub Kept : Outcome e (A × ℕ) → Repository e → Type 0
    Kept (raised x, r') r = (x ≢ manifest_failed) → r' ≡ r
    Kept (ok a, r') r = (r'.before ≡ none) × (r'.manifest_revision ≡ r'.revision)

    close-Kept :
        (x : Result A × Db) (r : Repository e)
        → r.before ≡ none
        → Kept (close e faults (begin e r) x) r
    close-Kept (raised x, d) r h = λ ne. restored d r h
    close-Kept (ok a, d) r h = elim (Bool-cases faults.commit_fails) [
      | inl c ↦ rw c (λ ne. restored d r h)
      | inr c ↦ elim (Bool-cases faults.manifest_unwritable) [
        | inl q ↦ rw (c, q) (λ ne. absurd (ne refl))
        | inr q ↦ rw (c, q) (refl, refl)
      ]
    ]

    pub write-Kept :
        (body : Body e A) (r : Repository e)
        → r.before ≡ none
        → Kept (write e faults expected body r) r
    unfolding write
    write-Kept body r h = elim (Bool-cases faults.locked) [
      | inl l ↦ rw l (λ ne. refl)
      | inr l ↦ elim (Bool-cases (r.revision == expected)) [
        | inl q ↦ rw (l, q) (close-Kept (body r.db) r h)
        | inr q ↦ rw (l, q) (λ ne. restored r.db r h)
      ]
    ]
