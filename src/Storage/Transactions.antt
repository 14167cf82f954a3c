-- ===== src/Storage/Transactions.antt =====
-- `_begin_write`, `_commit_write`, the rollback and `_write_manifest_revision` of
-- sidecar/stt_desktop/storage/project.py. SQLite is a parameter: what it finds under an id, and what a
-- statement makes of the rows or that it raises, by a constraint of the schema or otherwise.
use academic_affairs_system.Common.{
  ℕ, ◌+◌, Bool, List, [], ◌∷◌, Option, none, some, ◌==◌, if◌then◌else◌,
}
use academic_affairs_system.Common.Text.{Text}
use academic_affairs_system.Storage.Values.{
  Row, busy, statement_failed, commit_failed, manifest_failed, revision_conflict, Result, ok,
  raised,
}

pub data Statement : Type 0 where
  insert_row update_row : (table id : Text) (values : Row) → Statement
  delete_row : (table id : Text) → Statement
  delete_rows : (table column id : Text) → Statement

-- The database; a statement says how many rows it touched.
pub record Engine : Type 1 where
  pub Db : Type 0
  pub find : (table id : Text) → Db → Option Row
  pub execute : Statement → Db → Option (Db × ℕ)

-- What may go wrong around a call: the database is locked, the transaction cannot be committed, the
-- manifest cannot be written.
pub record Faults : Type 0 where
  pub locked : Bool
  pub commit_fails : Bool
  pub manifest_unwritable : Bool

module _ (e : Engine) where
  open e use {Db, find, execute}

  pub record Repository : Type 0 where
    pub db : Db
    pub revision : ℕ
    -- The rows and the revision that a rollback restores, while a transaction is open.
    pub before : Option (Db × ℕ)
    pub manifest_revision : ℕ

  abbrev pub begin : Repository → Repository
  begin r = record r { before = some (r.db, r.revision) }

  abbrev pub restore : Option (Db × ℕ) → Repository → Repository
  restore none r = r
  restore (some (d, n)) r = record {
    db = d;
    revision = n;
    before = none;
    manifest_revision = r.manifest_revision;
  }

  abbrev pub rollback : Repository → Repository
  rollback r = restore r.before r

  abbrev pub commit_write : Repository → Repository
  commit_write r = record {
    db = r.db;
    revision = r.revision + 1;
    before = none;
    manifest_revision = r.manifest_revision;
  }

  abbrev pub with_manifest : Repository → Repository
  with_manifest r = record r { manifest_revision = r.revision }

  -- The result of a call, and the repository as it leaves it.
  abbrev pub Outcome : Type 0 → Type 0
  Outcome A = Result A × Repository

  -- Some statements on the rows, with a result or an exception, and the rows as they leave them.
  abbrev pub Body : Type 0 → Type 0
  Body A = Db → Result A × Db

  abbrev pub and_then : {A B : Type 0} → Result A × Db → (A → Db → Result B × Db) → Result B × Db
  and_then (ok a, d) f = f a d
  and_then (raised x, d) f = (raised x, d)

  module _ {A : Type 0} where
    -- After the commit: the manifest follows, or raises with the transaction done.
    abbrev pub publish : Faults → A → Repository → Outcome (A × ℕ)
    publish faults a r =
        if faults.manifest_unwritable
        then (raised manifest_failed, r)
        else (ok (a, r.revision), with_manifest r)

    abbrev pub close : Faults → Repository → Result A × Db → Outcome (A × ℕ)
    close faults r (raised x, d) = (raised x, rollback (record r { db = d }))
    close faults r (ok a, d) =
        if faults.commit_fails
        then (raised commit_failed, rollback (record r { db = d }))
        else publish faults a (commit_write (record r { db = d }))

    abbrev pub guarded : Faults → ℕ → Body A → Repository → Outcome (A × ℕ)
    guarded faults expected body r =
        if r.revision == expected
        then close faults r (body r.db)
        else (raised (revision_conflict expected r.revision), rollback r)

    -- A write, as every method does it.
    unfoldable pub write : Faults → ℕ → Body A → Repository → Outcome (A × ℕ)
    write faults expected body r =
        if faults.locked then (raised busy, r) else guarded faults expected body (begin r)

  -- The statements one after the other; one that fails leaves what those before it have written.
  unfoldable pub run_statements : List Statement → Body (Unit {0})
  run_statements [] d = (ok tt, d)
  run_statements (s ∷ rest) d = elim (execute s d) [
    | none ↦ (raised statement_failed, d)
    | some c ↦ run_statements rest c.0
  ]
