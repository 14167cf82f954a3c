-- ===== src/Storage/Calls.antt =====
-- The calls of the repository, in any order, against the register.
use academic_affairs_system.Common.{
  ℕ, ◌≡◌, refl, sym, ap, ◌∙◌, inl, inr, Bool, List, [], ◌∷◌, Option, none, Bool-cases, ◌==◌, map,
}
use academic_affairs_system.Common.Text.{Text}
use academic_affairs_system.Storage.Specs.{EntitySpec}
use academic_affairs_system.Storage.Values.{Row, Json, Result, ok, raised}
use academic_affairs_system.Storage.Transactions.{Engine, Faults, Repository, Outcome, write}
use academic_affairs_system.Storage.{
  Prepared, entity_spec, id_or_new, is_found, save_values, save_body, read_back, save_checked,
  save_entity, delete_body, delete_with, delete_entity,
}
use academic_affairs_system.Storage.Batches.{
  Bundle, bundle_values, bundle_body, read_task, bundle_checked, save_teaching_task_bundle, After,
  prepare_batches, bulk_body, bulk_checked, bulk_insert_entities, count_of,
}
use academic_affairs_system.Storage.Writes.{
  refuses, Register, register_of, attempt, change_of, write-register,
}

module _ (e : Engine) (loads : Text → Json) where
  open e use {Db, find, execute}

  pub data Call : Type 0 where
    save :
        (faults : Faults) (entity_type : Text) (payload : Row) (expected : ℕ) (new now : Text)
        → Call
    bundle :
        (faults : Faults) (payload : Row) (expected : ℕ) (new : Text) (new_id : ℕ → Text)
        (now : Text)
        → Call
    bulk :
        (faults : Faults) (batches : List (Text × List (Row × Text))) (expected : ℕ) (now : Text)
        (after_insert : After e loads)
        → Call
    delete : (faults : Faults) (entity_type id : Text) (expected : ℕ) → Call

  -- The result without its value.
  abbrev pub forget : {A : Type 0} → Outcome e A → Outcome e (Unit {0})
  forget (ok a, r) = (ok tt, r)
  forget (raised x, r) = (raised x, r)

  abbrev pub call : Call → Repository e → Outcome e (Unit {0})
  call (save faults entity_type payload expected new now) r =
      forget (save_entity e loads faults entity_type payload expected new now r)
  call (bundle faults payload expected new new_id now) r =
      forget (save_teaching_task_bundle e loads faults payload expected new new_id now r)
  call (bulk faults batches expected now after_insert) r =
      forget (bulk_insert_entities e loads faults batches expected now after_insert r)
  call (delete faults entity_type id expected) r =
      forget (delete_entity e loads faults entity_type id expected r)

  unfoldable pub run : List Call → Repository e → Repository e
  run [] r = r
  run (c ∷ cs) r = run cs (call c r).1

  abbrev pub faults_of : Call → Faults
  faults_of (save faults entity_type payload expected new now) = faults
  faults_of (bundle faults payload expected new new_id now) = faults
  faults_of (bulk faults batches expected now after_insert) = faults
  faults_of (delete faults entity_type id expected) = faults

  abbrev pub expected_of : Call → ℕ
  expected_of (save faults entity_type payload expected new now) = expected
  expected_of (bundle faults payload expected new new_id now) = expected
  expected_of (bulk faults batches expected now after_insert) = expected
  expected_of (delete faults entity_type id expected) = expected

  -- The change of the rows that a call asks for: none where its checks or its statements raise.
  abbrev save_change : Text → Text → Result (EntitySpec × Row) → Db → Option Db
  save_change id now (raised x) d = none
  save_change id now (ok (spec, values)) d =
      change_of e (save_body e loads spec id values now (is_found (find spec.table id d)) d)

  abbrev bundle_change : Text → (ℕ → Text) → Text → Result Bundle → Db → Option Db
  bundle_change id new_id now (raised x) d = none
  bundle_change id new_id now (ok b) d = change_of e (bundle_body e loads b id new_id now d)

  abbrev bulk_change :
      List (Text × ℕ) → Text → After e loads → Result (List Prepared × List Text) → Db → Option Db
  bulk_change counts now after_insert (raised x) d = none
  bulk_change counts now after_insert (ok (prepared, seen)) d =
      change_of e (bulk_body e loads counts prepared now after_insert d)

  abbrev delete_change : Text → Result EntitySpec → Db → Option Db
  delete_change id (raised x) d = none
  delete_change id (ok spec) d = change_of e (delete_body e loads spec id d)

  abbrev pub change_asked : Call → Db → Option Db
  change_asked (save faults entity_type payload expected new now) d =
      let id = id_or_new payload new in
      save_change id now (save_values e loads entity_type payload id d) d
  change_asked (bundle faults payload expected new new_id now) d =
      let id = id_or_new payload new in
      bundle_change id new_id now (bundle_values e loads payload id d) d
  change_asked (bulk faults batches expected now after_insert) d =
      bulk_change (map (count_of e loads) batches) now after_insert
        (prepare_batches e loads batches []) d
  change_asked (delete faults entity_type id expected) d =
      delete_change id (entity_spec entity_type) d

  -- The register moves by the change.
  abbrev pub register_step : Call → Register e → Register e
  register_step c = attempt e (refuses (faults_of c)) (expected_of c) (change_asked c)

  unfoldable pub register_run : List Call → Register e → Register e
  register_run [] s = s
  register_run (c ∷ cs) s = register_run cs (register_step c s)

  pub forget-repository : {A : Type 0} (o : Outcome e A) → (forget o).1 ≡ o.1
  forget-repository (ok a, r) = refl
  forget-repository (raised x, r) = refl

  pub read_back-repository :
      (table id : Text) (o : Outcome e (Unit {0} × ℕ)) → (read_back e loads table id o).1 ≡ o.1
  read_back-repository table id (ok (a, n), r) = refl
  read_back-repository table id (raised x, r) = refl

  pub read_task-repository :
      (table id : Text) (o : Outcome e (Unit {0} × ℕ)) → (read_task e loads table id o).1 ≡ o.1
  read_task-repository table id (ok (a, n), r) = refl
  read_task-repository table id (raised x, r) = refl

  attempt-nothing :
      (refused : Bool) (expected n : ℕ) (d : Db)
      → attempt e refused expected (λ d'. none) (d, n) ≡ (d, n)
  attempt-nothing refused expected n d = elim (Bool-cases refused) [
    | inl h ↦ rw h refl
    | inr h ↦ elim (Bool-cases (n == expected)) [ inl q ↦ rw (h, q) refl | inr q ↦ rw (h, q) refl ]
  ]

  save-register :
      (faults : Faults) (expected : ℕ) (id now : Text) (x : Result (EntitySpec × Row))
      (r : Repository e)
      → register_of e (save_checked e loads faults expected id now x r).1
        ≡ attempt e (refuses faults) expected (λ d. save_change id now x r.db) (register_of e r)
  save-register faults expected id now (raised x) r =
      sym (attempt-nothing (refuses faults) expected r.revision r.db)
  save-register faults expected id now (ok (spec, values)) r =
      ap (register_of e) (
        read_back-repository spec.table id (
          write e faults expected
            (save_body e loads spec id values now (is_found (find spec.table id r.db))) r))
      ∙ write-register e faults expected
          (save_body e loads spec id values now (is_found (find spec.table id r.db))) r

  bundle-register :
      (faults : Faults) (expected : ℕ) (id : Text) (new_id : ℕ → Text) (now : Text)
      (x : Result Bundle) (r : Repository e)
      → register_of e (bundle_checked e loads faults expected id new_id now x r).1
        ≡ attempt e
            (refuses faults)
            expected
            (λ d. bundle_change id new_id now x r.db)
            (register_of e r)
  bundle-register faults expected id new_id now (raised x) r =
      sym (attempt-nothing (refuses faults) expected r.revision r.db)
  bundle-register faults expected id new_id now (ok b) r =
      ap (register_of e) (
        read_task-repository b.spec.table id
          (write e faults expected (bundle_body e loads b id new_id now) r))
      ∙ write-register e faults expected (bundle_body e loads b id new_id now) r

  bulk-register :
      (faults : Faults) (expected : ℕ) (counts : List (Text × ℕ)) (now : Text)
      (after_insert : After e loads) (x : Result (List Prepared × List Text)) (r : Repository e)
      → register_of e (bulk_checked e loads faults expected counts now after_insert x r).1
        ≡ attempt e
            (refuses faults)
            expected
            (λ d. bulk_change counts now after_insert x r.db)
            (register_of e r)
  bulk-register faults expected counts now after_insert (raised x) r =
      sym (attempt-nothing (refuses faults) expected r.revision r.db)
  bulk-register faults expected counts now after_insert (ok (prepared, seen)) r =
      write-register e faults expected (bulk_body e loads counts prepared now after_insert) r

  delete-register :
      (faults : Faults) (expected : ℕ) (id : Text) (x : Result EntitySpec) (r : Repository e)
      → register_of e (delete_with e loads faults expected id x r).1
        ≡ attempt e (refuses faults) expected (λ d. delete_change id x r.db) (register_of e r)
  delete-register faults expected id (raised x) r =
      sym (attempt-nothing (refuses faults) expected r.revision r.db)
  delete-register faults expected id (ok spec) r =
      write-register e faults expected (delete_body e loads spec id) r

  pub call-register :
      (c : Call) (r : Repository e) → register_of e (call c r).1 ≡ register_step c (register_of e r)
  unfolding save_entity save_teaching_task_bundle bulk_insert_entities delete_entity
  call-register (save faults entity_type payload expected new now) r =
      let id = id_or_new payload new in
      ap (register_of e)
        (forget-repository (save_entity e loads faults entity_type payload expected new now r))
      ∙ save-register faults expected id now (save_values e loads entity_type payload id r.db) r
  call-register (bundle faults payload expected new new_id now) r =
      let id = id_or_new payload new in
      ap (register_of e) (
        forget-repository
          (save_teaching_task_bundle e loads faults payload expected new new_id now r))
      ∙ bundle-register faults expected id new_id now (bundle_values e loads payload id r.db) r
  call-register (bulk faults batches expected now after_insert) r =
      ap (register_of e) (
        forget-repository (bulk_insert_entities e loads faults batches expected now after_insert r))
      ∙ bulk-register faults expected (map (count_of e loads) batches) now after_insert
          (prepare_batches e loads batches []) r
  call-register (delete faults entity_type id expected) r =
      ap (register_of e)
        (forget-repository (delete_entity e loads faults entity_type id expected r))
      ∙ delete-register faults expected id (entity_spec entity_type) r

  -- Any sequence of calls leaves the rows and the revision that the register has after the same calls:
  -- a call whose caller expects the current revision, whose checks pass and whose statements and
  -- commit the database takes, moves to the next revision, and every other call changes nothing.
  pub run-refines :
      (cs : List Call) (r : Repository e)
      → register_of e (run cs r) ≡ register_run cs (register_of e r)
  unfolding run register_run
  run-refines [] r = refl
  run-refines (c ∷ cs) r = run-refines cs (call c r).1 ∙ ap (register_run cs) (call-register c r)
