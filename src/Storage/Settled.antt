-- ===== src/Storage/Settled.antt =====
-- Between the calls of the repository: no open transaction, and a manifest that is not ahead.
use academic_affairs_system.Common.{
  ℕ, ◌≤◌, ◌≡◌, refl, sym, subst, inl, inr, List, [], ◌∷◌, map, none, arith, Bool-cases, ◌==◌,
}
use academic_affairs_system.Common.Text.{Text}
use academic_affairs_system.Storage.Specs.{EntitySpec}
use academic_affairs_system.Storage.Values.{Row, Json, Result, ok, raised}
use academic_affairs_system.Storage.Transactions.{
  Engine, Faults, Repository, Body, begin, write, close,
}
use academic_affairs_system.Storage.{
  entity_spec, id_or_new, is_found, save_values, save_body, save_checked, save_entity, delete_body,
  delete_with, delete_entity, Prepared,
}
use academic_affairs_system.Storage.Batches.{
  Bundle, bundle_values, bundle_body, bundle_checked, save_teaching_task_bundle, After,
  prepare_batches, bulk_body, bulk_checked, bulk_insert_entities, count_of,
}
use academic_affairs_system.Storage.Calls.{
  Call, save, bundle, bulk, delete, call, run, forget-repository, read_back-repository,
  read_task-repository,
}

module _ (e : Engine) where
  open e use {Db, find, execute}

  pub record IsSettled (r : Repository e) : Type 0 where
    pub closed : r.before ≡ none
    pub behind : r.manifest_revision ≤ r.revision

  module _ {A : Type 0} (faults : Faults) (expected : ℕ) where
    close-IsSettled :
        (x : Result A × Db) (r : Repository e)
        → IsSettled r
        → IsSettled (close e faults (begin e r) x).1
    close-IsSettled (raised x, d) r s = record { closed = refl; behind = s.behind }
    close-IsSettled (ok a, d) r s = elim (Bool-cases faults.commit_fails) [
      | inl c ↦ rw c (record { closed = refl; behind = s.behind })
      | inr c ↦ elim (Bool-cases faults.manifest_unwritable) [
        | inl h ↦ rw (c, h) (record { closed = refl; behind = omega (arith, s.behind) })
        | inr h ↦ rw (c, h) (record { closed = refl; behind = omega arith })
      ]
    ]

    pub write-IsSettled :
        (body : Body e A) (r : Repository e)
        → IsSettled r
        → IsSettled (write e faults expected body r).1
    unfolding write
    write-IsSettled body r s = elim (Bool-cases faults.locked) [
      | inl h ↦ rw h s
      | inr h ↦ elim (Bool-cases (r.revision == expected)) [
        | inl q ↦ rw (h, q) (close-IsSettled (body r.db) r s)
        | inr q ↦ rw (h, q) (record { closed = refl; behind = s.behind })
      ]
    ]

module _ (e : Engine) (loads : Text → Json) where
  open e use {Db, find, execute}

  save-IsSettled :
      (faults : Faults) (expected : ℕ) (id now : Text) (x : Result (EntitySpec × Row))
      (r : Repository e)
      → IsSettled e r
      → IsSettled e (save_checked e loads faults expected id now x r).1
  save-IsSettled faults expected id now (raised x) r s = s
  save-IsSettled faults expected id now (ok (spec, values)) r s =
      let body = save_body e loads spec id values now (is_found (find spec.table id r.db)) in
      subst (IsSettled e)
        (sym (read_back-repository e loads spec.table id (write e faults expected body r)))
        (write-IsSettled e faults expected body r s)

  bundle-IsSettled :
      (faults : Faults) (expected : ℕ) (id : Text) (new_id : ℕ → Text) (now : Text)
      (x : Result Bundle) (r : Repository e)
      → IsSettled e r
      → IsSettled e (bundle_checked e loads faults expected id new_id now x r).1
  bundle-IsSettled faults expected id new_id now (raised x) r s = s
  bundle-IsSettled faults expected id new_id now (ok b) r s =
      let body = bundle_body e loads b id new_id now in
      subst (IsSettled e)
        (sym (read_task-repository e loads b.spec.table id (write e faults expected body r)))
        (write-IsSettled e faults expected body r s)

  bulk-IsSettled :
      (faults : Faults) (expected : ℕ) (counts : List (Text × ℕ)) (now : Text)
      (after_insert : After e loads) (x : Result (List Prepared × List Text)) (r : Repository e)
      → IsSettled e r
      → IsSettled e (bulk_checked e loads faults expected counts now after_insert x r).1
  bulk-IsSettled faults expected counts now after_insert (raised x) r s = s
  bulk-IsSettled faults expected counts now after_insert (ok (prepared, seen)) r s =
      write-IsSettled e faults expected (bulk_body e loads counts prepared now after_insert) r s

  delete-IsSettled :
      (faults : Faults) (expected : ℕ) (id : Text) (x : Result EntitySpec) (r : Repository e)
      → IsSettled e r
      → IsSettled e (delete_with e loads faults expected id x r).1
  delete-IsSettled faults expected id (raised x) r s = s
  delete-IsSettled faults expected id (ok spec) r s =
      write-IsSettled e faults expected (delete_body e loads spec id) r s

  call-IsSettled :
      (c : Call e loads) (r : Repository e) → IsSettled e r → IsSettled e (call e loads c r).1
  unfolding save_entity save_teaching_task_bundle bulk_insert_entities delete_entity
  call-IsSettled (save faults entity_type payload expected new now) r s =
      let id = id_or_new payload new in
      subst (IsSettled e)
        (sym (
          forget-repository e loads
            (save_entity e loads faults entity_type payload expected new now r)))
        (save-IsSettled faults expected id now (save_values e loads entity_type payload id r.db) r
          s)
  call-IsSettled (bundle faults payload expected new new_id now) r s =
      let id = id_or_new payload new in
      subst (IsSettled e)
        (sym (
          forget-repository e loads
            (save_teaching_task_bundle e loads faults payload expected new new_id now r)))
        (bundle-IsSettled faults expected id new_id now (bundle_values e loads payload id r.db) r s)
  call-IsSettled (bulk faults batches expected now after_insert) r s =
      subst (IsSettled e)
        (sym (
          forget-repository e loads
            (bulk_insert_entities e loads faults batches expected now after_insert r)))
        (bulk-IsSettled faults expected (map (count_of e loads) batches) now after_insert
          (prepare_batches e loads batches []) r s)
  call-IsSettled (delete faults entity_type id expected) r s =
      subst (IsSettled e)
        (sym (forget-repository e loads (delete_entity e loads faults entity_type id expected r)))
        (delete-IsSettled faults expected id (entity_spec entity_type) r s)

  -- If no transaction is open and the revision of the manifest is not above that of the project, then
  -- both hold after any sequence of calls, whatever their results.
  pub run-IsSettled :
      (cs : List (Call e loads)) (r : Repository e) → IsSettled e r → IsSettled e (run e loads cs r)
  unfolding run
  run-IsSettled [] r s = s
  run-IsSettled (c ∷ cs) r s = run-IsSettled cs (call e loads c r).1 (call-IsSettled c r s)
