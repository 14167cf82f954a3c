-- ===== src/Storage/Atomic.antt =====
-- A call that raises leaves the repository as it was, and no update is lost.
use academic_affairs_system.Common.{
  ℕ, ◌≤◌, ◌≡◌, ◌≢◌, refl, sym, ap, ◌∙◌, subst, inl, inr, Bool, false, List, [], ◌∷◌, map, Option,
  none, some, arith, Bool-cases, ◌==◌,
}
use academic_affairs_system.Common.Text.{Text}
use academic_affairs_system.Storage.Specs.{EntitySpec}
use academic_affairs_system.Storage.Values.{
  Row, Json, ProjectError, not_saved, manifest_failed, Result, ok, raised,
}
use academic_affairs_system.Storage.Transactions.{Engine, Faults, Repository, Outcome, write}
use academic_affairs_system.Storage.{
  Prepared, entity_spec, id_or_new, is_found, save_values, save_body, saved_or_raise, read_back,
  save_checked, save_entity, delete_body, delete_with, delete_entity,
}
use academic_affairs_system.Storage.Batches.{
  Bundle, bundle_values, bundle_body, task_or_raise, read_task, bundle_checked,
  save_teaching_task_bundle, After, prepare_batches, bulk_body, bulk_checked, bulk_insert_entities,
  count_of,
}
use academic_affairs_system.Storage.Writes.{
  refuses, Register, register_of, taken, attempt, Kept, write-Kept,
}
use academic_affairs_system.Storage.Calls.{
  Call, save, bundle, bulk, delete, forget, call, run, faults_of, expected_of, change_asked,
  register_step, register_run, call-register, run-refines,
}

module _ (e : Engine) (loads : Text → Json) where
  open e use {Db, find, execute}

  -- An exception that comes before the commit leaves the repository.
  abbrev Spared : {A : Type 0} → Outcome e A → Repository e → Type 0
  Spared o r = (x : ProjectError) → o.0 ≡ raised x → x ≢ manifest_failed → x ≢ not_saved → o.1 ≡ r

  abbrev raised_in : (A : Type 0) → ProjectError → Result A
  raised_in A x = raised x

  raised_inj : {A : Type 0} (x y : ProjectError) → raised_in A x ≡ raised y → x ≡ y
  raised_inj x y q = cc

  saved_or_raise-raised :
      (n : ℕ) (o : Option Row) (x : ProjectError)
      → saved_or_raise e loads n o ≡ raised x
      → not_saved ≡ x
  saved_or_raise-raised n none x q = raised_inj not_saved x q
  saved_or_raise-raised n (some row) x q = cc

  task_or_raise-raised :
      (n : ℕ) (o : Option Row) (x : ProjectError)
      → task_or_raise e loads n o ≡ raised x
      → not_saved ≡ x
  task_or_raise-raised n none x q = raised_inj not_saved x q
  task_or_raise-raised n (some row) x q = cc

  module _ (faults : Faults) (expected : ℕ) where
    write-Spared :
        {A : Type 0} (o : Outcome e (A × ℕ)) (r : Repository e)
        → Kept e faults expected o r
        → Spared o r
    write-Spared (raised y, r') r k x q ne ns = k (λ z. ne (sym (raised_inj y x q) ∙ z))
    write-Spared (ok a, r') r k x q ne ns = cc

    read_back-Spared :
        (table id : Text) (o : Outcome e (Unit {0} × ℕ)) (r : Repository e)
        → Kept e faults expected o r
        → Spared (read_back e loads table id o) r
    read_back-Spared table id (raised y, r') r k x q ne ns =
        k (λ z. ne (sym (raised_inj y x q) ∙ z))
    read_back-Spared table id (ok (a, n), r') r k x q ne ns =
        absurd (ns (sym (saved_or_raise-raised n (find table id r'.db) x q)))

    read_task-Spared :
        (table id : Text) (o : Outcome e (Unit {0} × ℕ)) (r : Repository e)
        → Kept e faults expected o r
        → Spared (read_task e loads table id o) r
    read_task-Spared table id (raised y, r') r k x q ne ns =
        k (λ z. ne (sym (raised_inj y x q) ∙ z))
    read_task-Spared table id (ok (a, n), r') r k x q ne ns =
        absurd (ns (sym (task_or_raise-raised n (find table id r'.db) x q)))

    save-Spared :
        (id now : Text) (x : Result (EntitySpec × Row)) (r : Repository e)
        → r.before ≡ none
        → Spared (save_checked e loads faults expected id now x r) r
    save-Spared id now (raised y) r h = λ x q ne ns. refl
    save-Spared id now (ok (spec, values)) r h =
        let body = save_body e loads spec id values now (is_found (find spec.table id r.db)) in
        read_back-Spared spec.table id (write e faults expected body r) r
          (write-Kept e faults expected body r h)

    bundle-Spared :
        (id : Text) (new_id : ℕ → Text) (now : Text) (x : Result Bundle) (r : Repository e)
        → r.before ≡ none
        → Spared (bundle_checked e loads faults expected id new_id now x r) r
    bundle-Spared id new_id now (raised y) r h = λ x q ne ns. refl
    bundle-Spared id new_id now (ok b) r h =
        let body = bundle_body e loads b id new_id now in
        read_task-Spared b.spec.table id (write e faults expected body r) r
          (write-Kept e faults expected body r h)

    bulk-Spared :
        (counts : List (Text × ℕ)) (now : Text) (after_insert : After e loads)
        (x : Result (List Prepared × List Text)) (r : Repository e)
        → r.before ≡ none
        → Spared (bulk_checked e loads faults expected counts now after_insert x r) r
    bulk-Spared counts now after_insert (raised y) r h = λ x q ne ns. refl
    bulk-Spared counts now after_insert (ok (prepared, seen)) r h =
        let body = bulk_body e loads counts prepared now after_insert in
        write-Spared (write e faults expected body r) r (write-Kept e faults expected body r h)

    delete-Spared :
        (id : Text) (x : Result EntitySpec) (r : Repository e)
        → r.before ≡ none
        → Spared (delete_with e loads faults expected id x r) r
    delete-Spared id (raised y) r h = λ x q ne ns. refl
    delete-Spared id (ok spec) r h =
        let body = delete_body e loads spec id in
        write-Spared (write e faults expected body r) r (write-Kept e faults expected body r h)

  forget-Spared :
      {A : Type 0} (o : Outcome e A) (r : Repository e) → Spared o r → Spared (forget e loads o) r
  forget-Spared (ok a, r') r s x q ne ns = cc
  forget-Spared (raised y, r') r s x q ne ns =
      s y refl (λ z. ne (sym (raised_inj y x q) ∙ z)) (λ z. ns (sym (raised_inj y x q) ∙ z))

  -- If no transaction is open and a call raises, then the repository is as it was, its rows, its
  -- revision, its manifest and no transaction open, unless the exception is one of the two that come
  -- after the commit: the manifest cannot be written, or the saved row is not found.
  pub call-Spared :
      (c : Call e loads) (r : Repository e) (x : ProjectError)
      → r.before ≡ none
      → (call e loads c r).0 ≡ raised x
      → x ≢ manifest_failed
      → x ≢ not_saved
      → (call e loads c r).1 ≡ r
  unfolding save_entity save_teaching_task_bundle bulk_insert_entities delete_entity
  call-Spared (save faults entity_type payload expected new now) r x h q ne ns =
      let id = id_or_new payload new in
      forget-Spared (save_entity e loads faults entity_type payload expected new now r) r
        (save-Spared faults expected id now (save_values e loads entity_type payload id r.db) r h) x
        q ne ns
  call-Spared (bundle faults payload expected new new_id now) r x h q ne ns =
      let id = id_or_new payload new in
      forget-Spared (save_teaching_task_bundle e loads faults payload expected new new_id now r) r
        (bundle-Spared faults expected id new_id now (bundle_values e loads payload id r.db) r h) x
        q ne ns
  call-Spared (bulk faults batches expected now after_insert) r x h q ne ns =
      forget-Spared (bulk_insert_entities e loads faults batches expected now after_insert r) r
        (bulk-Spared faults expected (map (count_of e loads) batches) now after_insert
          (prepare_batches e loads batches []) r h)
        x q ne ns
  call-Spared (delete faults entity_type id expected) r x h q ne ns =
      forget-Spared (delete_entity e loads faults entity_type id expected r) r
        (delete-Spared faults expected id (entity_spec entity_type) r h) x q ne ns

  attempt-other :
      (refused : Bool) (expected : ℕ) (change : Db → Option Db) (s : Register e)
      → s.1 ≢ expected
      → attempt e refused expected change s ≡ s
  attempt-other refused expected change (d, n) ne = elim (Bool-cases refused) [
    | inl h ↦ rw h refl
    | inr h ↦ rw (h, differs) refl
  ]
    where
      differs : (n == expected) ≡ false
      differs = ground (arith, ne)

  taken-grows : (o : Option Db) (s : Register e) → s.1 ≤ (taken e o s).1
  taken-grows none (d, n) = omega arith
  taken-grows (some d') (d, n) = omega arith

  attempt-grows :
      (refused : Bool) (expected : ℕ) (change : Db → Option Db) (s : Register e)
      → s.1 ≤ (attempt e refused expected change s).1
  attempt-grows refused expected change (d, n) = elim (Bool-cases refused) [
    | inl h ↦ rw h (omega arith)
    | inr h ↦ elim (Bool-cases (n == expected)) [
      | inl q ↦ rw (h, q) (taken-grows (change d) (d, n))
      | inr q ↦ rw (h, q) (omega arith)
    ]
  ]

  run-grows : (cs : List (Call e loads)) (s : Register e) → s.1 ≤ (register_run e loads cs s).1
  unfolding register_run
  run-grows [] s = omega arith
  run-grows (c ∷ cs) s = omega (
    arith,
    attempt-grows (refuses (faults_of e loads c)) (expected_of e loads c) (change_asked e loads c)
        s,
    run-grows cs (register_step e loads c s),
  )

  -- Once a call has moved the revision, no later call that expects the same revision changes the rows
  -- or the revision, whatever calls come between: no update is lost.
  pub stale_call_changes_nothing :
      (c d : Call e loads) (cs : List (Call e loads)) (r : Repository e)
      → (call e loads c r).1.revision ≢ r.revision
      → expected_of e loads d ≡ expected_of e loads c
      → let r' = run e loads cs (call e loads c r).1 in
        register_of e (call e loads d r').1 ≡ register_of e r'
  stale_call_changes_nothing c d cs r moved same =
      let r' = run e loads cs (call e loads c r).1 in
      call-register e loads d r'
      ∙ attempt-other (refuses (faults_of e loads d)) (expected_of e loads d)
          (change_asked e loads d) (register_of e r') passed
    where
      after : Repository e
      after = (call e loads c r).1

      known : r.revision ≡ expected_of e loads c
      known = elim (Bool-cases (r.revision == expected_of e loads c)) [
        | inl q ↦ ground arith
        | inr q ↦ absurd (moved (ap (λ (s : Register e). s.1) (unmoved (ground arith))))
      ]
        where
          unmoved : r.revision ≢ expected_of e loads c → register_of e after ≡ register_of e r
          unmoved ne =
              call-register e loads c r
              ∙ attempt-other (refuses (faults_of e loads c)) (expected_of e loads c)
                  (change_asked e loads c) (register_of e r) ne

      grown : r.revision ≤ after.revision
      grown =
          subst (λ (s : Register e). r.revision ≤ s.1) (sym (call-register e loads c r))
            (attempt-grows (refuses (faults_of e loads c)) (expected_of e loads c)
              (change_asked e loads c) (register_of e r))

      later : after.revision ≤ (run e loads cs after).revision
      later =
          subst (λ (s : Register e). after.revision ≤ s.1) (sym (run-refines e loads cs after))
            (run-grows cs (register_of e after))

      passed : (run e loads cs after).revision ≢ expected_of e loads d
      passed = omega (arith, known, grown, later, moved, same)
