-- ===== src/Examples/Storage.antt =====
-- A database in memory, two calls on it, and the theorems of the storage at them.
use academic_affairs_system.Common.{
  ℕ, ◌≡◌, ◌≢◌, refl, true, false, none, some, Option, List, [], ◌∷◌, ◌++◌, arith, if◌then◌else◌,
}
use academic_affairs_system.Common.Text.{Text, text}
use academic_affairs_system.Common.Dict.{lookup, insert, erase, has_key}
use academic_affairs_system.Storage.Values.{
  string, Row, Json, is_object, revision_conflict, statement_failed, ok, raised,
  normalize_entity_values, merged, shown,
}
use academic_affairs_system.Storage.Transactions.{
  Statement, insert_row, update_row, delete_row, delete_rows, Engine, Faults, Repository,
  run_statements, write,
}
use academic_affairs_system.Storage.{
  save_values, save_entity, delete_entity, generate_lessons, weekly_lessons,
}
use academic_affairs_system.Storage.Batches.{bulk_insert_entities, prepare_batches, prepare_type}
use academic_affairs_system.Storage.Lessons.{Fills, weekly_lessons-Fills}
use academic_affairs_system.Storage.Writes.{register_of}
use academic_affairs_system.Storage.Settled.{IsSettled, run-IsSettled}
use academic_affairs_system.Storage.Calls.{
  Call, save, bulk, delete, call, run, register_run, run-refines,
}
use academic_affairs_system.Storage.Atomic.{call-Spared, stale_call_changes_nothing}

abbrev Rows : Type 0
Rows = List (Text × Row)

abbrev updated : Text → Row → Rows → Option Row → Option (Rows × ℕ)
updated key values d none = some (d, 0)
updated key values d (some row) = some (insert key (row ++ values) d, 1)

abbrev execute_in : Statement → Rows → Option (Rows × ℕ)
execute_in (insert_row table id values) d =
    if has_key (table ++ id) d then none else some (insert (table ++ id) values d, 1)
execute_in (update_row table id values) d = updated (table ++ id) values d (lookup (table ++ id) d)
execute_in (delete_row table id) d =
    if has_key (table ++ id) d then some (erase (table ++ id) d, 1) else some (d, 0)
execute_in (delete_rows table column id) d = some (d, 0)

abbrev memory : Engine
memory = record { Db = Rows; find = λ table id d. lookup (table ++ id) d; execute = execute_in }

abbrev empty_object : Text → Json
empty_object t = is_object (text "{}")

abbrev sound : Faults
sound = record { locked = false; commit_fails = false; manifest_unwritable = false }

abbrev new_project : Repository memory
new_project = record { db = []; revision = 0; before = none; manifest_revision = 0 }

abbrev ada : Row
ada = (text "id", string (text "a")) ∷ (text "name", string (text "Ada")) ∷ []

abbrev add_ada : Call memory empty_object
add_ada = save sound (text "teacher") ada 0 (text "u") (text "now")

abbrev remove_ada : ℕ → Call memory empty_object
remove_ada expected = delete sound (text "teacher") (text "a") expected

-- The second call knows the revision that the first one made.
after_both : (run memory empty_object (add_ada ∷ remove_ada 1 ∷ []) new_project).revision ≡ 2
unfolding run save_entity delete_entity save_values normalize_entity_values merged run_statements
    write shown
after_both = refl

run-refines_example :
    register_of memory (run memory empty_object (add_ada ∷ remove_ada 1 ∷ []) new_project)
    ≡ register_run memory empty_object (add_ada ∷ remove_ada 1 ∷ []) ([], 0)
run-refines_example = run-refines memory empty_object (add_ada ∷ remove_ada 1 ∷ []) new_project

stale_removal :
    (call memory empty_object (remove_ada 5) new_project).0 ≡ raised (revision_conflict 5 0)
unfolding delete_entity write
stale_removal = refl

-- Two teachers in one insert: the first is written when the second, who is there, is refused.
abbrev ben : Row
ben = (text "id", string (text "b")) ∷ (text "name", string (text "Ben")) ∷ []

abbrev with_ada : Repository memory
with_ada = record {
  db = (text "teachersa", ada) ∷ [];
  revision = 1;
  before = none;
  manifest_revision = 1;
}

abbrev add_both : Call memory empty_object
add_both =
    bulk sound ((text "teacher", (ben, text "u") ∷ (ada, text "v") ∷ []) ∷ []) 1 (text "now")
      (λ d. (ok [], d))

second_refused : (call memory empty_object add_both with_ada).0 ≡ raised statement_failed
unfolding bulk_insert_entities prepare_batches prepare_type normalize_entity_values run_statements
    write shown
second_refused = refl

call-Spared_example : (call memory empty_object add_both with_ada).1 ≡ with_ada
call-Spared_example =
    call-Spared memory empty_object add_both with_ada statement_failed refl second_refused (λ q. cc)
      (λ q. cc)

ada_is_first : (call memory empty_object add_ada new_project).1.revision ≡ 1
unfolding save_entity save_values normalize_entity_values merged run_statements write shown
ada_is_first = refl

ada-moves : (call memory empty_object add_ada new_project).1.revision ≢ 0
ada-moves = omega (arith, ada_is_first)

stale_call_changes_nothing_example :
    let r = run memory empty_object [] (call memory empty_object add_ada new_project).1 in
    register_of memory (call memory empty_object (remove_ada 0) r).1 ≡ register_of memory r
stale_call_changes_nothing_example =
    stale_call_changes_nothing memory empty_object add_ada (remove_ada 0) [] new_project ada-moves
      refl

five_slots_by_two : weekly_lessons 5 2 ≡ (0, 2) ∷ (1, 2) ∷ (2, 1) ∷ []
unfolding weekly_lessons generate_lessons
five_slots_by_two = refl

weekly_lessons-Fills_example : Fills (weekly_lessons 5 2) 0 2 5
weekly_lessons-Fills_example = weekly_lessons-Fills 5 2 (omega arith)

-- The manifest cannot be written after the first call, and is written after the second.
abbrev unwritable : Faults
unwritable = record { locked = false; commit_fails = false; manifest_unwritable = true }

abbrev two_calls : List (Call memory empty_object)
two_calls = save unwritable (text "teacher") ada 0 (text "u") (text "now") ∷ remove_ada 1 ∷ []

run-IsSettled_example : IsSettled memory (run memory empty_object two_calls new_project)
run-IsSettled_example =
    run-IsSettled memory empty_object two_calls new_project
      (record { closed = refl; behind = omega arith })
