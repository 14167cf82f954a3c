-- ===== src/Storage/Batches.antt =====
-- `save_teaching_task_bundle`, `bulk_insert_entities` and `list_entities_page` of
-- sidecar/stt_desktop/storage/project.py.
use academic_affairs_system.Common.{
  ℕ, zero, suc, Bool, true, false, not, ◌&&◌, List, [], ◌∷◌, ◌++◌, Option, none, some, length, leb,
  map,
}
use academic_affairs_system.Common.Text.{Text, text, contains}
use academic_affairs_system.Common.Dict.{lookup}
use academic_affairs_system.Compilation.Windows.{take}
use academic_affairs_system.Storage.Specs.{EntitySpec}
use academic_affairs_system.Storage.Values.{
  Row, Json, unknown_fields, missing_fields, nothing_to_save, not_saved, duplicate_id,
  bad_page_size, Result, ok, raised, ◌>>=◌, unknown_in, missing_in, known_values, merged,
  normalize_entity_values, text_of, integer_or,
}
use academic_affairs_system.Storage.Transactions.{
  Statement, delete_rows, Engine, Faults, Repository, Outcome, Body, and_then, run_statements,
  write,
}
use academic_affairs_system.Storage.{
  entity_spec, raise_for, raise_if, id_or_new, is_found, or_no_row, save_statement, weekly_lessons,
  lesson_statements, Prepared, add_counts, hours,
}

-- What the bundle is checked to be before it is written.
pub record Bundle : Type 0 where
  pub spec : EntitySpec
  pub values : Row
  pub exists : Bool
  pub weekly_slots : ℕ
  pub duration_slots : ℕ
  pub week_bits : Text
  pub day_bits : Text

abbrev pub has_values : Row → Bool
has_values [] = false
has_values (c ∷ cs) = true

module _ (e : Engine) (loads : Text → Json) where
  open e use {Db, find, execute}

  unfoldable pub bundle_values : Row → Text → Db → Result Bundle
  unfolding merged
  bundle_values payload id d = entity_spec (text "teaching_task") >>= λ spec.
      raise_for unknown_fields (unknown_in spec payload) >>= λ _.
      let existing = find spec.table id d in
      raise_for missing_fields (missing_in spec payload (is_found existing)) >>= λ _.
      let values = known_values spec payload in
      let effective = merged (or_no_row existing) values in
      hours (integer_or (lookup (text "weekly_slots") effective) 0)
        (integer_or (lookup (text "duration_slots") effective) 1)
      >>= λ h. ok (record {
        spec = spec;
        values = values;
        exists = is_found existing;
        weekly_slots = h.0;
        duration_slots = h.1;
        week_bits = text_of (lookup (text "week_bits") effective) (text "11111111111111111111");
        day_bits = text_of (lookup (text "day_bits") effective) (text "11111");
      })

  -- The task's row, and its lessons anew.
  abbrev pub bundle_statements : Bundle → Text → (ℕ → Text) → Text → List Statement
  bundle_statements b id new_id now =
      save_statement b.spec.table id b.values now b.exists
      ∷ delete_rows (text "task_lessons") (text "teaching_task_id") id
      ∷ lesson_statements new_id id b.week_bits b.day_bits now
          (weekly_lessons b.weekly_slots b.duration_slots)

  abbrev pub bundle_body : Bundle → Text → (ℕ → Text) → Text → Body e (Unit {0})
  bundle_body b id new_id now d =
      and_then e (raise_if (b.exists && not (has_values b.values)) nothing_to_save, d)
        (λ _. run_statements e (bundle_statements b id new_id now))

  abbrev pub task_or_raise : ℕ → Option Row → Result (Row × ℕ)
  task_or_raise n none = raised not_saved
  task_or_raise n (some row) = ok (row, n)

  -- The lessons that are read back are left out of the result.
  abbrev pub read_task : Text → Text → Outcome e (Unit {0} × ℕ) → Outcome e (Row × ℕ)
  read_task table id (raised x, r) = (raised x, r)
  read_task table id (ok (a, n), r) = (task_or_raise n (find table id r.db), r)

  abbrev pub bundle_checked :
      Faults → ℕ → Text → (ℕ → Text) → Text → Result Bundle → Repository e → Outcome e (Row × ℕ)
  bundle_checked faults expected id new_id now (raised x) r = (raised x, r)
  bundle_checked faults expected id new_id now (ok b) r =
      read_task b.spec.table id (write e faults expected (bundle_body b id new_id now) r)

  unfoldable pub save_teaching_task_bundle :
      Faults → Row → ℕ → Text → (ℕ → Text) → Text → Repository e → Outcome e (Row × ℕ)
  unfolding bundle_values write run_statements weekly_lessons lesson_statements
  save_teaching_task_bundle faults payload expected new new_id now r =
      let id = id_or_new payload new in
      bundle_checked faults expected id new_id now (bundle_values payload id r.db) r

  -- One payload of a bulk insert, with the ids seen before it. `new` is its `uuid7()`.
  abbrev pub prepare_one :
      Text → EntitySpec → Row × Text → List Text → Result (Prepared × List Text)
  prepare_one entity_type spec (payload, new) seen =
      raise_for unknown_fields (unknown_in spec payload) >>= λ _.
      raise_for missing_fields (missing_in spec payload false) >>= λ _.
      let id = id_or_new payload new in
      raise_if (contains id seen) (duplicate_id id) >>= λ _.
      normalize_entity_values loads entity_type (known_values spec payload) >>= λ values.
      ok (record { table = spec.table; id = id; values = values }, id ∷ seen)

  unfoldable pub prepare_type :
      Text → EntitySpec → List (Row × Text) → List Text → Result (List Prepared × List Text)
  unfolding normalize_entity_values
  prepare_type entity_type spec [] seen = ok ([], seen)
  prepare_type entity_type spec (p ∷ ps) seen = prepare_one entity_type spec p seen >>= λ first.
      prepare_type entity_type spec ps first.1 >>= λ rest. ok (first.0 ∷ rest.0, rest.1)

  unfoldable pub prepare_batches :
      List (Text × List (Row × Text)) → List Text → Result (List Prepared × List Text)
  unfolding prepare_type
  prepare_batches [] seen = ok ([], seen)
  prepare_batches ((entity_type, payloads) ∷ batches) seen = entity_spec entity_type >>= λ spec.
      prepare_type entity_type spec payloads seen >>= λ here.
      prepare_batches batches here.1 >>= λ rest. ok (here.0 ++ rest.0, rest.1)

  abbrev pub count_of : Text × List (Row × Text) → Text × ℕ
  count_of (entity_type, payloads) = (entity_type, length payloads)

  abbrev pub prepared_statements : Text → List Prepared → List Statement
  prepared_statements now = map (λ (p : Prepared). save_statement p.table p.id p.values now false)

  -- `after_insert`, where there is one: more statements of the caller, and counts.
  abbrev pub After : Type 0
  After = Body e (List (Text × ℕ))

  abbrev pub bulk_body : List (Text × ℕ) → List Prepared → Text → After → Body e (List (Text × ℕ))
  bulk_body counts prepared now after_insert d =
      and_then e (run_statements e (prepared_statements now prepared) d) (λ _ inserted.
        and_then e (after_insert inserted) (λ extra left. (add_counts extra counts, left)))

  abbrev pub bulk_checked :
      Faults
      → ℕ
      → List (Text × ℕ)
      → Text
      → After
      → Result (List Prepared × List Text)
      → Repository e
      → Outcome e (List (Text × ℕ) × ℕ)
  bulk_checked faults expected counts now after_insert (raised x) r = (raised x, r)
  bulk_checked faults expected counts now after_insert (ok (prepared, seen)) r =
      write e faults expected (bulk_body counts prepared now after_insert) r

  unfoldable pub bulk_insert_entities :
      Faults
      → List (Text × List (Row × Text))
      → ℕ
      → Text
      → After
      → Repository e
      → Outcome e (List (Text × ℕ) × ℕ)
  unfolding prepare_batches write run_statements
  bulk_insert_entities faults batches expected now after_insert r =
      bulk_checked faults expected (map count_of batches) now after_insert
        (prepare_batches batches []) r

abbrev pub drop {ℓ} : {A : Type ℓ} → ℕ → List A → List A
drop zero xs = xs
drop (suc n) [] = []
drop (suc n) (x ∷ xs) = drop n xs

-- `LIMIT` and `OFFSET` on the rows of a table.
abbrev pub page_of : ℕ → ℕ → List Row → List Row × ℕ
page_of limit offset rows = (take limit (drop offset rows), length rows)

-- The rows of a table in the order of its `order_by`; an offset below zero is not a natural number
-- and has no case here.
unfoldable pub list_entities_page :
    {Db : Type 0} → (EntitySpec → Db → List Row) → Text → ℕ → ℕ → Db → Result (List Row × ℕ)
list_entities_page rows entity_type limit offset d =
    raise_if (not (leb 1 limit && leb limit 500)) bad_page_size >>= λ _.
    entity_spec entity_type >>= λ spec. ok (page_of limit offset (rows spec d))
