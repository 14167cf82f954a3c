-- ===== src/Storage.antt =====
-- `ProjectRepository` of sidecar/stt_desktop/storage/project.py: its writes, each in one transaction that
-- is refused unless the caller knows the current revision. The time and the new ids are arguments.
pub mod Specs
pub mod Values
pub mod Transactions
pub mod Batches
pub mod Lessons
pub mod Writes
pub mod Calls
pub mod Atomic
pub mod Settled
use academic_affairs_system.Common.{
  ℕ, zero, suc, ◌+◌, ◌-◌, min, Bool, true, false, not, ◌&&◌, ◌||◌, List, [], ◌∷◌, ◌++◌, Option,
  none, some, map, select, length, leb, ltb, ◌==◌, if◌then◌else◌,
}
use academic_affairs_system.Common.Text.{Text, text, text_eq, contains, is_empty}
use academic_affairs_system.Common.Dict.{lookup, insert, has_key}
use academic_affairs_system.Xml.{decimal}
use academic_affairs_system.Storage.Specs.{EntitySpec, entity_specs}
use academic_affairs_system.Storage.Values.{
  Value, null, number, string, Row, Json, ProjectError, unknown_type, unknown_fields,
  missing_fields, nothing_to_save, not_saved, not_found, invalid_target, missing_target,
  unknown_target, bad_number, bad_hours, duplicate_id, duplicate_count, bad_page_size, Result, ok,
  raised, ◌>>=◌, unknown_in, missing_in, known_values, merged, normalize_entity_values, is_true,
  shown, text_of, text_or_empty, Integer, natural, below_zero, not_a_number, integer_or,
}
use academic_affairs_system.Storage.Transactions.{
  Statement, insert_row, update_row, delete_row, delete_rows, Engine, Faults, Repository, Outcome,
  Body, run_statements, write,
}

-- `_entity_spec`
abbrev pub spec_or_raise : Text → Option EntitySpec → Result EntitySpec
spec_or_raise entity_type none = raised (unknown_type entity_type)
spec_or_raise entity_type (some spec) = ok spec

abbrev pub entity_spec : Text → Result EntitySpec
entity_spec entity_type = spec_or_raise entity_type (lookup entity_type entity_specs)

-- An exception where a list of offenders is not empty, and where a test holds.
abbrev pub raise_for : (List Text → ProjectError) → List Text → Result (Unit {0})
raise_for error [] = ok tt
raise_for error (k ∷ ks) = raised (error (k ∷ ks))

abbrev pub raise_if : Bool → ProjectError → Result (Unit {0})
raise_if b error = if b then raised error else ok tt

-- `str(payload.get("id") or uuid7())`
abbrev pub id_or_new : Row → Text → Text
id_or_new payload new =
    let given = text_or_empty (lookup (text "id") payload) in if is_empty given then new else given

abbrev pub is_found : Option Row → Bool
is_found none = false
is_found (some r) = true

abbrev pub or_no_row : Option Row → Row
or_no_row none = []
or_no_row (some r) = r

abbrev pub target_tables : List (Text × Text)
target_tables =
    (text "homeroom", text "homerooms")
    ∷ (text "teacher", text "teachers")
    ∷ (text "subject", text "subjects")
    ∷ (text "room_type", text "room_types")
    ∷ (text "room", text "rooms")
    ∷ []

-- The row as it is inserted or updated.
abbrev pub save_statement : Text → Text → Row → Text → Bool → Statement
save_statement table id values now exists =
    if exists
    then update_row table id (values ++ (text "updated_at", string now) ∷ [])
    else insert_row table id (
        (text "id", string id) ∷ values
        ++ (text "created_at", string now) ∷ (text "updated_at", string now) ∷ [])

-- The weekly lessons: each takes the duration, the last what is left.
unfoldable pub generate_lessons : ℕ → ℕ → ℕ → ℕ → List (ℕ × ℕ)
generate_lessons zero duration remaining index = []
generate_lessons (suc fuel) duration remaining index =
    let later = generate_lessons fuel duration (remaining - min duration remaining) (index + 1) in
    if ltb 0 remaining then (index, min duration remaining) ∷ later else []

-- Each lesson takes at least one slot, so the slots are fuel enough.
unfoldable pub weekly_lessons : ℕ → ℕ → List (ℕ × ℕ)
unfolding generate_lessons
weekly_lessons weekly_slots duration_slots =
    generate_lessons weekly_slots duration_slots weekly_slots 0

abbrev pub lesson_row : Text → Text → Text → Text → ℕ → ℕ → Row
lesson_row task_id week_bits day_bits now index duration =
    (text "teaching_task_id", string task_id)
    ∷ (text "lesson_index", number index)
    ∷ (text "duration_slots", number duration)
    ∷ (text "source_id", string (text "generated:" ++ (task_id ++ (text ":" ++ decimal index))))
    ∷ (text "week_bits", string week_bits)
    ∷ (text "day_bits", string day_bits)
    ∷ (text "label", string (text "第" ++ (decimal (index + 1) ++ text "次课")))
    ∷ (text "enabled", number 1)
    ∷ (text "created_at", string now)
    ∷ (text "updated_at", string now)
    ∷ []

-- `uuid7()` for the lesson with an index.
unfoldable pub lesson_statements :
    (ℕ → Text) → Text → Text → Text → Text → List (ℕ × ℕ) → List Statement
unfolding decimal
lesson_statements new_id task_id week_bits day_bits now [] = []
lesson_statements new_id task_id week_bits day_bits now ((index, duration) ∷ rest) =
    insert_row (text "task_lessons") (new_id index)
      (lesson_row task_id week_bits day_bits now index duration)
    ∷ lesson_statements new_id task_id week_bits day_bits now rest

-- What a bulk insert has prepared.
pub record Prepared : Type 0 where
  pub table : Text
  pub id : Text
  pub values : Row

abbrev pub add_count : Text → ℕ → List (Text × ℕ) → Result (List (Text × ℕ))
add_count key n counts =
    if has_key key counts then raised (duplicate_count key) else ok (insert key n counts)

abbrev pub add_counts : List (Text × ℕ) → List (Text × ℕ) → Result (List (Text × ℕ))
add_counts [] counts = ok counts
add_counts ((key, n) ∷ rest) counts = add_count key n counts >>= λ c. add_counts rest c

-- Slots that are not natural, or lessons of no slots, are refused.
abbrev pub hours : Integer → Integer → Result (ℕ × ℕ)
hours not_a_number duration = raised bad_number
hours weekly not_a_number = raised bad_number
hours below_zero duration = raised bad_hours
hours (natural weekly) below_zero = raised bad_hours
hours (natural weekly) (natural duration) =
    if ltb 0 duration then ok (weekly, duration) else raised bad_hours

module _ (e : Engine) (loads : Text → Json) where
  open e use {Db, find, execute}

  -- `get_entity`
  abbrev pub get_entity : Text → Text → Db → Result (Option Row)
  get_entity entity_type id d = entity_spec entity_type >>= λ spec. ok (find spec.table id d)

  abbrev pub check_table : Option Text → Row → Db → Result (Unit {0})
  check_table none values d = raised invalid_target
  check_table (some table) values d =
      let id = text_or_empty (lookup (text "entity_id") values) in
      if is_empty id
      then raised missing_target
      else raise_if (not (is_found (find table id d))) unknown_target

  -- `_validate_timetable_template_assignment`
  abbrev pub check_target : Row → Db → Result (Unit {0})
  check_target values d =
      let kind = text_or_empty (lookup (text "entity_type") values) in
      if text_eq kind (text "all") then ok tt else check_table (lookup kind target_tables) values d

  abbrev pub clear_target : Row → Row → Row
  clear_target effective values =
      if text_eq (text_of (lookup (text "entity_type") effective) []) (text "all")
      then insert (text "entity_id") null values
      else values

  abbrev pub effective_values : Row → Row → Db → Result Row
  effective_values existing values d =
      let effective = merged existing values in
      check_target effective d >>= λ _. ok (clear_target effective values)

  abbrev pub final_values : Text → Row → Row → Db → Result Row
  final_values entity_type existing values d =
      if text_eq entity_type (text "timetable_template_assignment")
      then effective_values existing values d
      else ok values

  -- The checks of `save_entity` before it writes: the table and the values.
  unfoldable pub save_values : Text → Row → Text → Db → Result (EntitySpec × Row)
  unfolding normalize_entity_values merged
  save_values entity_type payload id d = entity_spec entity_type >>= λ spec.
      raise_for unknown_fields (unknown_in spec payload) >>= λ _.
      let existing = find spec.table id d in
      raise_for missing_fields (missing_in spec payload (is_found existing)) >>= λ _.
      raise_if
        (not
          (ltb 0 (length (select (λ (c : Text × Value). not (text_eq c.0 (text "id"))) payload))))
        nothing_to_save
      >>= λ _. normalize_entity_values loads entity_type (known_values spec payload) >>= λ values.
          final_values entity_type (or_no_row existing) values d >>= λ final. ok (spec, final)

  -- The one statement of `save_entity`.
  abbrev pub save_body : EntitySpec → Text → Row → Text → Bool → Body e (Unit {0})
  save_body spec id values now exists =
      run_statements e (save_statement spec.table id values now exists ∷ [])

  abbrev pub saved_or_raise : ℕ → Option Row → Result (Row × ℕ)
  saved_or_raise n none = raised not_saved
  saved_or_raise n (some row) = ok (row, n)

  abbrev pub read_back : Text → Text → Outcome e (Unit {0} × ℕ) → Outcome e (Row × ℕ)
  read_back table id (raised x, r) = (raised x, r)
  read_back table id (ok (a, n), r) = (saved_or_raise n (find table id r.db), r)

  abbrev pub save_checked :
      Faults → ℕ → Text → Text → Result (EntitySpec × Row) → Repository e → Outcome e (Row × ℕ)
  save_checked faults expected id now (raised x) r = (raised x, r)
  save_checked faults expected id now (ok (spec, values)) r = read_back spec.table id (
      write e faults expected (save_body spec id values now (is_found (find spec.table id r.db))) r)

  unfoldable pub save_entity :
      Faults → Text → Row → ℕ → Text → Text → Repository e → Outcome e (Row × ℕ)
  unfolding save_values write run_statements
  save_entity faults entity_type payload expected new now r =
      let id = id_or_new payload new in
      save_checked faults expected id now (save_values entity_type payload id r.db) r

  -- `cursor.rowcount != 1`
  abbrev pub only_one : Db → Option (Db × ℕ) → Result (Unit {0}) × Db
  only_one d none = (raised Values.statement_failed, d)
  only_one d (some (left, n)) = (raise_if (not (n == 1)) not_found, left)

  abbrev pub delete_body : EntitySpec → Text → Body e (Unit {0})
  delete_body spec id d = only_one d (execute (delete_row spec.table id) d)

  abbrev pub delete_with :
      Faults → ℕ → Text → Result EntitySpec → Repository e → Outcome e (Unit {0} × ℕ)
  delete_with faults expected id (raised x) r = (raised x, r)
  delete_with faults expected id (ok spec) r = write e faults expected (delete_body spec id) r

  unfoldable pub delete_entity : Faults → Text → Text → ℕ → Repository e → Outcome e (Unit {0} × ℕ)
  unfolding write
  delete_entity faults entity_type id expected r =
      delete_with faults expected id (entity_spec entity_type) r
