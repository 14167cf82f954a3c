-- ===== src/Lib.antt =====
-- A model of the academic affairs desktop application: its storage, the compilation of a project
-- into a scheduling problem, the two schedulers, the check of their solutions, and the rounds and
-- jobs in which they run, with the theorems that make them correct.
--
-- The sidecar keeps a school's rooms, classes and time slots in SQLite, compiles them into a
-- problem (an XML text), and asks one of two engines for a timetable: a greedy search with a
-- repair, or a constraint solver whose model is compiled from the same data and which starts from
-- the greedy result. Both rest on the same rules of what an action (a time and maybe a room for a
-- class) may do beside another.
--
-- Cgcs models sidecar/stt_desktop/scheduler_engine/cgcs.py. `Model` has its dataclasses as records
-- and the distribution types as constructors (any other string is `other`), `Times` and `Rules`
-- have `_overlaps` and `_violates` with their helpers, `Actions` has `_actions`, `Checks` has
-- `_is_feasible`, `_incremental_soft_penalty`, `_blocking_class_ids` and `_score`, `Greedy` has
-- `_agent_order_key` and the loop of `run_cgcs_greedy`, `Repair` has `_repair_failed_agents`,
-- `_best_feasible_action` and `_repair_by_relocating_one`, and `Run` puts them together. `IsSound`
-- speaks of the room rule and the required distributions: these are what `_is_feasible` looks at,
-- and the greedy search does not read the resource limits.
--
-- CpSat models sidecar/stt_desktop/scheduler_engine/cp_sat.py. `Candidates` has
-- `_create_candidates` with a Boolean variable known by its ordinal and the rows that the model
-- gets, `Conflicts` has `_compile_conflict_buckets` and the signatures, `Sources` has the sources
-- of a conflict, and `Compile` has `_compile_constraints`. `Solve` has the rows that the solver
-- gets and `_read_assignments`, `Limits` the resource limits, `Warm` the class elements of a
-- solution and `_greedy_assignments`, `Objective` the value of `_build_quality_objective`, and
-- `Run` has `run_cp_sat_v1`, where the solver is a parameter: a function from a model to an answer.
-- The model is what `satisfies_model` asks: the rows of the classes and the compiled conflicts,
-- which are `satisfies_compiled`, and the rows of the resource limits. The hypothesis on the solver
-- is `Respects`: values that come with the status OPTIMAL or FEASIBLE satisfy the model. A warm
-- start is `none` or the assignments read from an earlier solution, which the shortcut of
-- `run_cp_sat_v1` returns as they are; `WarmIsSound` is the hypothesis on it.
--
-- Rounds models the life of a scheduling round in sidecar/stt_desktop/scheduling/service.py
-- (`prepare_round`, `complete_round`, `record_event`, `mark_cancelled`, `mark_failed`,
-- `_finish_infeasible`, `recover_interrupted_rounds`) on a store of rounds and candidates; a call that raises leaves a
-- store as well. Jobs models the manager of sidecar/stt_desktop/scheduling/jobs.py, with
-- `cancel_round` in the two halves between which other work may run. `Rounds.Steps` and
-- `Jobs.Single` have the calls as step relations. Timetable models `validate_move` of
-- sidecar/stt_desktop/scheduling/timetable.py, where the check of the whole solution that the
-- service adds is a parameter.
--
-- Xml has the elements of ElementTree as a tree, with `findall`, the attributes, and `int` and
-- `str` of a number; `int` reads ASCII digits only; `Strings` has `strip` and `lower`.
-- `Cgcs.Parsing` has `parse_problem` of cgcs.py on it. Compilation models `_build_problem` of
-- sidecar/stt_desktop/scheduling/service.py: `Rows` has the rows that it reads, `Windows` has
-- `_slot_windows`, `Schedules` the choice of a bell schedule, `Options` the rules, preferences and
-- rooms of a lesson, `Classes` the element of a lesson with its times and rooms, `Constraints` has
-- `_distribution`, `_resource_limit` and `_compile_user_constraints`, `Nodes` the elements that are
-- written, and `Build` the whole. `Readback` states what the parser reads from such a document, and
-- `Builtin` what the built-in distributions mean to a scheduler, with `Builtin.Scheduled` for the
-- runs of both schedulers on a compiled project. Validation models `_validate_solution`, Readiness
-- `validate_current_project` of the same file.
--
-- Storage models sidecar/stt_desktop/storage/project.py. `Specs` has the table of entities,
-- `Values` the values of a row and their JSON fields, `Transactions` the bracket of BEGIN
-- IMMEDIATE, revision check, COMMIT and ROLLBACK with the manifest after it, `Batches` the bulk
-- insert, `Lessons` the lessons generated for a task. SQLite is a parameter, an `Engine` that
-- executes a statement on the rows or refuses it, and so are `json.loads`, the new ids and the
-- time. What fails on its own (a locked database, a transaction that cannot be committed, a
-- manifest file that cannot be written) is a `Faults` argument of a call. `Writes` and `Calls` have
-- the register with a revision that the calls implement, `Atomic` and `Settled` what a call leaves.
--
-- Common has what these share: strings as lists of code points, dicts as association lists in
-- insertion order, `sorted` as a stable insertion sort by a strict order, `setdefault(...).append`
-- as grouping. Examples has a problem of two classes, a round and a move, runs of them, and the
-- theorems applied to them.
--
-- Numbers are natural numbers: sidecar/stt_desktop/storage/schema.py keeps starts, penalties,
-- weights and period indices from being negative and lengths above zero. A Python dict that a
-- function changes is a value passed on; sets are lists without duplicates, and their order is not
-- relied on. `list.index` of a string that is not in the list, which raises in Python, is the
-- list's length; the code asks only for members. A dict read by a key that is missing, which
-- raises, keeps the state; the code reads keys it has.
--
-- Loops over lists are structural. The `while pending` loop of the repair has as fuel the number of
-- classes that failed: each round that does not end it places at least one. The `while remaining >
-- 0` loop that generates the lessons of a task has as fuel the number of weekly slots: each lesson
-- takes at least one, as the duration is at least one.
--
-- A document is its tree: what ElementTree prints, it reads back. The solution of a scheduler is
-- the list of its class elements with their attributes, and the validation reads an Xml element.
-- Ids are primary keys, so the first row with an id is the row that a dict by ids keeps. Times,
-- logs and counters of a run are left out, and so are the worker process and the files of a job,
-- whose outcomes are values that the operations take.
--
-- Not modelled: the solver itself, the explanations of unassigned classes, the artifact files,
-- snapshots and hashes of a round, the opening, locking and migration of a project, backups and
-- archives, and the HTTP interface, which are SQL, files and glue around these parts. The
-- spreadsheet import and export and the legacy import copy fields between cells and rows; what they
-- write goes through the bulk insert of Storage, which is modelled.
pub mod Common
pub mod Cgcs
pub mod Examples
pub mod CpSat
pub mod Rounds
pub mod Jobs
pub mod Timetable
pub mod Xml
pub mod Compilation
pub mod Validation
pub mod Readiness
pub mod Storage
