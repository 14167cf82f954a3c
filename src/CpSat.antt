-- ===== src/CpSat.antt =====
-- The constraint solver's model, sidecar/stt_desktop/scheduler_engine/cp_sat.py.
pub mod Candidates
pub mod Sources
pub mod Conflicts
pub mod Compile
pub mod Solve
pub mod Limits
pub mod Warm
pub mod Run
pub mod Objective
