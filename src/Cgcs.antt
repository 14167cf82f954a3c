-- ===== src/Cgcs.antt =====
-- The greedy scheduler, sidecar/stt_desktop/scheduler_engine/cgcs.py.
pub mod Model
pub mod Times
pub mod Rules
pub mod Actions
pub mod Checks
pub mod Greedy
pub mod Repair
pub mod Run
pub mod Parsing
