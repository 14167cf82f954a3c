-- ===== src/Examples.antt =====
-- Small inputs on which the theorems are applied and the functions evaluated.
pub mod Data
mod Greedy
mod CpSat
mod Solver
mod Jobs
mod Timetable
pub mod Compilation
mod Storage
mod Checks
mod Scheduled
