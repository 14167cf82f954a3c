-- ===== src/Compilation.antt =====
-- The compilation of the rows of a project into the document of a problem.
pub mod Rows
pub mod Windows
pub mod Diagnostics
pub mod Schedules
pub mod Options
pub mod Nodes
pub mod Constraints
pub mod Build
pub mod Readback
pub mod Grouped
pub mod Builtin
pub mod Times
pub mod Shared
pub mod Classes
