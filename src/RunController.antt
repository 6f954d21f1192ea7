-- ===== src/RunController.antt =====
-- createRunController of frontend/cockpit/src/logbook/runController.ts, which drives the engine of
-- RunEngine with interval timers and sounds. A reading of `performance.now()` is in µs, a phase index
-- of -1 is `none`, and a pending interval is what its callback needs. A sound is an entry of a list,
-- and a call of the analysis another.
pub mod Cues
pub mod View
pub mod Defs
pub mod Moves
pub mod Invariant
pub mod Operations
pub mod Reach
mod Tests
