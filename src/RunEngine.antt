-- ===== src/RunEngine.antt =====
-- The storyboard executor of the logbook: createRunEngine of
-- frontend/cockpit/src/logbook/runEngine.ts, over the phases of scenarioPhases in
-- frontend/cockpit/src/protocol/datamodel.ts. A duration is in µs, as the engine computes it from the
-- seconds of a step; a phase index of -1 is `none`.
pub mod Defs
pub mod Windows
pub mod Ticks
pub mod Calls
pub mod Runs
pub mod CatchUp
mod Tests
