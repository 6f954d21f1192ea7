-- ===== src/Logbook.antt =====
-- How a candidate's values over the windows of a run are read: frontend/shared/analysis/logbook.ts.
pub mod Defs
pub mod Mode
pub mod Rates
mod Tests
