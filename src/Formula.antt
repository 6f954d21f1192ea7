-- ===== src/Formula.antt =====
-- The bridge from a signal's geometry to a formula over the bytes of a frame:
-- frontend/cockpit/src/protocol/formula.ts. The formula is a term, with the text that it is written
-- as; what expr-eval makes of that text is outside.
pub mod Defs
pub mod Runs
pub mod Value
pub mod Agree
mod Tests
