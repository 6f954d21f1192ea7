-- ===== src/Analysis.antt =====
-- The counting analyses over a window of frames, under frontend/shared/analysis: the packed form of
-- packed.ts, the byte histograms of byte-histogram.ts and the bit activity of bit-activity.ts.
pub mod Packing
pub mod Packs
pub mod Groups
pub mod Histogram
pub mod Held
pub mod Agree
pub mod Counts
pub mod Activity
pub mod ActivityAgree
pub mod Moves
mod Tests
