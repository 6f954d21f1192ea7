-- ===== src/FrameRing.antt =====
-- `RawFrameRing` of frontend/cockpit/src/state/ringBuffer.ts: the bounded history of raw frames, in
-- parallel columns with 8 payload bytes a slot. A time is a natural number of µs; a start time below
-- zero is 0, which admits the same frames. A read that copies and one that returns a view of the
-- backing store give the same values until the next push, so `at` and `atView`, `window` and
-- `windowView`, `lastSeconds` and `lastSecondsView` are one function each.
pub mod Defs
pub mod Packed
pub mod Slots
pub mod History
pub mod Reading
mod Tests
