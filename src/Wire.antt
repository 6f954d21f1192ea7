-- ===== src/Wire.antt =====
-- The binary frame stream: frontend/shared/protocol.ts and its two other parsers,
-- frontend/cockpit/src/protocol/parseBatch.ts and frontend/copilot/src/protocol/parse.ts.
-- A buffer is the list of its bytes. A number of the source is a natural number: times are exact
-- while `base_t_us` plus an offset is at most 2^53, which a session reaches after 285 years.
pub mod View
mod Tests
pub mod Encode
pub mod Decode
pub mod Reads
pub mod Writes
pub mod Words
pub mod Total
pub mod Images
pub mod RoundTrip
pub mod Bounds
pub mod Agree
pub mod Exact
