-- ===== src/Signal.antt =====
-- Extraction of a signal's bits from a payload, in both byte orders: getBit, signalBitOrder,
-- extractRaw and decodeSignal of frontend/cockpit/src/protocol/decode.ts, and extractRaw of
-- frontend/copilot/src/protocol/decode.ts. A start bit is a natural number.
pub mod Defs
pub mod Exact
pub mod Agree
pub mod Signed
pub mod Reach
mod Tests
