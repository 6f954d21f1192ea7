-- ===== src/CockpitClient.antt =====
-- The WebSocket client of the cockpit (frontend/cockpit/src/protocol/client.ts).
pub mod Defs
pub mod Events
pub mod Invariant
pub mod Histories
pub mod Reach
mod Tests
