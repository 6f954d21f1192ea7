-- ===== src/CopilotClient.antt =====
-- The reconnecting WebSocket client of the copilot (frontend/copilot/src/protocol/client.ts).
pub mod Defs
pub mod Events
pub mod Invariant
pub mod Steps
pub mod Histories
pub mod Reach
mod Tests
