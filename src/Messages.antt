-- ===== src/Messages.antt =====
-- The messages of an identifier: frontend/cockpit/src/protocol/messages.ts, which groups a history at
-- once, and frontend/cockpit/src/protocol/messageModel.ts, which keeps the groups as frames arrive.
pub mod Values
pub mod Rows
pub mod Model
pub mod Simulation
pub mod Appending
pub mod Whole
pub mod Agree
pub mod Late
pub mod Buckets
mod Tests
