-- ===== src/Diagnostic.antt =====
-- frontend/shared/diagnostic.ts: the standard diagnostic layer over CAN, that is addressing, the
-- ISO-TP header of a frame, the service payload, and the reassembly of multi-frame messages.
-- A frame is the list of its data bytes; an array element that is missing reads as 0 (`?? 0`).
pub mod IsoTp
pub mod Services
pub mod Reassembly
pub mod Headers
pub mod Transfer
pub mod Sending
pub mod Loss
pub mod Decoding
mod Tests
