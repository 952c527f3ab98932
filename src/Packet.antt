-- ===== src/Packet.antt =====
-- The header of an ALC packet: as `send_unit` (alclib/alc_tx.c) writes it and as `parse_packet`
-- (alclib/alc_rx.c) reads it.
pub mod Status
pub mod Header
pub mod Address
pub mod Send
pub mod Extension
pub mod PayloadId
pub mod Parse
pub mod Analyze
mod Tests
