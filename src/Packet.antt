-- ===== src/Packet.antt =====
-- src/aioquic/quic/packet.py: packet numbers, headers and frames.
pub mod Number
pub mod Ack
pub mod Header
pub mod TransportParameters
pub mod Encoding
mod Examples
