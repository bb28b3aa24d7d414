-- ===== src/Recovery.antt =====
-- Loss recovery: QuicPacketSpace and QuicPacketRecovery of src/aioquic/quic/recovery.py, over a
-- congestion control algorithm.
pub mod Rtt
pub mod Space
pub mod Acks
pub mod LossTimer
pub mod Accounts
pub mod Reports
pub mod Timers
pub mod Timeout
mod Examples
