-- ===== src/Connection/Streams.antt =====
-- The streams of a connection and the limits on them (src/aioquic/quic/connection.py,
-- src/aioquic/quic/stream.py).
pub mod State
pub mod Opening
pub mod Unblocking
pub mod Limits
pub mod Steps
pub mod Runs
mod Examples
