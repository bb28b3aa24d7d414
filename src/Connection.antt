-- ===== src/Connection.antt =====
-- src/aioquic/quic/connection.py: the frames that a connection reads and writes.
pub mod Closing
pub mod FlowControl
pub mod HostCids
pub mod PeerCids
pub mod Streams
pub mod StreamFrame
