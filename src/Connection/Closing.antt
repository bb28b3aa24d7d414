-- ===== src/Connection/Closing.antt =====
-- The end of a connection (src/aioquic/quic/connection.py): how it is closed by either side or times
-- out, what is left of it afterwards, and CONNECTION_CLOSE frames.
pub mod Frame
pub mod State
pub mod Timer
pub mod System
pub mod Runs
pub mod Ends
pub mod Earliest
pub mod Restart
pub mod RoundTrip
mod Examples
