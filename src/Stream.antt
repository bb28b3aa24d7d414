-- ===== src/Stream.antt =====
-- src/aioquic/quic/stream.py: the receiving and the sending part of a QUIC stream. Byte strings
-- are lists of numbers; offsets and sizes are natural numbers, as frames carry them.
pub mod Receiver
pub mod Sender
use aioquic.Base.{ℕ, Bool, List, Option}

-- packet.py, the frames of a stream.
pub record QuicStreamFrame : Type 0 where
  pub bytes : List ℕ
  pub fin : Bool
  pub offset : ℕ

pub record QuicStopSendingFrame : Type 0 where
  pub error_code : Option ℕ
  pub stream_id : Option ℕ

pub record QuicResetStreamFrame : Type 0 where
  pub error_code : Option ℕ
  pub final_size : ℕ
  pub stream_id : Option ℕ

-- packet_builder.py
pub data QuicDeliveryState : Type 0 where
  acked lost : QuicDeliveryState
