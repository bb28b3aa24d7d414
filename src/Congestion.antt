-- ===== src/Congestion.antt =====
-- Congestion control: what src/aioquic/quic/congestion/base.py asks of an algorithm, the packets of
-- src/aioquic/quic/packet_builder.py, and the round trip monitor. Times are natural numbers of
-- microseconds, where the code has floating point seconds.
pub mod Reno
use aioquic.Base.{ℕ, ◌+◌, ◌-◌, ◌≡◌, Bool, List, [], ◌∷◌}

-- A delivery handler with its arguments is known by a number.
pub record QuicSentPacket : Type 0 where
  pub in_flight : Bool
  pub is_ack_eliciting : Bool
  pub is_crypto_packet : Bool
  pub packet_number : ℕ
  pub sent_time : ℕ
  pub sent_bytes : ℕ
  pub delivery_handlers : List ℕ

abbrev pub sum_bytes : List QuicSentPacket → ℕ
sum_bytes [] = 0
sum_bytes (p ∷ ps) = p.sent_bytes + sum_bytes ps

-- The operations that recovery calls, and what each does to the bytes in flight.
pub record QuicCongestionControl : Type 1 where
  pub State : Type 0
  pub bytes_in_flight : State → ℕ
  pub on_packet_acked : State → QuicSentPacket → State
  pub on_packet_sent : State → QuicSentPacket → State
  pub on_packets_expired : State → List QuicSentPacket → State
  pub on_packets_lost : State → ℕ → List QuicSentPacket → State
  pub on_rtt_measurement : State → ℕ → ℕ → State
  pub acked_bytes :
      (s : State) (p : QuicSentPacket)
      → bytes_in_flight (on_packet_acked s p) ≡ bytes_in_flight s - p.sent_bytes
  pub sent_more :
      (s : State) (p : QuicSentPacket)
      → bytes_in_flight (on_packet_sent s p) ≡ bytes_in_flight s + p.sent_bytes
  pub expired_bytes :
      (s : State) (ps : List QuicSentPacket)
      → bytes_in_flight (on_packets_expired s ps) ≡ bytes_in_flight s - sum_bytes ps
  pub lost_bytes :
      (s : State) (now : ℕ) (ps : List QuicSentPacket)
      → bytes_in_flight (on_packets_lost s now ps) ≡ bytes_in_flight s - sum_bytes ps
  pub measured_bytes :
      (s : State) (now rtt : ℕ) → bytes_in_flight (on_rtt_measurement s now rtt) ≡ bytes_in_flight s
