-- ===== src/Congestion/Reno/Examples.antt =====
-- Runs of RenoCongestionControl, and its theorems at concrete values.
use aioquic.Base.{ℕ, ◌≡◌, refl, arith, true, false, [], ◌∷◌, none}
use aioquic.Congestion.{QuicSentPacket}
use aioquic.Congestion.Reno.{
  init, on_packet_acked, on_packet_sent, on_packets_expired, on_packets_lost, on_rtt_measurement,
}
use aioquic.Congestion.Reno.Window.{IsWindowed, reno-IsWindowed}

abbrev packet : ℕ → ℕ → QuicSentPacket
packet number time = record {
  in_flight = true;
  is_ack_eliciting = true;
  is_crypto_packet = false;
  packet_number = number;
  sent_time = time;
  sent_bytes = 1000;
  delivery_handlers = [];
}

-- One packet is sent and acknowledged in slow start.
slow_start :
    (on_packet_acked (on_packet_sent (init 1280) (packet 0 5)) (packet 0 5)).congestion_window
    ≡ 13800
slow_start = refl

loss : (on_packets_lost (init 1280) 20 (packet 0 5 ∷ [])).congestion_window ≡ 6400
loss = refl

reno-IsWindowed_example :
    ((init 1280).congestion_window ≡ 12800)
    × ((init 1280).ssthresh ≡ none)
    × IsWindowed (init 1280)
    × IsWindowed (on_packet_acked (init 1280) (packet 0 5))
    × IsWindowed (on_packet_sent (init 1280) (packet 0 5))
    × IsWindowed (on_packets_expired (init 1280) (packet 0 5 ∷ []))
    × IsWindowed (on_packets_lost (init 1280) 20 (packet 0 5 ∷ []))
    × IsWindowed (on_rtt_measurement (init 1280) 20 15)
reno-IsWindowed_example =
    reno-IsWindowed (init 1280) (packet 0 5) (packet 0 5 ∷ []) 20 15 1280
      (record { minimum = omega arith; threshold = tt })
