-- ===== src/Recovery/Examples.antt =====
-- A run of QuicPacketRecovery over Reno, and the theorems at it: five packets are sent, the last is
-- acknowledged, two are lost, and the others wait for the timer.
use aioquic.Base.{ℕ, ◌+◌, ◌≡◌, inl, inr, refl, arith, true, false, [], ◌∷◌, none}
use aioquic.RangeSet.{RangeSet, range, contains}
use aioquic.Stream.{acked, lost}
use aioquic.Congestion.{QuicSentPacket}
use aioquic.Congestion.Reno.{init}
use aioquic.Congestion.Reno.Window.{reno}
use aioquic.Recovery.Rtt.{Rtt, loss_delay, update_rtt}
use aioquic.Recovery.Space.{
  QuicPacketSpace, QuicPacketRecovery, on_packet_sent, discard_space, on_packets_lost, new_space,
}
use aioquic.Recovery.Acks.{detect_loss, ack_ranges}
use aioquic.Recovery.Accounts.{IsAccounted, recovery-IsAccounted}
use aioquic.Recovery.Reports.{calls, waiting, ack_ranges-calls}
use aioquic.Recovery.Timers.{SetBy, detect_loss-timer}

abbrev packet : ℕ → QuicSentPacket
packet number = record {
  in_flight = true;
  is_ack_eliciting = true;
  is_crypto_packet = true;
  packet_number = number;
  sent_time = 1000 + number;
  sent_bytes = 100;
  delivery_handlers = number ∷ [];
}

abbrev rtt : Rtt
rtt = record {
  initial = 8000;
  initialized = false;
  latest = 0;
  minimum = none;
  smoothed = 0;
  variance = 0;
}

abbrev recovery : QuicPacketRecovery reno
recovery = record {
  cc = record (init 1280) { bytes_in_flight = 500 };
  pto_count = 0;
  rtt = rtt;
  time_of_last_sent_ack_eliciting_packet = 1004;
}

abbrev space : QuicPacketSpace
space = record new_space {
  ack_eliciting_in_flight = 5;
  sent_packets = packet 0 ∷ packet 1 ∷ packet 2 ∷ packet 3 ∷ packet 4 ∷ [];
}

abbrev accounted : IsAccounted reno 0 recovery space
accounted = record { bytes = refl; eliciting = refl }

abbrev newest : RangeSet
newest = range 4 5 ∷ []

reported :
    (ack_ranges reno recovery space newest 0 2004 4).reported
    ≡ (acked, 4) ∷ (lost, 0) ∷ (lost, 1) ∷ []
unfolding contains loss_delay update_rtt
reported = refl

recovery-IsAccounted_example :
    IsAccounted reno 0
      (on_packet_sent reno recovery space (packet 5)).0
      (on_packet_sent reno recovery space (packet 5)).1
    × IsAccounted reno 0
        (ack_ranges reno recovery space newest 0 2004 4).recovery
        (ack_ranges reno recovery space newest 0 2004 4).space
    × IsAccounted reno 0
        (on_packets_lost reno recovery space 2004 (λ p. true)).recovery
        (on_packets_lost reno recovery space 2004 (λ p. true)).space
    × IsAccounted reno 0
        (detect_loss reno recovery space 2004).recovery
        (detect_loss reno recovery space 2004).space
    × IsAccounted reno 0 (discard_space reno recovery space).0 (discard_space reno recovery space).1
recovery-IsAccounted_example =
    recovery-IsAccounted reno 0 recovery space (packet 5) newest 0 2004 4 (λ p. true) accounted

ack_ranges-calls_example :
    calls (ack_ranges reno recovery space newest 0 2004 4).reported 1
      + waiting (ack_ranges reno recovery space newest 0 2004 4).space.sent_packets 1
    ≡ 1
ack_ranges-calls_example = ack_ranges-calls reno recovery space newest 0 2004 4 1

-- The space with packet 4 acknowledged.
abbrev later : QuicPacketSpace
later = record space { largest_acked_packet = 4 }

detect_loss-timer_example :
    SetBy (detect_loss reno recovery later 2004).space.loss_time 2004 (1002 + loss_delay rtt)
unfolding loss_delay
detect_loss-timer_example =
    detect_loss-timer reno recovery later 2004 (packet 2) (inr (inr (inl refl))) (omega arith, refl)
