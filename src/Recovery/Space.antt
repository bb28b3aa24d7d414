-- ===== src/Recovery/Space.antt =====
-- QuicPacketSpace and the state of QuicPacketRecovery, over a congestion control algorithm, and how
-- packets are sent, discarded and lost (src/aioquic/quic/recovery.py). `sent_packets` is the list of
-- the values of the dictionary, in increasing order of packet number, which is the order they are
-- sent in. What an operation reports to the delivery handlers it returns, in order.
use aioquic.Base.{
  false, ℕ, suc, ◌+◌, ◌-◌, Bool, not, List, [], ◌∷◌, ◌++◌, Option, none, if◌then◌else◌, map,
}
use aioquic.Stream.{QuicDeliveryState, lost}
use aioquic.Congestion.{QuicSentPacket, QuicCongestionControl}
use aioquic.Recovery.Rtt.{Rtt}

pub record QuicPacketSpace : Type 0 where
  pub ack_at : Option ℕ
  pub discarded : Bool
  pub ack_eliciting_in_flight : ℕ
  pub largest_acked_packet : ℕ
  pub loss_time : Option ℕ
  pub sent_packets : List QuicSentPacket

abbrev pub new_space : QuicPacketSpace
new_space = record {
  ack_at = none;
  discarded = false;
  ack_eliciting_in_flight = 0;
  largest_acked_packet = 0;
  loss_time = none;
  sent_packets = [];
}

-- A call of a delivery handler.
abbrev pub Report : Type 0
Report = QuicDeliveryState × ℕ

abbrev pub reports : QuicDeliveryState → List ℕ → List Report
reports delivery handlers = map (λ handler. (delivery, handler)) handlers

-- `filter(lambda x: x.in_flight, ...)`
abbrev pub in_flight_only : List QuicSentPacket → List QuicSentPacket
in_flight_only [] = []
in_flight_only (p ∷ ps) = if p.in_flight then p ∷ in_flight_only ps else in_flight_only ps

-- The packets of a list that pass a test, and the others.
abbrev pub select : (QuicSentPacket → Bool) → List QuicSentPacket → List QuicSentPacket
select test [] = []
select test (p ∷ ps) = if test p then p ∷ select test ps else select test ps

abbrev pub ack_eliciting : List QuicSentPacket → ℕ
ack_eliciting [] = 0
ack_eliciting (p ∷ ps) = if p.is_ack_eliciting then suc (ack_eliciting ps) else ack_eliciting ps

abbrev pub all_lost : List QuicSentPacket → List Report
all_lost [] = []
all_lost (p ∷ ps) = reports lost p.delivery_handlers ++ all_lost ps

module _ (algorithm : QuicCongestionControl) where
  -- What the operations share.
  pub record QuicPacketRecovery : Type 0 where
    pub cc : algorithm.State
    pub pto_count : ℕ
    pub rtt : Rtt
    pub time_of_last_sent_ack_eliciting_packet : ℕ

  abbrev pub on_packet_sent :
      QuicPacketRecovery → QuicPacketSpace → QuicSentPacket → QuicPacketRecovery × QuicPacketSpace
  on_packet_sent r space packet = (
    if packet.in_flight
        then record r {
          cc = algorithm.on_packet_sent r.cc packet;
          time_of_last_sent_ack_eliciting_packet =
              if packet.is_ack_eliciting
              then packet.sent_time
              else r.time_of_last_sent_ack_eliciting_packet;
        }
        else r,
    record space {
      sent_packets = space.sent_packets ++ (packet ∷ []);
      ack_eliciting_in_flight =
          if packet.is_ack_eliciting
          then space.ack_eliciting_in_flight + 1
          else space.ack_eliciting_in_flight;
    },
  )

  abbrev pub discard_space :
      QuicPacketRecovery → QuicPacketSpace → QuicPacketRecovery × QuicPacketSpace
  discard_space r space = (
    record r {
      cc = algorithm.on_packets_expired r.cc (in_flight_only space.sent_packets);
      pto_count = 0;
    },
    record space {
      sent_packets = [];
      ack_at = none;
      ack_eliciting_in_flight = 0;
      loss_time = none;
    },
  )

  pub record Outcome : Type 0 where
    pub recovery : QuicPacketRecovery
    pub space : QuicPacketSpace
    pub reported : List Report

  -- `if lost_packets_cc: self._cc.on_packets_lost(...)`
  abbrev pub inform_lost : algorithm.State → ℕ → List QuicSentPacket → algorithm.State
  inform_lost cc now [] = cc
  inform_lost cc now (p ∷ ps) = algorithm.on_packets_lost cc now (p ∷ ps)

  -- `_on_packets_lost` of the packets of the space that pass a test.
  abbrev pub on_packets_lost :
      QuicPacketRecovery → QuicPacketSpace → ℕ → (QuicSentPacket → Bool) → Outcome
  on_packets_lost r space now test =
      let packets = select test space.sent_packets in
      record {
        recovery = record r { cc = inform_lost r.cc now (in_flight_only packets) };
        space = record space {
          sent_packets = select (λ p. not (test p)) space.sent_packets;
          ack_eliciting_in_flight = space.ack_eliciting_in_flight - ack_eliciting packets;
        };
        reported = all_lost packets;
      }
