-- ===== src/Recovery/Acks.antt =====
-- `on_ack_received` and `_detect_loss` of QuicPacketRecovery (src/aioquic/quic/recovery.py).
use aioquic.Base.{
  ℕ, ◌+◌, ◌-◌, Bool, false, not, ◌&&◌, ◌||◌, List, [], ◌∷◌, ◌++◌, Option, none, some, ltb, leb,
  ◌==◌, if◌then◌else◌,
}
use aioquic.Base.Exception.{Result, ok, ◌>>=◌}
use aioquic.RangeSet.{RangeSet, contains, bounds}
use aioquic.Stream.{acked}
use aioquic.Congestion.{QuicSentPacket, QuicCongestionControl}
use aioquic.Recovery.Rtt.{update_rtt, loss_delay}
use aioquic.Recovery.Space.{
  QuicPacketSpace, Report, reports, QuicPacketRecovery, Outcome, on_packets_lost,
}

-- The condition of `_detect_loss`, with the `break`: `packet_threshold` is three packets, and a
-- difference that may be negative is moved to the other side.
abbrev pub is_lost : QuicPacketSpace → ℕ → ℕ → QuicSentPacket → Bool
is_lost space now delay p =
    leb p.packet_number space.largest_acked_packet
    && (leb (p.packet_number + 3) space.largest_acked_packet || leb (p.sent_time + delay) now)

abbrev pub earlier : Option ℕ → ℕ → ℕ
earlier none time = time
earlier (some loss_time) time = if ltb time loss_time then time else loss_time

-- `space.loss_time` after the loop.
abbrev pub next_loss_time : QuicPacketSpace → ℕ → ℕ → List QuicSentPacket → Option ℕ → Option ℕ
next_loss_time space now delay [] loss_time = loss_time
next_loss_time space now delay (p ∷ ps) loss_time = next_loss_time space now delay ps (
    if leb p.packet_number space.largest_acked_packet && not (is_lost space now delay p)
    then some (earlier loss_time (p.sent_time + delay))
    else loss_time)

module _ (algorithm : QuicCongestionControl) where
  abbrev pub detect_loss : QuicPacketRecovery algorithm → QuicPacketSpace → ℕ → Outcome algorithm
  detect_loss r space now =
      let delay = loss_delay r.rtt in
      let timed = record space {
        loss_time = next_loss_time space now delay space.sent_packets none;
      } in
      on_packets_lost algorithm r timed now (is_lost space now delay)

  -- The variables of the loop of `on_ack_received`.
  pub record Acking : Type 0 where
    pub cc : algorithm.State
    pub ack_eliciting_in_flight : ℕ
    pub is_ack_eliciting : Bool
    pub largest_newly_acked : Option QuicSentPacket
    pub reported : List Report

  abbrev pub ack_packet : Acking → QuicSentPacket → Acking
  ack_packet a packet = record {
    cc = if packet.in_flight then algorithm.on_packet_acked a.cc packet else a.cc;
    ack_eliciting_in_flight =
        if packet.is_ack_eliciting
        then a.ack_eliciting_in_flight - 1
        else a.ack_eliciting_in_flight;
    is_ack_eliciting = packet.is_ack_eliciting || a.is_ack_eliciting;
    largest_newly_acked = some packet;
    reported = a.reported ++ reports acked packet.delivery_handlers;
  }

  -- The loop: the variables afterwards, and the packets that are left.
  abbrev pub ack_packets :
      RangeSet → ℕ → List QuicSentPacket → Acking → Acking × List QuicSentPacket
  ack_packets ranges largest_acked [] a = (a, [])
  ack_packets ranges largest_acked (packet ∷ packets) a =
      if ltb largest_acked packet.packet_number
      then (a, packet ∷ packets)
      else if contains ranges packet.packet_number
      then ack_packets ranges largest_acked packets (ack_packet a packet)
      else keep packet (ack_packets ranges largest_acked packets a)
    where
      keep : QuicSentPacket → Acking × List QuicSentPacket → Acking × List QuicSentPacket
      keep packet (a, kept) = (a, packet ∷ kept)

  -- `if largest_acked == largest_newly_acked and is_ack_eliciting`
  abbrev pub measure :
      QuicPacketRecovery algorithm
      → ℕ
      → ℕ
      → ℕ
      → QuicSentPacket
      → Bool
      → QuicPacketRecovery algorithm
  measure r now ack_delay largest_acked newest is_ack_eliciting =
      if newest.packet_number == largest_acked && is_ack_eliciting
      then record r {
        rtt = update_rtt r.rtt now newest.sent_time ack_delay;
        cc = algorithm.on_rtt_measurement r.cc now (now - newest.sent_time);
      }
      else r

  -- From the test for newly acknowledged packets on.
  abbrev pub after_acks :
      QuicPacketRecovery algorithm
      → QuicPacketSpace
      → ℕ
      → ℕ
      → ℕ
      → Acking
      → Option QuicSentPacket
      → Outcome algorithm
  after_acks r space now ack_delay largest_acked a none = record {
    recovery = r;
    space = space;
    reported = a.reported;
  }
  after_acks r space now ack_delay largest_acked a (some newest) =
      let out =
        detect_loss (measure r now ack_delay largest_acked newest a.is_ack_eliciting) space now in
      record {
        recovery = record out.recovery { pto_count = 0 };
        space = out.space;
        reported = a.reported ++ out.reported;
      }

  abbrev pub start_acking : QuicPacketRecovery algorithm → QuicPacketSpace → Acking
  start_acking r space = record {
    cc = r.cc;
    ack_eliciting_in_flight = space.ack_eliciting_in_flight;
    is_ack_eliciting = false;
    largest_newly_acked = none;
    reported = [];
  }

  -- The space after the loop.
  abbrev pub acked_space : QuicPacketSpace → ℕ → Acking → List QuicSentPacket → QuicPacketSpace
  acked_space space largest_acked a kept = record space {
    sent_packets = kept;
    ack_eliciting_in_flight = a.ack_eliciting_in_flight;
    largest_acked_packet =
        if ltb space.largest_acked_packet largest_acked
        then largest_acked
        else space.largest_acked_packet;
  }

  -- `on_ack_received` of ranges whose largest number is `largest_acked`.
  abbrev pub ack_ranges :
      QuicPacketRecovery algorithm → QuicPacketSpace → RangeSet → ℕ → ℕ → ℕ → Outcome algorithm
  ack_ranges r space ranges ack_delay now largest_acked =
      let loop = ack_packets ranges largest_acked space.sent_packets (start_acking r space) in
      after_acks (record r { cc = loop.0.cc }) (acked_space space largest_acked loop.0 loop.1) now
        ack_delay largest_acked loop.0 loop.0.largest_newly_acked

  abbrev pub on_ack_received :
      QuicPacketRecovery algorithm → QuicPacketSpace → RangeSet → ℕ → ℕ → Result (Outcome algorithm)
  on_ack_received r space ranges ack_delay now =
      bounds ranges >>= λ b. ok (ack_ranges r space ranges ack_delay now (b.stop - 1))
