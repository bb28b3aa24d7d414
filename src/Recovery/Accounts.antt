-- ===== src/Recovery/Accounts.antt =====
-- The accounts of QuicPacketRecovery (src/aioquic/quic/recovery.py): the bytes in flight, the
-- number of ack-eliciting packets in flight, and the reports to delivery handlers.
use aioquic.Base.{
  ℕ, ◌+◌, ◌-◌, ◌≡◌, refl, ◌∙◌, arith, Bool, not, ◌&&◌, List, [], ◌∷◌, ◌++◌, Option, none, some, ltb,
  ◌==◌, if◌then◌else◌, inl, inr, Bool-cases,
}
use aioquic.RangeSet.{RangeSet, contains}
use aioquic.Congestion.{QuicSentPacket, sum_bytes, QuicCongestionControl}
use aioquic.Recovery.Rtt.{loss_delay}
use aioquic.Recovery.Space.{
  QuicPacketSpace, QuicPacketRecovery, on_packet_sent, in_flight_only, discard_space, select,
  ack_eliciting, inform_lost, on_packets_lost,
}
use aioquic.Recovery.Acks.{
  Acking, ack_packet, ack_packets, is_lost, next_loss_time, detect_loss, measure, after_acks,
  start_acking, acked_space, ack_ranges,
}

module _ (alg : QuicCongestionControl) where
  abbrev pub flying : List QuicSentPacket → ℕ
  flying ps = sum_bytes (in_flight_only ps)

  -- `others` are the bytes in flight of the other spaces.
  pub record IsAccounted (others : ℕ) (r : QuicPacketRecovery alg) (s : QuicPacketSpace)
      : Type 0 where
    pub bytes : alg.bytes_in_flight r.cc ≡ others + flying s.sent_packets
    pub eliciting : s.ack_eliciting_in_flight ≡ ack_eliciting s.sent_packets

  flying-append : (ps qs : List QuicSentPacket) → flying (ps ++ qs) ≡ flying ps + flying qs
  flying-append [] qs = omega arith
  flying-append (p ∷ ps) qs = ground (arith, flying-append ps qs)

  eliciting-append :
      (ps qs : List QuicSentPacket) → ack_eliciting (ps ++ qs) ≡ ack_eliciting ps + ack_eliciting qs
  eliciting-append [] qs = omega arith
  eliciting-append (p ∷ ps) qs = ground (arith, eliciting-append ps qs)

  -- Whatever a test is, the packets are shared out between those that pass it and the others.
  flying-select :
      (test : QuicSentPacket → Bool) (ps : List QuicSentPacket)
      → flying ps ≡ flying (select test ps) + flying (select (λ p. not (test p)) ps)
  flying-select test [] = refl
  flying-select test (p ∷ ps) = ground (arith, flying-select test ps)

  eliciting-select :
      (test : QuicSentPacket → Bool) (ps : List QuicSentPacket)
      → ack_eliciting ps
        ≡ ack_eliciting (select test ps) + ack_eliciting (select (λ p. not (test p)) ps)
  eliciting-select test [] = refl
  eliciting-select test (p ∷ ps) = ground (arith, eliciting-select test ps)

  sent-IsAccounted :
      (o : ℕ) (r : QuicPacketRecovery alg) (s : QuicPacketSpace) (p : QuicSentPacket)
      → IsAccounted o r s
      → IsAccounted o (on_packet_sent alg r s p).0 (on_packet_sent alg r s p).1
  sent-IsAccounted o r s p h = record {
    bytes = ground (arith, h.bytes, flying-append s.sent_packets (p ∷ []), alg.sent_more r.cc p);
    eliciting = ground (arith, h.eliciting, eliciting-append s.sent_packets (p ∷ []));
  }

  pub discarded-IsAccounted :
      (o : ℕ) (r : QuicPacketRecovery alg) (s : QuicPacketSpace)
      → IsAccounted o r s
      → IsAccounted o (discard_space alg r s).0 (discard_space alg r s).1
  discarded-IsAccounted o r s h = record {
    bytes = omega (arith, h.bytes, alg.expired_bytes r.cc (in_flight_only s.sent_packets));
    eliciting = refl;
  }

  inform_lost_lem :
      (cc : alg.State) (now : ℕ) (ps : List QuicSentPacket)
      → alg.bytes_in_flight (inform_lost alg cc now ps) ≡ alg.bytes_in_flight cc - sum_bytes ps
  inform_lost_lem cc now [] = omega arith
  inform_lost_lem cc now (p ∷ ps) = alg.lost_bytes cc now (p ∷ ps)

  pub lost-IsAccounted :
      (o : ℕ) (r : QuicPacketRecovery alg) (s : QuicPacketSpace) (now : ℕ)
      (test : QuicSentPacket → Bool)
      → IsAccounted o r s
      → IsAccounted o
          (on_packets_lost alg r s now test).recovery
          (on_packets_lost alg r s now test).space
  lost-IsAccounted o r s now test h = record {
    bytes = omega (
      arith,
      h.bytes,
      flying-select test s.sent_packets,
      inform_lost_lem r.cc now (in_flight_only (select test s.sent_packets)),
    );
    eliciting = omega (arith, h.eliciting, eliciting-select test s.sent_packets);
  }

  -- The loop of `on_ack_received`.
  ack_packets-bytes :
      (ranges : RangeSet) (largest o k : ℕ) (ps : List QuicSentPacket) (a : Acking alg)
      → alg.bytes_in_flight a.cc ≡ o + flying ps
      → a.ack_eliciting_in_flight ≡ k + ack_eliciting ps
      → (alg.bytes_in_flight (ack_packets alg ranges largest ps a).0.cc
          ≡ o + flying (ack_packets alg ranges largest ps a).1)
        × ((ack_packets alg ranges largest ps a).0.ack_eliciting_in_flight
            ≡ k + ack_eliciting (ack_packets alg ranges largest ps a).1)
  ack_packets-bytes ranges largest o k [] a h e = (h, e)
  ack_packets-bytes ranges largest o k (p ∷ ps) a h e =
      elim (Bool-cases (ltb largest p.packet_number)) [
        | inl x ↦ rw x (h, e)
        | inr x ↦ elim (Bool-cases (contains ranges p.packet_number)) [
          | inl y ↦
              rw (x, y)
                (ack_packets-bytes ranges largest o k ps (ack_packet alg a p)
                  (ground (arith, alg.acked_bytes a.cc p)) (ground arith))
          | inr y ↦
              let rest =
                ack_packets-bytes ranges largest (o + (if p.in_flight then p.sent_bytes else 0))
                  (k + (if p.is_ack_eliciting then 1 else 0)) ps a (ground arith) (ground arith) in
              rw (x, y) (ground (arith, rest.0), ground (arith, rest.1))
        ]
      ]

  measure_bytes :
      (r : QuicPacketRecovery alg) (now d largest : ℕ) (p : QuicSentPacket) (e : Bool)
      → alg.bytes_in_flight (measure alg r now d largest p e).cc ≡ alg.bytes_in_flight r.cc
  measure_bytes r now d largest p e = elim (Bool-cases ((p.packet_number == largest) && e)) [
    | inl x ↦ rw x (alg.measured_bytes r.cc now (now - p.sent_time))
    | inr x ↦ rw x refl
  ]

  pub detected-IsAccounted :
      (o : ℕ) (r : QuicPacketRecovery alg) (s : QuicPacketSpace) (now : ℕ)
      → IsAccounted o r s
      → IsAccounted o (detect_loss alg r s now).recovery (detect_loss alg r s now).space
  detected-IsAccounted o r s now h =
      let delay = loss_delay r.rtt in
      let timed = record s { loss_time = next_loss_time s now delay s.sent_packets none } in
      lost-IsAccounted o r timed now (is_lost s now delay)
        (record { bytes = h.bytes; eliciting = h.eliciting })

  after_acks-IsAccounted :
      (o : ℕ) (r : QuicPacketRecovery alg) (s : QuicPacketSpace) (now d largest : ℕ)
      (a : Acking alg) (newest : Option QuicSentPacket)
      → IsAccounted o r s
      → IsAccounted o
          (after_acks alg r s now d largest a newest).recovery
          (after_acks alg r s now d largest a newest).space
  after_acks-IsAccounted o r s now d largest a none h = h
  after_acks-IsAccounted o r s now d largest a (some p) h =
      let m = measure alg r now d largest p a.is_ack_eliciting in
      let k = detected-IsAccounted o m s now (record {
        bytes = measure_bytes r now d largest p a.is_ack_eliciting ∙ h.bytes;
        eliciting = h.eliciting;
      }) in
      record { bytes = k.bytes; eliciting = k.eliciting }

  acked-IsAccounted :
      (o : ℕ) (r : QuicPacketRecovery alg) (s : QuicPacketSpace) (ranges : RangeSet)
      (d now largest : ℕ)
      → IsAccounted o r s
      → IsAccounted o
          (ack_ranges alg r s ranges d now largest).recovery
          (ack_ranges alg r s ranges d now largest).space
  acked-IsAccounted o r s ranges d now largest h =
      let loop = ack_packets alg ranges largest s.sent_packets (start_acking alg r s) in
      let k =
        ack_packets-bytes ranges largest o 0 s.sent_packets (start_acking alg r s) h.bytes
          (omega (arith, h.eliciting)) in
      let after : QuicPacketRecovery alg = record r { cc = loop.0.cc } in
      after_acks-IsAccounted o after (acked_space alg s largest loop.0 loop.1) now d largest loop.0
        loop.0.largest_newly_acked (record { bytes = k.0; eliciting = omega (arith, k.1) })

  -- The bytes in flight that the congestion control counts are those of the packets that are in
  -- flight, and each space counts its ack-eliciting packets: sending a packet, an acknowledgement
  -- of any ranges, the loss of any of its packets, loss detection and discarding a space keep both.
  pub recovery-IsAccounted :
      (others : ℕ) (r : QuicPacketRecovery alg) (s : QuicPacketSpace) (p : QuicSentPacket)
      (ranges : RangeSet) (ack_delay now largest : ℕ) (test : QuicSentPacket → Bool)
      → IsAccounted others r s
      → IsAccounted others (on_packet_sent alg r s p).0 (on_packet_sent alg r s p).1
        × IsAccounted others
            (ack_ranges alg r s ranges ack_delay now largest).recovery
            (ack_ranges alg r s ranges ack_delay now largest).space
        × IsAccounted others
            (on_packets_lost alg r s now test).recovery
            (on_packets_lost alg r s now test).space
        × IsAccounted others (detect_loss alg r s now).recovery (detect_loss alg r s now).space
        × IsAccounted others (discard_space alg r s).0 (discard_space alg r s).1
  recovery-IsAccounted o r s p ranges d now largest test h = (
    sent-IsAccounted o r s p h,
    acked-IsAccounted o r s ranges d now largest h,
    lost-IsAccounted o r s now test h,
    detected-IsAccounted o r s now h,
    discarded-IsAccounted o r s h,
  )
