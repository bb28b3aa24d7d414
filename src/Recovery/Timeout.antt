-- ===== src/Recovery/Timeout.antt =====
-- `on_loss_detection_timeout` and `reschedule_data` of src/aioquic/quic/recovery.py, over all
-- packet spaces of a connection.
use aioquic.Base.{ℕ, zero, suc, ◌+◌, ◌≡◌, arith, List, [], ◌∷◌, Option, none, some}
use aioquic.Congestion.{QuicCongestionControl}
use aioquic.Recovery.Space.{QuicPacketSpace, QuicPacketRecovery, on_packets_lost, ack_eliciting}
use aioquic.Recovery.LossTimer.{
  reschedule_data, detect_at, timeout_in, on_loss_detection_timeout, loss_space,
}
use aioquic.Recovery.Accounts.{flying, lost-IsAccounted, detected-IsAccounted}

module _ (alg : QuicCongestionControl) where
  abbrev pub total_flying : List QuicPacketSpace → ℕ
  total_flying [] = 0
  total_flying (s ∷ ss) = flying alg s.sent_packets + total_flying ss

  abbrev pub AllCounted : List QuicPacketSpace → Type 0
  AllCounted [] = Unit
  AllCounted (s ∷ ss) = (s.ack_eliciting_in_flight ≡ ack_eliciting s.sent_packets) × AllCounted ss

  -- The accounts of a recovery with all its spaces.
  pub record IsBalanced (others : ℕ) (r : QuicPacketRecovery alg) (ss : List QuicPacketSpace)
      : Type 0 where
    pub bytes : alg.bytes_in_flight r.cc ≡ others + total_flying ss
    pub counted : AllCounted ss

  rescheduled :
      (o : ℕ) (r : QuicPacketRecovery alg) (ss : List QuicPacketSpace) (now : ℕ)
      → IsBalanced o r ss
      → IsBalanced o (reschedule_data alg r ss now).0 (reschedule_data alg r ss now).1
  rescheduled o r [] now h = h
  rescheduled o r (s ∷ ss) now h =
      let out = on_packets_lost alg r s now (λ p. p.is_crypto_packet) in
      let k =
        lost-IsAccounted alg (o + total_flying ss) r s now (λ p. p.is_crypto_packet)
          (record { bytes = omega (arith, h.bytes); eliciting = h.counted.0 }) in
      let rest =
        rescheduled (o + flying alg out.space.sent_packets) out.recovery ss now
          (record { bytes = omega (arith, k.bytes); counted = h.counted.1 }) in
      record { bytes = omega (arith, rest.bytes); counted = (k.eliciting, rest.counted) }

  detected :
      (o : ℕ) (r : QuicPacketRecovery alg) (ss : List QuicPacketSpace) (index now : ℕ)
      → IsBalanced o r ss
      → IsBalanced o (detect_at alg r ss index now).0 (detect_at alg r ss index now).1
  detected o r [] index now h = h
  detected o r (s ∷ ss) zero now h =
      let k =
        detected-IsAccounted alg (o + total_flying ss) r s now
          (record { bytes = omega (arith, h.bytes); eliciting = h.counted.0 }) in
      record { bytes = omega (arith, k.bytes); counted = (k.eliciting, h.counted.1) }
  detected o r (s ∷ ss) (suc index) now h =
      let rest =
        detected (o + flying alg s.sent_packets) r ss index now
          (record { bytes = omega (arith, h.bytes); counted = h.counted.1 }) in
      record { bytes = omega (arith, rest.bytes); counted = (h.counted.0, rest.counted) }

  timed_out :
      (space : Option (ℕ × ℕ)) (o : ℕ) (r : QuicPacketRecovery alg) (ss : List QuicPacketSpace)
      (now : ℕ)
      → IsBalanced o r ss
      → IsBalanced o (timeout_in alg space r ss now).0 (timeout_in alg space r ss now).1
  timed_out (some (time, index)) o r ss now h = detected o r ss index now h
  timed_out none o r ss now h =
      rescheduled o (record r { pto_count = r.pto_count + 1 }) ss now
        (record { bytes = h.bytes; counted = h.counted })

  -- A timeout, whether it declares packets of one space lost or schedules the CRYPTO packets of all
  -- spaces for retransmission, keeps the accounts of all spaces: the bytes in flight are those of
  -- the packets in flight, and each space counts its ack-eliciting packets.
  timeout-IsBalanced :
      (r : QuicPacketRecovery alg) (ss : List QuicPacketSpace) (now : ℕ)
      → IsBalanced 0 r ss
      → IsBalanced 0
          (on_loss_detection_timeout alg r ss now).0
          (on_loss_detection_timeout alg r ss now).1
  timeout-IsBalanced r ss now h = timed_out (loss_space ss 0 none) 0 r ss now h
