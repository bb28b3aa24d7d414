-- ===== src/Recovery/Reports.antt =====
-- Which packets QuicPacketRecovery reports to delivery handlers, and how
-- (src/aioquic/quic/recovery.py).
use aioquic.Base.{
  ℕ, ◌+◌, ◌≡◌, refl, ◌∙◌, arith, Bool, not, List, [], ◌∷◌, ◌++◌, Option, none, some, ltb, ◌==◌, bit,
  count, inl, inr, Bool-cases,
}
use aioquic.RangeSet.{RangeSet, contains}
use aioquic.Stream.{QuicDeliveryState, acked, lost}
use aioquic.Congestion.{QuicSentPacket, QuicCongestionControl}
use aioquic.Recovery.Rtt.{loss_delay}
use aioquic.Recovery.Space.{QuicPacketSpace, QuicPacketRecovery, Report, reports, select, all_lost}
use aioquic.Recovery.Acks.{
  Acking, ack_packet, ack_packets, is_lost, detect_loss, measure, after_acks, start_acking,
  acked_space, ack_ranges,
}

-- How often a handler is called.
abbrev pub calls : List Report → ℕ → ℕ
calls [] h = 0
calls (k ∷ ks) h = bit (h == k.1) + calls ks h

-- How often a handler waits in the packets of a space.
abbrev pub waiting : List QuicSentPacket → ℕ → ℕ
waiting [] h = 0
waiting (p ∷ ps) h = count h p.delivery_handlers + waiting ps h

calls-append : (xs ys : List Report) (h : ℕ) → calls (xs ++ ys) h ≡ calls xs h + calls ys h
calls-append [] ys h = omega arith
calls-append (x ∷ xs) ys h = omega (arith, calls-append xs ys h)

calls-reports : (d : QuicDeliveryState) (ks : List ℕ) (h : ℕ) → calls (reports d ks) h ≡ count h ks
calls-reports d [] h = refl
calls-reports d (k ∷ ks) h = omega (arith, calls-reports d ks h)

module _ (alg : QuicCongestionControl) where
  lost_calls :
      (test : QuicSentPacket → Bool) (ps : List QuicSentPacket) (h : ℕ)
      → calls (all_lost (select test ps)) h + waiting (select (λ p. not (test p)) ps) h
        ≡ waiting ps h
  lost_calls test [] h = refl
  lost_calls test (p ∷ ps) h =
      let rest = lost_calls test ps h in
      elim (Bool-cases (test p)) [
        | inl x ↦ rw x (
            omega (
              arith,
              rest,
              calls-append (reports lost p.delivery_handlers) (all_lost (select test ps)) h,
              calls-reports lost p.delivery_handlers h,
            ))
        | inr x ↦ rw x (omega (arith, rest))
      ]

  ack_calls :
      (ranges : RangeSet) (largest : ℕ) (ps : List QuicSentPacket) (a : Acking alg) (h : ℕ)
      → calls (ack_packets alg ranges largest ps a).0.reported h
          + waiting (ack_packets alg ranges largest ps a).1 h
        ≡ calls a.reported h + waiting ps h
  ack_calls ranges largest [] a h = refl
  ack_calls ranges largest (p ∷ ps) a h = elim (Bool-cases (ltb largest p.packet_number)) [
    | inl x ↦ rw x refl
    | inr x ↦ elim (Bool-cases (contains ranges p.packet_number)) [
      | inl y ↦
          rw (x, y)
            (omega (
              arith,
              ack_calls ranges largest ps (ack_packet alg a p) h,
              calls-append a.reported (reports acked p.delivery_handlers) h,
              calls-reports acked p.delivery_handlers h,
            ))
      | inr y ↦ rw (x, y) (omega (arith, ack_calls ranges largest ps a h))
    ]
  ]

  after_calls :
      (r : QuicPacketRecovery alg) (s : QuicPacketSpace) (now d largest : ℕ) (a : Acking alg)
      (newest : Option QuicSentPacket) (h : ℕ)
      → calls (after_acks alg r s now d largest a newest).reported h
          + waiting (after_acks alg r s now d largest a newest).space.sent_packets h
        ≡ calls a.reported h + waiting s.sent_packets h
  after_calls r s now d largest a none h = refl
  after_calls r s now d largest a (some p) h =
      let m = measure alg r now d largest p a.is_ack_eliciting in
      let test = is_lost s now (loss_delay m.rtt) in
      omega (
        arith,
        lost_calls test s.sent_packets h,
        calls-append a.reported (detect_loss alg m s now).reported h,
      )

  -- An acknowledgement calls a delivery handler as often as it takes it out of the packets of the
  -- space, those that loss detection takes out included: no packet is dropped without a report,
  -- and none is reported that stays.
  pub ack_ranges-calls :
      (r : QuicPacketRecovery alg) (s : QuicPacketSpace) (ranges : RangeSet) (d now largest h : ℕ)
      → calls (ack_ranges alg r s ranges d now largest).reported h
          + waiting (ack_ranges alg r s ranges d now largest).space.sent_packets h
        ≡ waiting s.sent_packets h
  ack_ranges-calls r s ranges d now largest h =
      let loop = ack_packets alg ranges largest s.sent_packets (start_acking alg r s) in
      let after : QuicPacketRecovery alg = record r { cc = loop.0.cc } in
      after_calls after (acked_space alg s largest loop.0 loop.1) now d largest loop.0
        loop.0.largest_newly_acked h
      ∙ ack_calls ranges largest s.sent_packets (start_acking alg r s) h
      ∙ omega arith
