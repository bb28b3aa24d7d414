-- ===== src/Congestion/Reno/Window.antt =====
-- The window of RenoCongestionControl (src/aioquic/quic/congestion/reno.py), and its bytes in flight
-- as recovery relies on them.
use aioquic.Base.{
  ℕ, ◌+◌, ◌-◌, ◌*◌, ◌/◌, ◌≤◌, ◌<◌, ◌≡◌, refl, sym, ap, ◌∙◌, arith, true, false, List, [], ◌∷◌,
  Option, none, some, ltb, leb, max, is_none, inl, inr, Bool-cases,
}
use mathlib.Core.Path.{subst}
use native.Mathlib.Nat.{mod-eq-sub-div-mul, div-add-mod', mod-lt}
use aioquic.Congestion.{QuicSentPacket, sum_bytes, QuicCongestionControl}
use aioquic.Congestion.Reno.{
  RenoCongestionControl, init, is_rtt_increasing, in_slow_start, avoid_congestion, on_packet_acked,
  on_packet_sent, on_packets_expired, lost_largest_time, reduce_window, on_packets_lost,
  on_rtt_measurement,
}

-- A threshold is a window that was once in use.
abbrev pub AtLeast : ℕ → Option ℕ → Type 0
AtLeast minimum none = Unit
AtLeast minimum (some n) = minimum ≤ n

-- The window never falls below two datagrams (`K_MINIMUM_WINDOW`).
pub record IsWindowed (s : RenoCongestionControl) : Type 0 where
  pub minimum : 2 * s.max_datagram_size ≤ s.congestion_window
  pub threshold : AtLeast (2 * s.max_datagram_size) s.ssthresh

-- A window of acknowledged bytes makes the window one datagram larger.
pub avoid_congestion_lem :
    (s : RenoCongestionControl) (stash : ℕ)
    → 0 < s.congestion_window
    → (count : ℕ) × ((avoid_congestion s stash).congestion_window
        ≡ s.congestion_window + count * s.max_datagram_size)
      × ((avoid_congestion s stash).congestion_stash + count * s.congestion_window ≡ stash)
      × ((avoid_congestion s stash).congestion_stash < s.congestion_window)
avoid_congestion_lem s stash h =
    let w = s.congestion_window in
    let rest = mod-eq-sub-div-mul stash w in
    (
      stash / w,
      refl,
      omega (arith, rest, div-add-mod' stash w),
      omega (arith, rest, mod-lt stash h),
    )

-- Only the bytes in flight change.
pub expired :
    (s : RenoCongestionControl) (ps : List QuicSentPacket)
    → on_packets_expired s ps ≡ record s { bytes_in_flight = s.bytes_in_flight - sum_bytes ps }
expired s [] = ap (λ n. record s { bytes_in_flight = n }) (omega arith)
expired s (p ∷ ps) =
    expired (record s { bytes_in_flight = s.bytes_in_flight - p.sent_bytes }) ps
    ∙ ap (λ n. record s { bytes_in_flight = n }) (omega arith)

acked-IsWindowed :
    (s : RenoCongestionControl) (p : QuicSentPacket)
    → IsWindowed s
    → IsWindowed (on_packet_acked s p)
acked-IsWindowed s p w = elim (Bool-cases (leb p.sent_time s.congestion_recovery_start_time)) [
  | inl a ↦ rw a (record { minimum = w.minimum; threshold = w.threshold })
  | inr a ↦ elim (Bool-cases (in_slow_start s s.ssthresh)) [
    | inl b ↦ rw (a, b) (record { minimum = omega (arith, w.minimum); threshold = w.threshold })
    | inr b ↦ rw (a, b) (record { minimum = omega (arith, w.minimum); threshold = w.threshold })
  ]
]

lost-IsWindowed :
    (s : RenoCongestionControl) (now : ℕ) (ps : List QuicSentPacket)
    → IsWindowed s
    → IsWindowed (on_packets_lost s now ps)
lost-IsWindowed s now ps w =
    elim (Bool-cases (ltb s.congestion_recovery_start_time (lost_largest_time ps 0))) [
      | inl a ↦ rw (a, expired s ps) (record { minimum = omega arith; threshold = omega arith })
      | inr a ↦ rw (a, expired s ps) (record { minimum = w.minimum; threshold = w.threshold })
    ]

measured-IsWindowed :
    (s : RenoCongestionControl) (now rtt : ℕ)
    → IsWindowed s
    → IsWindowed (on_rtt_measurement s now rtt)
measured-IsWindowed s now rtt w = elim (Bool-cases (is_none s.ssthresh)) [
  | inl a ↦ elim (Bool-cases (is_rtt_increasing s.rtt_monitor now rtt).0) [
    | inl b ↦ rw (a, b) (record { minimum = w.minimum; threshold = w.minimum })
    | inr b ↦ rw (a, b) (record { minimum = w.minimum; threshold = w.threshold })
  ]
  | inr a ↦ rw a w
]

-- The window of a new connection is ten datagrams and it has no slow start threshold; and no
-- operation takes the window, or the threshold, below two datagrams.
pub reno-IsWindowed :
    (s : RenoCongestionControl) (p : QuicSentPacket) (ps : List QuicSentPacket) (now rtt n : ℕ)
    → IsWindowed s
    → ((init n).congestion_window ≡ 10 * n)
      × ((init n).ssthresh ≡ none)
      × IsWindowed (init n)
      × IsWindowed (on_packet_acked s p)
      × IsWindowed (on_packet_sent s p)
      × IsWindowed (on_packets_expired s ps)
      × IsWindowed (on_packets_lost s now ps)
      × IsWindowed (on_rtt_measurement s now rtt)
reno-IsWindowed s p ps now rtt n w = (
  refl,
  refl,
  record { minimum = omega arith; threshold = tt },
  acked-IsWindowed s p w,
  record { minimum = w.minimum; threshold = w.threshold },
  subst IsWindowed (sym (expired s ps)) (record { minimum = w.minimum; threshold = w.threshold }),
  lost-IsWindowed s now ps w,
  measured-IsWindowed s now rtt w,
)

-- A loss of packets that were sent after the start of the recovery period halves the window, down
-- to two datagrams, which is then the slow start threshold; a later loss of packets that were all
-- sent by then takes nothing more from the window, and neither do their acknowledgements add to it.
one_reduction :
    (s : RenoCongestionControl) (now later : ℕ) (ps qs : List QuicSentPacket) (q : QuicSentPacket)
    → s.congestion_recovery_start_time < lost_largest_time ps 0
    → lost_largest_time qs 0 ≤ now
    → q.sent_time ≤ now
    → ((on_packets_lost s now ps).congestion_window
        ≡ max (s.congestion_window / 2) (2 * s.max_datagram_size))
      × ((on_packets_lost s now ps).ssthresh ≡ some (on_packets_lost s now ps).congestion_window)
      × ((on_packets_lost (on_packets_lost s now ps) later qs).congestion_window
          ≡ (on_packets_lost s now ps).congestion_window)
      × ((on_packet_acked (on_packets_lost s now ps) q).congestion_window
          ≡ (on_packets_lost s now ps).congestion_window)
one_reduction s now later ps qs q a b c =
    let first : ltb s.congestion_recovery_start_time (lost_largest_time ps 0) ≡ true =
      ground arith in
    let second : ltb now (lost_largest_time qs 0) ≡ false = ground arith in
    let third : leb q.sent_time now ≡ true = ground arith in
    let less = expired s ps in
    (
      rw (first, less) refl,
      rw (first, less) refl,
      rw
          (
            first,
            less,
            second,
            expired
                (reduce_window (record s { bytes_in_flight = s.bytes_in_flight - sum_bytes ps })
                  now)
                qs,
          )
          refl,
      rw (first, less, third) refl,
    )

pub acked_bytes_lem :
    (s : RenoCongestionControl) (p : QuicSentPacket)
    → (on_packet_acked s p).bytes_in_flight ≡ s.bytes_in_flight - p.sent_bytes
acked_bytes_lem s p = elim (Bool-cases (leb p.sent_time s.congestion_recovery_start_time)) [
  | inl a ↦ rw a refl
  | inr a ↦ elim (Bool-cases (in_slow_start s s.ssthresh)) [
    | inl b ↦ rw (a, b) refl
    | inr b ↦ rw (a, b) refl
  ]
]

pub lost_bytes_lem :
    (s : RenoCongestionControl) (now : ℕ) (ps : List QuicSentPacket)
    → (on_packets_lost s now ps).bytes_in_flight ≡ s.bytes_in_flight - sum_bytes ps
lost_bytes_lem s now ps =
    elim (Bool-cases (ltb s.congestion_recovery_start_time (lost_largest_time ps 0))) [
      | inl a ↦ rw (a, expired s ps) refl
      | inr a ↦ rw (a, expired s ps) refl
    ]

pub measured_bytes_lem :
    (s : RenoCongestionControl) (now rtt : ℕ)
    → (on_rtt_measurement s now rtt).bytes_in_flight ≡ s.bytes_in_flight
measured_bytes_lem s now rtt = elim (Bool-cases (is_none s.ssthresh)) [
  | inl a ↦ rw a refl
  | inr a ↦ rw a refl
]

-- Reno as recovery uses it.
abbrev pub reno : QuicCongestionControl
reno = record {
  State = RenoCongestionControl;
  bytes_in_flight = λ s. s.bytes_in_flight;
  on_packet_acked = on_packet_acked;
  on_packet_sent = on_packet_sent;
  on_packets_expired = on_packets_expired;
  on_packets_lost = on_packets_lost;
  on_rtt_measurement = on_rtt_measurement;
  acked_bytes = acked_bytes_lem;
  sent_more = λ s p. refl;
  expired_bytes = λ s ps. ap (λ (t : RenoCongestionControl). t.bytes_in_flight) (expired s ps);
  lost_bytes = lost_bytes_lem;
  measured_bytes = measured_bytes_lem;
}
