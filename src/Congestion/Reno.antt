-- ===== src/Congestion/Reno.antt =====
-- QuicRttMonitor of src/aioquic/quic/congestion/base.py and RenoCongestionControl of
-- src/aioquic/quic/congestion/reno.py. `int(congestion_window * 0.5)` is a division by two.
pub mod Window
mod Examples
use aioquic.Base.{
  ℕ, zero, suc, ◌+◌, ◌-◌, ◌*◌, ◌/◌, ◌≡◌, refl, sym, ap, ◌∙◌, arith, Bool, true, false, ◌&&◌, ◌||◌,
  List, [], ◌∷◌, Option, none, some, ltb, leb, ◌==◌, max, if◌then◌else◌, is_none, set, get_or,
  replicate,
}
use aioquic.Congestion.{QuicSentPacket, sum_bytes, QuicCongestionControl}

-- `K_GRANULARITY` in microseconds.
abbrev k_granularity : ℕ
k_granularity = 1000

pub record QuicRttMonitor : Type 0 where
  pub increases : ℕ
  pub ready : Bool
  pub filtered_min : Option ℕ
  pub sample_idx : ℕ
  pub sample_max : Option ℕ
  pub sample_min : Option ℕ
  pub sample_time : ℕ
  pub samples : List ℕ

abbrev pub new_monitor : QuicRttMonitor
new_monitor = record {
  increases = 0;
  ready = false;
  filtered_min = none;
  sample_idx = 0;
  sample_max = none;
  sample_min = none;
  sample_time = 0;
  samples = replicate 5 0;
}

-- The `for` loop of `add_rtt`.
abbrev extremes : List ℕ → ℕ → ℕ → ℕ × ℕ
extremes [] low high = (low, high)
extremes (sample ∷ samples) low high =
    if ltb sample low
    then extremes samples sample high
    else if ltb high sample
    then extremes samples low sample
    else extremes samples low high

abbrev take_extremes : List ℕ → QuicRttMonitor → QuicRttMonitor
take_extremes [] m = m
take_extremes (sample ∷ samples) m =
    let (low, high) = extremes samples sample sample in
    record m { sample_min = some low; sample_max = some high }

abbrev pub add_rtt : QuicRttMonitor → ℕ → QuicRttMonitor
add_rtt m rtt =
    let samples = set m.samples m.sample_idx rtt in
    let full = leb 5 (m.sample_idx + 1) in
    let ready_now = full || m.ready in
    let next = record m {
      samples = samples;
      sample_idx = if full then 0 else m.sample_idx + 1;
      ready = ready_now;
    } in
    if ready_now then take_extremes samples next else next

-- `delta` is `low - filtered_min`; where it is negative neither test holds, since times are positive.
abbrev judge : QuicRttMonitor → ℕ → ℕ → Bool × QuicRttMonitor
judge m low filtered =
    if leb (5 * filtered) (4 * low)
    then (leb 5 (m.increases + 1), record m { increases = m.increases + 1 })
    else if ltb filtered low
    then (false, record m { increases = 0 })
    else (false, m)

-- The part of `is_rtt_increasing` after a sample was added.
abbrev compare_samples : QuicRttMonitor → Option ℕ → Option ℕ → Bool × QuicRttMonitor
compare_samples m (some low) (some high) =
    let filtered = new_filtered m.filtered_min high in
    judge (record m { filtered_min = some filtered }) low filtered
  where
    new_filtered : Option ℕ → ℕ → ℕ
    new_filtered none high = high
    new_filtered (some f) high = if ltb high f then high else f
compare_samples m low high = (false, m)

abbrev pub is_rtt_increasing : QuicRttMonitor → ℕ → ℕ → Bool × QuicRttMonitor
is_rtt_increasing m now rtt =
    if ltb (m.sample_time + k_granularity) now
    then (let added = record (add_rtt m rtt) { sample_time = now } in
        if added.ready
        then compare_samples added added.sample_min added.sample_max
        else (false, added))
    else (false, m)

pub record RenoCongestionControl : Type 0 where
  pub bytes_in_flight : ℕ
  pub congestion_window : ℕ
  pub ssthresh : Option ℕ
  pub max_datagram_size : ℕ
  pub congestion_recovery_start_time : ℕ
  pub congestion_stash : ℕ
  pub rtt_monitor : QuicRttMonitor

-- `__init__`, with `K_INITIAL_WINDOW` datagrams.
abbrev pub init : ℕ → RenoCongestionControl
init max_datagram_size = record {
  bytes_in_flight = 0;
  congestion_window = 10 * max_datagram_size;
  ssthresh = none;
  max_datagram_size = max_datagram_size;
  congestion_recovery_start_time = 0;
  congestion_stash = 0;
  rtt_monitor = new_monitor;
}

-- `self.ssthresh is None or self.congestion_window < self.ssthresh`
abbrev pub in_slow_start : RenoCongestionControl → Option ℕ → Bool
in_slow_start s none = true
in_slow_start s (some ssthresh) = ltb s.congestion_window ssthresh

abbrev pub avoid_congestion : RenoCongestionControl → ℕ → RenoCongestionControl
avoid_congestion s stash =
    let count = stash / s.congestion_window in
    record s {
      congestion_stash = stash - count * s.congestion_window;
      congestion_window = s.congestion_window + count * s.max_datagram_size;
    }

abbrev pub on_packet_acked : RenoCongestionControl → QuicSentPacket → RenoCongestionControl
on_packet_acked s packet =
    let less = record s { bytes_in_flight = s.bytes_in_flight - packet.sent_bytes } in
    if leb packet.sent_time s.congestion_recovery_start_time
    then less
    else if in_slow_start s s.ssthresh
    then record less { congestion_window = s.congestion_window + packet.sent_bytes }
    else avoid_congestion less (s.congestion_stash + packet.sent_bytes)

abbrev pub on_packet_sent : RenoCongestionControl → QuicSentPacket → RenoCongestionControl
on_packet_sent s packet = record s { bytes_in_flight = s.bytes_in_flight + packet.sent_bytes }

abbrev pub on_packets_expired : RenoCongestionControl → List QuicSentPacket → RenoCongestionControl
on_packets_expired s [] = s
on_packets_expired s (packet ∷ packets) =
    on_packets_expired (record s { bytes_in_flight = s.bytes_in_flight - packet.sent_bytes })
      packets

-- The time of the last packet, which is the largest: they are in the order they were sent in.
abbrev pub lost_largest_time : List QuicSentPacket → ℕ → ℕ
lost_largest_time [] time = time
lost_largest_time (packet ∷ packets) time = lost_largest_time packets packet.sent_time

-- A new congestion event.
abbrev pub reduce_window : RenoCongestionControl → ℕ → RenoCongestionControl
reduce_window s now =
    let window = max (s.congestion_window / 2) (2 * s.max_datagram_size) in
    record s {
      congestion_recovery_start_time = now;
      congestion_window = window;
      ssthresh = some window;
    }

abbrev pub on_packets_lost : RenoCongestionControl → ℕ → List QuicSentPacket → RenoCongestionControl
on_packets_lost s now packets =
    let less = on_packets_expired s packets in
    if ltb s.congestion_recovery_start_time (lost_largest_time packets 0)
    then reduce_window less now
    else less

abbrev pub on_rtt_measurement : RenoCongestionControl → ℕ → ℕ → RenoCongestionControl
on_rtt_measurement s now rtt =
    if is_none s.ssthresh
    then (let (increasing, monitor) = is_rtt_increasing s.rtt_monitor now rtt in
        record s {
          rtt_monitor = monitor;
          ssthresh = if increasing then some s.congestion_window else s.ssthresh;
        })
    else s
