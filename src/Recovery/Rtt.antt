-- ===== src/Recovery/Rtt.antt =====
-- The estimate of the round trip time, of QuicPacketRecovery (src/aioquic/quic/recovery.py).
-- Times are natural numbers of microseconds.
use aioquic.Base.{
  ℕ, ◌+◌, ◌-◌, ◌*◌, ◌/◌, Bool, true, Option, none, some, ltb, min, max, if◌then◌else◌,
}

pub record Rtt : Type 0 where
  pub initial : ℕ
  pub initialized : Bool
  pub latest : ℕ
  pub minimum : Option ℕ
  pub smoothed : ℕ
  pub variance : ℕ

-- `abs(a - b)`
abbrev pub distance : ℕ → ℕ → ℕ
distance a b = (a - b) + (b - a)

-- `self._rtt_min`, which starts as infinity.
abbrev pub smaller : Option ℕ → ℕ → ℕ
smaller none latest = latest
smaller (some minimum) latest = if ltb latest minimum then latest else minimum

abbrev update_average : Rtt → ℕ → ℕ → ℕ → Rtt
update_average t measured minimum latest =
    if t.initialized
    then record t {
      latest = latest;
      minimum = some minimum;
      variance = (3 * t.variance + distance minimum latest) / 4;
      smoothed = (7 * t.smoothed + latest) / 8;
    }
    else record t {
      initialized = true;
      latest = latest;
      minimum = some minimum;
      variance = measured / 2;
      smoothed = measured;
    }

-- `update RTT estimate`, with `max_ack_delay` of 25 milliseconds.
unfoldable pub update_rtt : Rtt → ℕ → ℕ → ℕ → Rtt
update_rtt t now sent_time ack_delay =
    let measured = now - sent_time in
    let delay = min ack_delay 25000 in
    let latest = max measured 1000 in
    let minimum = smaller t.minimum latest in
    update_average t measured minimum
      (if ltb (minimum + delay) latest then latest - delay else latest)

-- `loss_delay`: 9/8 of the round trip time.
unfoldable pub loss_delay : Rtt → ℕ
loss_delay t = 9 * (if t.initialized then max t.latest t.smoothed else t.initial) / 8

-- `get_probe_timeout`, with `K_GRANULARITY` of a millisecond.
abbrev pub get_probe_timeout : Rtt → ℕ
get_probe_timeout t =
    if t.initialized then t.smoothed + max (4 * t.variance) 1000 + 25000 else 2 * t.initial
