-- ===== src/Connection/Closing/Earliest.antt =====
-- What `get_timer` of src/aioquic/quic/connection.py returns.
use aioquic.Base.{
  ℕ, ◌≤◌, ◌≡◌, ◌⊎◌, inl, refl, arith, false, Option, none, some, List, [], ◌∷◌, ltb, if◌then◌else◌,
}
use aioquic.Base.Exception.{ok}
use aioquic.Congestion.{QuicCongestionControl}
use aioquic.Recovery.Space.{QuicPacketSpace}
use aioquic.Recovery.LossTimer.{get_loss_detection_time}
use aioquic.Connection.Closing.State.{Closing, is_end}
use aioquic.Connection.Closing.Timer.{sooner, ack_timers, set_loss_at, get_timer}

-- The times that are set.
abbrev pub armed : List (Option ℕ) → List ℕ
armed [] = []
armed (none ∷ timers) = armed timers
armed (some time ∷ timers) = time ∷ armed timers

abbrev pub ack_ats : List QuicPacketSpace → List (Option ℕ) → List (Option ℕ)
ack_ats [] timers = timers
ack_ats (space ∷ spaces) timers = space.ack_at ∷ ack_ats spaces timers

abbrev pub AtMost : ℕ → List ℕ → Type 0
AtMost m [] = Unit
AtMost m (time ∷ times) = (m ≤ time) × AtMost m times

abbrev pub IsIn : ℕ → List ℕ → Type 0
IsIn m [] = ⊥
IsIn m (time ∷ times) = (m ≡ time) ⊎ IsIn m times

-- The least of the times.
abbrev pub IsLeast : ℕ → List ℕ → Type 0
IsLeast m times = IsIn m times × AtMost m times

abbrev sooner_of : Option ℕ → ℕ → ℕ
sooner_of none t = t
sooner_of (some time) t = if ltb time t then time else t

sooner_lem : (timer : Option ℕ) (t : ℕ) → sooner timer (some t) ≡ ok (some (sooner_of timer t))
sooner_lem none t = refl
sooner_lem (some time) t = refl

-- The time of the timers, from one that is set.
abbrev earliest : List (Option ℕ) → ℕ → ℕ
earliest [] t = t
earliest (timer ∷ timers) t = earliest timers (sooner_of timer t)

AtMost-le : (m n : ℕ) (times : List ℕ) → m ≤ n → AtMost n times → AtMost m times
AtMost-le m n [] h a = tt
AtMost-le m n (time ∷ times) h (a, rest) = (omega arith, AtMost-le m n times h rest)

earliest-IsLeast :
    (timers : List (Option ℕ)) (t : ℕ) → IsLeast (earliest timers t) (t ∷ armed timers)
earliest-IsLeast [] t = (inl refl, (omega arith, tt))
earliest-IsLeast (none ∷ timers) t = earliest-IsLeast timers t
earliest-IsLeast (some time ∷ timers) t =
    let (found, (first, others)) = earliest-IsLeast timers (sooner_of (some time) t) in
    ground (arith, found, first, others)

ack_timers_lem :
    (spaces : List QuicPacketSpace) (t : ℕ) (timers : List (Option ℕ))
    → (n : ℕ) × (ack_timers spaces (some t) ≡ ok (some n))
      × (earliest (ack_ats spaces timers) t ≡ earliest timers n)
ack_timers_lem [] t timers = (t, refl, refl)
ack_timers_lem (space ∷ spaces) t timers =
    let (n, e, f) = ack_timers_lem spaces (sooner_of space.ack_at t) timers in
    (n, rw (sooner_lem space.ack_at t, ack_timers) e, f)

module _ (alg : QuicCongestionControl) where
  abbrev pub timers_of : Closing alg → List (Option ℕ)
  timers_of c = ack_ats c.spaces (
      get_loss_detection_time alg c.loss c.spaces c.peer_completed_address_validation
      ∷ c.pacing_at
      ∷ [])

  -- While a connection has not ended and its timer for the end is set, at `time`, `get_timer` returns
  -- the least of `time`, the times at which an acknowledgement of some packet space is due, the loss
  -- detection time and the pacing time, as far as they are set; and it changes nothing but the loss
  -- detection time that it keeps.
  pub get_timer_lem :
      (c : Closing alg) (time : ℕ)
      → is_end c.state ≡ false
      → c.close_at ≡ some time
      → (m : ℕ) × (get_timer alg c ≡ (ok (some m), set_loss_at alg c))
        × IsLeast m (time ∷ armed (timers_of c))
  unfolding get_timer
  get_timer_lem c time n e =
      let loss_at =
        get_loss_detection_time alg c.loss c.spaces c.peer_completed_address_validation in
      let timers : List (Option ℕ) = loss_at ∷ c.pacing_at ∷ [] in
      let (t, f, g) = ack_timers_lem c.spaces time timers in
      (
        earliest (timers_of c) time,
        rw (n, e, f, sooner_lem loss_at t, sooner_lem c.pacing_at (sooner_of loss_at t), g) refl,
        earliest-IsLeast (timers_of c) time,
      )
