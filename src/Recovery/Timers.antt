-- ===== src/Recovery/Timers.antt =====
-- The loss timer that `_detect_loss` of src/aioquic/quic/recovery.py leaves.
use aioquic.Base.{
  ℕ, ◌+◌, ◌≤◌, ◌<◌, ◌≡◌, ◌⊎◌, inl, inr, arith, false, not, ◌&&◌, List, [], ◌∷◌, Option, none, some,
  leb, if◌then◌else◌,
}
use mathlib.Core.Path.{subst}
use aioquic.Congestion.{QuicSentPacket, QuicCongestionControl}
use aioquic.Recovery.Rtt.{loss_delay}
use aioquic.Recovery.Space.{QuicPacketSpace, QuicPacketRecovery}
use aioquic.Recovery.Acks.{is_lost, next_loss_time, detect_loss, earlier}

-- The packet waits for the loss timer: it was sent before the largest acknowledged one, and it is
-- not lost yet.
abbrev pub Waits : QuicCongestionControl → QuicPacketSpace → ℕ → ℕ → QuicSentPacket → Type 0
Waits alg s now delay p =
    (p.packet_number ≤ s.largest_acked_packet) × (is_lost s now delay p ≡ false)

abbrev pub In : QuicSentPacket → List QuicSentPacket → Type 0
In p [] = ⊥
In p (q ∷ ps) = (p ≡ q) ⊎ In p ps

-- The timer is set to `t` at the latest, and not to the past.
abbrev pub SetBy : Option ℕ → ℕ → ℕ → Type 0
SetBy none now t = ⊥
SetBy (some u) now t = (now < u) × (u ≤ t)

abbrev Future : Option ℕ → ℕ → Type 0
Future none now = Unit
Future (some u) now = now < u

module _ (alg : QuicCongestionControl) (s : QuicPacketSpace) (now delay : ℕ) where
  -- The timer after one packet of the loop.
  abbrev step : QuicSentPacket → Option ℕ → Option ℕ
  step p time =
      if leb p.packet_number s.largest_acked_packet && not (is_lost s now delay p)
      then some (earlier time (p.sent_time + delay))
      else time

  step-Future : (p : QuicSentPacket) (time : Option ℕ) → Future time now → Future (step p time) now
  step-Future p none f = ground arith
  step-Future p (some u) f = ground arith

  step-SetBy :
      (p : QuicSentPacket) (time : Option ℕ) (t : ℕ) → SetBy time now t → SetBy (step p time) now t
  step-SetBy p none t h = absurd h
  step-SetBy p (some u) t h = ground arith

  Waits-SetBy :
      (p : QuicSentPacket) (time : Option ℕ)
      → Future time now
      → Waits alg s now delay p
      → SetBy (step p time) now (p.sent_time + delay)
  Waits-SetBy p none f w = ground arith
  Waits-SetBy p (some u) f w = ground arith

  keeps :
      (ps : List QuicSentPacket) (time : Option ℕ) (t : ℕ)
      → SetBy time now t
      → SetBy (next_loss_time s now delay ps time) now t
  keeps [] time t h = h
  keeps (p ∷ ps) time t h = keeps ps (step p time) t (step-SetBy p time t h)

  sets :
      (ps : List QuicSentPacket) (time : Option ℕ) (p : QuicSentPacket)
      → Future time now
      → In p ps
      → Waits alg s now delay p
      → SetBy (next_loss_time s now delay ps time) now (p.sent_time + delay)
  sets [] time p f i w = elim i [ ]
  sets (q ∷ ps) time p f (inl e) w =
      keeps ps (step q time) (p.sent_time + delay)
        (subst (λ x. SetBy (step x time) now (p.sent_time + delay)) e (Waits-SetBy p time f w))
  sets (q ∷ ps) time p f (inr i) w = sets ps (step q time) p (step-Future q time f) i w

-- Loss detection leaves the loss timer set to a time in the future, and by the time that is due for
-- each packet that was sent before the largest acknowledged one and is not lost yet.
pub detect_loss-timer :
    (alg : QuicCongestionControl) (r : QuicPacketRecovery alg) (s : QuicPacketSpace) (now : ℕ)
    (p : QuicSentPacket)
    → In p s.sent_packets
    → Waits alg s now (loss_delay r.rtt) p
    → SetBy (detect_loss alg r s now).space.loss_time now (p.sent_time + loss_delay r.rtt)
detect_loss-timer alg r s now p i w = sets alg s now (loss_delay r.rtt) s.sent_packets none p tt i w
