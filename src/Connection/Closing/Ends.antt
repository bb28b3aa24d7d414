-- ===== src/Connection/Closing/Ends.antt =====
-- How a connection that closes or drains ends, and what it leaves (src/aioquic/quic/connection.py).
use aioquic.Base.{
  ℕ, ◌+◌, ◌≤◌, ◌<◌, ◌≡◌, ◌⊎◌, inl, inr, refl, ap, arith, true, false, Bool-cases, Option, none,
  some, List, [], ◌∷◌, leb,
}
use aioquic.Base.Exception.{ok}
use aioquic.Congestion.{QuicCongestionControl}
use aioquic.Recovery.Space.{QuicPacketSpace, QuicPacketRecovery}
use aioquic.Recovery.Accounts.{flying, IsAccounted, discarded-IsAccounted}
use aioquic.Recovery.Timeout.{total_flying, IsBalanced}
use aioquic.Connection.Closing.Frame.{ConnectionTerminated}
use aioquic.Connection.Closing.State.{
  closing, draining, terminated, Closing, discard_epoch, discard_epochs, close_end,
}
use aioquic.Connection.Closing.Timer.{get_timer, handle_timer}
use aioquic.Connection.Closing.System.{IsOrderly}

-- A space that was discarded holds no packets.
abbrev pub AllClear : List QuicPacketSpace → Type 0
AllClear [] = Unit
AllClear (s ∷ ss) = ((s.discarded ≡ false) ⊎ (s.sent_packets ≡ [])) × AllClear ss

abbrev pub AllEmpty : List QuicPacketSpace → Type 0
AllEmpty [] = Unit
AllEmpty (s ∷ ss) = (s.discarded ≡ true) × (s.sent_packets ≡ []) × AllEmpty ss

module _ (alg : QuicCongestionControl) where
  discard_epoch-flying :
      (others : ℕ) (r : QuicPacketRecovery alg) (s : QuicPacketSpace)
      → IsAccounted alg others r s
      → (s.discarded ≡ false) ⊎ (s.sent_packets ≡ [])
      → (alg.bytes_in_flight (discard_epoch alg r s).0.cc ≡ others)
        × ((discard_epoch alg r s).1.discarded ≡ true)
        × ((discard_epoch alg r s).1.sent_packets ≡ [])
  discard_epoch-flying others r s h (inl live) =
      rw live (omega (arith, (discarded-IsAccounted alg others r s h).bytes), refl, refl)
  discard_epoch-flying others r s h (inr empty) = elim (Bool-cases s.discarded) [
    | inl d ↦ rw d (omega (arith, h.bytes, ap (flying alg) empty), refl, empty)
    | inr d ↦ rw d (omega (arith, (discarded-IsAccounted alg others r s h).bytes), refl, refl)
  ]

  discard_epochs-flying :
      (others : ℕ) (r : QuicPacketRecovery alg) (ss : List QuicPacketSpace)
      → IsBalanced alg others r ss
      → AllClear ss
      → (alg.bytes_in_flight (discard_epochs alg r ss).0.cc ≡ others)
        × AllEmpty (discard_epochs alg r ss).1
  discard_epochs-flying others r [] h e = (omega (arith, h.bytes), tt)
  discard_epochs-flying others r (s ∷ ss) h e =
      let (bytes, gone, empty) =
        discard_epoch-flying (others + total_flying alg ss) r s
          (record { bytes = omega (arith, h.bytes); eliciting = h.counted.0 }) e.0 in
      let (left, all) =
        discard_epochs-flying others (discard_epoch alg r s).0 ss
          (record { bytes = bytes; counted = h.counted.1 }) e.1 in
      (left, (gone, empty, all))

  -- What is left after the end.
  pub record IsOver (event : ConnectionTerminated) (d : Closing alg) : Type 0 where
    pub ended : d.state ≡ terminated
    pub reported : d.events ≡ some event ∷ []
    pub silent : get_timer alg d ≡ (ok none, d)
    pub landed : alg.bytes_in_flight d.loss.cc ≡ 0
    pub empty : AllEmpty d.spaces

  close_end-IsOver :
      (c : Closing alg) (event : ConnectionTerminated)
      → IsBalanced alg 0 c.loss c.spaces
      → AllClear c.spaces
      → c.events ≡ []
      → c.close_event ≡ some event
      → IsOver event (close_end alg c)
  unfolding get_timer
  close_end-IsOver c event b e none_yet reason =
      let (bytes, all) = discard_epochs-flying 0 c.loss c.spaces b e in
      record {
        ended = refl;
        reported = rw (none_yet, reason) refl;
        silent = refl;
        landed = bytes;
        empty = all;
      }

  -- The timer at `now`: it ends the connection, or leaves it as it is.
  abbrev pub Fires : ConnectionTerminated → ℕ → ℕ → Closing alg → Type 0
  Fires event time now c =
      ((time ≤ now) × ((d : Closing alg) × (handle_timer alg now c ≡ (ok [], d)) × IsOver event d))
      ⊎ ((now < time)
          × ((handle_timer alg now c).1.state ≡ c.state)
          × ((handle_timer alg now c).1.events ≡ c.events))

  abbrev pub Ends : ℕ → Closing alg → Type 0
  Ends now c =
      (event : ConnectionTerminated) × (time : ℕ) × (c.close_event ≡ some event)
      × (get_timer alg c ≡ (ok (some time), c))
      × Fires event time now c

  -- A connection that closes or drains ends by its timer alone: it has a reason, and a time at which
  -- its timer is set, whatever else is armed. From that time on `handle_timer` terminates it: the
  -- reason is reported, once, there is no timer afterwards, and no packet is left in any space nor
  -- byte in flight. Before that time the call leaves its state and its events as they are. The
  -- accounts of the loss recovery are right, and spaces that were discarded hold no packets.
  pub closing-Ends :
      (c : Closing alg) (now : ℕ)
      → (c.state ≡ closing) ⊎ (c.state ≡ draining)
      → IsOrderly alg c
      → IsBalanced alg 0 c.loss c.spaces
      → AllClear c.spaces
      → Ends now c
  unfolding get_timer handle_timer
  closing-Ends c now s h b e = go c.close_event c.close_at refl refl
    where
      go :
          (reason : Option ConnectionTerminated) (timer : Option ℕ)
          → c.close_event ≡ reason
          → c.close_at ≡ timer
          → Ends now c
      go none timer f g = absurd (ground arith)
      go (some event) none f g = absurd (ground arith)
      go (some event) (some time) f g = (
        event,
        time,
        f,
        ground arith,
        elim (Bool-cases (leb time now)) [
          | inl due ↦ inl (
            ground (arith, due),
            (
              close_end alg (record c { close_event = some event }),
              ground (arith, due),
              close_end-IsOver (record c { close_event = some event }) event b e (ground arith)
                  refl,
            ),
          )
          | inr early ↦ inr (ground (arith, early), ground (arith, early), ground (arith, early))
        ],
      )
