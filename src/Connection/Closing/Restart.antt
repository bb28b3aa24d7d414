-- ===== src/Connection/Closing/Restart.antt =====
-- What `_connect` of src/aioquic/quic/connection.py leaves of the packets that were sent before it.
use aioquic.Base.{ℕ, ◌≡◌, refl, arith, Option, []}
use aioquic.Congestion.{QuicCongestionControl}
use aioquic.Recovery.Timeout.{total_flying, IsBalanced}
use aioquic.Connection.Closing.State.{Closing, close_end, start_handshake}

module _ (alg : QuicCongestionControl) where
  abbrev pub bytes_in_flight : Closing alg → ℕ
  bytes_in_flight c = alg.bytes_in_flight c.loss.cc

  expired_none :
      (cc : alg.State) → alg.bytes_in_flight (alg.on_packets_expired cc []) ≡ alg.bytes_in_flight cc
  expired_none cc = omega (arith, alg.expired_bytes cc [])

  -- When the handshake is started again, after a Retry packet or a version negotiation, the bytes of
  -- the packets that were sent before stay in flight, though no packet space holds them any more: not
  -- even the end of the connection, which discards all spaces, takes them away. The accounts of the
  -- loss recovery are right before.
  pub start_handshake-bytes :
      (ticket : Option ℕ) (now : ℕ) (c : Closing alg)
      → IsBalanced alg 0 c.loss c.spaces
      → (bytes_in_flight (start_handshake alg ticket now c) ≡ total_flying alg c.spaces)
        × (total_flying alg (start_handshake alg ticket now c).spaces ≡ 0)
        × (bytes_in_flight (close_end alg (start_handshake alg ticket now c))
            ≡ total_flying alg c.spaces)
  start_handshake-bytes ticket now c h =
      let first = alg.on_packets_expired c.loss.cc [] in
      let second = alg.on_packets_expired first [] in
      (
        omega (arith, h.bytes),
        refl,
        omega (arith, h.bytes, expired_none c.loss.cc, expired_none first, expired_none second),
      )
