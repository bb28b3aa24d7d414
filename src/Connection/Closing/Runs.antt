-- ===== src/Connection/Closing/Runs.antt =====
-- The life of a connection, as far as its end is concerned (src/aioquic/quic/connection.py).
use aioquic.Base.{ℕ, ◌≡◌, arith, false, Option, List}
use aioquic.Base.Exception.{Result, ok}
use aioquic.Buffer.{Buffer}
use aioquic.Congestion.{QuicCongestionControl}
use aioquic.Recovery.Space.{Report}
use aioquic.Connection.Closing.Frame.{Epoch, ConnectionTerminated}
use aioquic.Connection.Closing.State.{
  QuicConnectionState, is_end, Closing, close, connect, start_handshake, receive_datagram_start,
  update_state, handle_connection_close_frame, after_payload, receive_version_negotiation_packet,
  send_close,
}
use aioquic.Connection.Closing.Timer.{get_timer, handle_timer}
use aioquic.Connection.Closing.System.{
  Step, closes, connects, starts, decrypts, reads_close, finishes, negotiates, retries, sends_close,
  asks, fires, works, Reach, here, next, Precedes, IsOrderly, IsLater,
}

Precedes-trans : (s t u : QuicConnectionState) → Precedes s t → Precedes t u → Precedes s u
Precedes-trans s t u p q = ground arith

module _ (alg : QuicCongestionControl) where
  abbrev Keeps : Closing alg → Closing alg → Type 0
  Keeps c d = IsOrderly alg d × IsLater alg c d

  close-Keeps :
      (event : ConnectionTerminated) (c : Closing alg)
      → IsOrderly alg c
      → Keeps c (close alg event c)
  close-Keeps event c h = ground arith

  connect-Keeps :
      (ticket : Option ℕ) (now : ℕ) (c d : Closing alg)
      → is_end c.state ≡ false
      → connect alg ticket now c ≡ ok d
      → IsOrderly alg c
      → Keeps c d
  unfolding connect
  connect-Keeps ticket now c d n e h = ground arith

  start-Keeps :
      (now : ℕ) (c : Closing alg) → IsOrderly alg c → Keeps c (receive_datagram_start alg now c)
  start-Keeps now c h = ground arith

  decrypt-Keeps : (c : Closing alg) → IsOrderly alg c → Keeps c (update_state alg c)
  decrypt-Keeps c h = ground arith

  reads-Keeps :
      (frame_type : ℕ) (b b' : Buffer) (now : ℕ) (c d : Closing alg)
      → handle_connection_close_frame alg frame_type b now c ≡ ok (d, b')
      → IsOrderly alg c
      → Keeps c d
  unfolding handle_connection_close_frame
  reads-Keeps frame_type b b' now c d e h = ground arith

  finish-Keeps :
      (error : Option ConnectionTerminated) (now : ℕ) (c : Closing alg)
      → IsOrderly alg c
      → Keeps c (after_payload alg error now c)
  finish-Keeps error now c h = ground arith

  negotiation-Keeps :
      (theirs : List ℕ) (ticket : Option ℕ) (now : ℕ) (c : Closing alg)
      → IsOrderly alg c
      → Keeps c (receive_version_negotiation_packet alg theirs ticket now c)
  unfolding receive_version_negotiation_packet
  negotiation-Keeps theirs ticket now c h = ground arith

  retry-Keeps :
      (ticket : Option ℕ) (now : ℕ) (c : Closing alg)
      → is_end c.state ≡ false
      → IsOrderly alg c
      → Keeps c (start_handshake alg ticket now c)
  retry-Keeps ticket now c n h = ground arith

  sends-Keeps :
      (epochs : List (Epoch × ℕ)) (now : ℕ) (b b' : Buffer) (c d : Closing alg)
      → send_close alg epochs now b c ≡ ok (d, b')
      → IsOrderly alg c
      → Keeps c d
  sends-Keeps epochs now b b' c d e h = ground arith

  asks-Keeps :
      (out : Result (Option ℕ)) (c d : Closing alg)
      → get_timer alg c ≡ (out, d)
      → IsOrderly alg c
      → Keeps c d
  unfolding get_timer
  asks-Keeps out c d e h = ground arith

  fires-Keeps :
      (now : ℕ) (out : Result (List Report)) (c d : Closing alg)
      → handle_timer alg now c ≡ (out, d)
      → IsOrderly alg c
      → Keeps c d
  unfolding handle_timer
  fires-Keeps now out c d e h = ground arith

  step-Keeps : (c d : Closing alg) → Step alg c d → IsOrderly alg c → Keeps c d
  step-Keeps c d (closes event) h = close-Keeps event c h
  step-Keeps c _ (connects ticket now d n e) h = connect-Keeps ticket now c d n e h
  step-Keeps c d (starts now) h = start-Keeps now c h
  step-Keeps c d decrypts h = decrypt-Keeps c h
  step-Keeps c _ (reads_close frame_type b b' now d e) h = reads-Keeps frame_type b b' now c d e h
  step-Keeps c d (finishes error now) h = finish-Keeps error now c h
  step-Keeps c d (negotiates theirs ticket now) h = negotiation-Keeps theirs ticket now c h
  step-Keeps c d (retries ticket now client n) h = retry-Keeps ticket now c n h
  step-Keeps c _ (sends_close epochs now b b' d e) h = sends-Keeps epochs now b b' c d e h
  step-Keeps c _ (asks out d e) h = asks-Keeps out c d e h
  step-Keeps c _ (fires now out d e) h = fires-Keeps now out c d e h
  step-Keeps c d (works loss spaces pacing_at remote probe_pending validated) h = ground arith

  IsLater-trans : (c d e : Closing alg) → IsLater alg c d → IsLater alg d e → IsLater alg c e
  IsLater-trans c d e p q = record {
    order = Precedes-trans c.state d.state e.state p.order q.order;
    kept = ground (arith, p.order, p.kept, q.kept);
  }

  -- In every run from a state that is in order, in whatever order the application, the peer and the
  -- timers act, `connect` being called before the end: the connection is connected, then it closes or
  -- drains, then it is terminated, with states left out, and none comes again. While it closes or
  -- drains its timer is set and nothing was reported; once it is terminated, one event was reported,
  -- which is never `None`, no other follows and there is no timer. A connection that is to be closed
  -- has a reason, and after the first flight the reason is never replaced.
  pub Reach-IsOrderly :
      {c d : Closing alg} → Reach alg c d → IsOrderly alg c → IsOrderly alg d × IsLater alg c d
  Reach-IsOrderly {c} here h = (h, ground arith)
  Reach-IsOrderly {c} (next {d} {e} r s) h =
      let (k, l) = Reach-IsOrderly r h in
      let (m, n) = step-Keeps d e s k in (m, IsLater-trans c d e l n)
