-- ===== src/Connection/Closing/System.antt =====
-- What happens to a connection, as far as its end is concerned, and the order in it
-- (src/aioquic/quic/connection.py).
use aioquic.Base.{ℕ, ◌≡◌, ◌⊎◌, Bool, true, false, not, Option, none, List, [], ◌∷◌, is_none}
use aioquic.Base.Exception.{Result, ok}
use aioquic.Buffer.{Buffer}
use aioquic.Congestion.{QuicCongestionControl}
use aioquic.Recovery.Space.{QuicPacketSpace, QuicPacketRecovery, Report}
use aioquic.Connection.Closing.Frame.{Epoch, ConnectionTerminated}
use aioquic.Connection.Closing.State.{
  QuicConnectionState, first_flight, connected, closing, draining, terminated, is_end,
  is_first_flight, Closing, close, connect, start_handshake, receive_datagram_start, update_state,
  handle_connection_close_frame, after_payload, receive_version_negotiation_packet, send_close,
}
use aioquic.Connection.Closing.Timer.{get_timer, handle_timer}

-- What holds in a state.
abbrev pub Orderly :
    QuicConnectionState
    → Option ℕ
    → Option ConnectionTerminated
    → Bool
    → List (Option ConnectionTerminated)
    → Type 0
Orderly first_flight close_at event pending events = (is_none event ≡ not pending) × (events ≡ [])
Orderly connected close_at event pending events = (is_none event ≡ not pending) × (events ≡ [])
Orderly closing close_at event pending events =
    (is_none close_at ≡ false) × (is_none event ≡ false) × (pending ≡ false) × (events ≡ [])
Orderly draining close_at event pending events =
    (is_none close_at ≡ false) × (is_none event ≡ false) × (pending ≡ false) × (events ≡ [])
Orderly terminated close_at event pending events =
    (close_at ≡ none) × (is_none event ≡ false) × (events ≡ event ∷ [])

-- The order of the states.
abbrev pub Precedes : QuicConnectionState → QuicConnectionState → Type 0
Precedes first_flight t = Unit
Precedes connected t = is_first_flight t ≡ false
Precedes closing t = (t ≡ closing) ⊎ (t ≡ terminated)
Precedes draining t = (t ≡ draining) ⊎ (t ≡ terminated)
Precedes terminated t = t ≡ terminated

module _ (alg : QuicCongestionControl) where
  -- A call of the application, or a part of the handling of a datagram. `connect` is called before
  -- the connection has ended; so is a Retry packet received (`_receive_retry_packet`), with which a
  -- client calls `_connect` again. Whatever else happens may change the loss recovery, the packet spaces
  -- and what is known of the peer.
  pub data Step (c : Closing alg) : Closing alg → Type 0 where
    closes : (event : ConnectionTerminated) → Step c (close alg event c)
    connects :
        (ticket : Option ℕ) (now : ℕ) (d : Closing alg)
        → is_end c.state ≡ false
        → connect alg ticket now c ≡ ok d
        → Step c d
    starts : (now : ℕ) → Step c (receive_datagram_start alg now c)
    decrypts : Step c (update_state alg c)
    reads_close :
        (frame_type : ℕ) (b b' : Buffer) (now : ℕ) (d : Closing alg)
        → handle_connection_close_frame alg frame_type b now c ≡ ok (d, b')
        → Step c d
    finishes :
        (error : Option ConnectionTerminated) (now : ℕ) → Step c (after_payload alg error now c)
    negotiates :
        (theirs : List ℕ) (ticket : Option ℕ) (now : ℕ)
        → Step c (receive_version_negotiation_packet alg theirs ticket now c)
    retries :
        (ticket : Option ℕ) (now : ℕ)
        → c.is_client ≡ true
        → is_end c.state ≡ false
        → Step c (start_handshake alg ticket now c)
    sends_close :
        (epochs : List (Epoch × ℕ)) (now : ℕ) (b b' : Buffer) (d : Closing alg)
        → send_close alg epochs now b c ≡ ok (d, b')
        → Step c d
    asks : (out : Result (Option ℕ)) (d : Closing alg) → get_timer alg c ≡ (out, d) → Step c d
    fires :
        (now : ℕ) (out : Result (List Report)) (d : Closing alg)
        → handle_timer alg now c ≡ (out, d)
        → Step c d
    works :
        (loss : QuicPacketRecovery alg) (spaces : List QuicPacketSpace)
        (pacing_at remote : Option ℕ) (probe_pending validated : Bool)
        → Step c (record c {
          loss = loss;
          spaces = spaces;
          pacing_at = pacing_at;
          remote_max_idle_timeout = remote;
          probe_pending = probe_pending;
          peer_completed_address_validation = validated;
        })

  pub data Reach (c : Closing alg) : Closing alg → Type 0 where
    here : Reach c c
    next : {d e : Closing alg} → Reach c d → Step d e → Reach c e

  abbrev pub IsOrderly : Closing alg → Type 0
  IsOrderly c = Orderly c.state c.close_at c.close_event c.close_pending c.events

  pub record IsLater (c d : Closing alg) : Type 0 where
    pub order : Precedes c.state d.state
    pub kept :
        (is_first_flight c.state ≡ true) ⊎ (c.close_event ≡ none) ⊎ (d.close_event ≡ c.close_event)
