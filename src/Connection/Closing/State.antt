-- ===== src/Connection/Closing/State.antt =====
-- The part of a QuicConnection that is about its end, and the operations that close it
-- (src/aioquic/quic/connection.py). `events` holds the values of `_close_event` that were put in
-- `_events`; those that the application took are kept.
use aioquic.Base.{
  ℕ, ◌+◌, ◌*◌, Bool, true, false, not, ◌&&◌, ◌||◌, Option, none, some, List, [], ◌∷◌, ◌++◌, min,
  max, is_none, is_in, if◌then◌else◌,
}
use aioquic.Base.Exception.{
  Result, ok, raise, ensure, assertion_error, attribute_error, index_error, ◌>>=◌, ◌>>◌,
}
use aioquic.Buffer.{Buffer}
use aioquic.Congestion.{QuicCongestionControl}
use aioquic.Recovery.Rtt.{get_probe_timeout}
use aioquic.Recovery.Space.{QuicPacketSpace, QuicPacketRecovery, discard_space, new_space}
use aioquic.Connection.Closing.Frame.{
  Epoch, ConnectionTerminated, pull_connection_close, write_connection_close_frame,
}

pub data QuicConnectionState : Type 0 where
  first_flight connected closing draining terminated : QuicConnectionState

-- `END_STATES`
abbrev pub is_end : QuicConnectionState → Bool
is_end first_flight = false
is_end connected = false
is_end _ = true

abbrev pub is_first_flight : QuicConnectionState → Bool
is_first_flight first_flight = true
is_first_flight _ = false

abbrev smaller_idle : Option ℕ → ℕ → ℕ
smaller_idle none timeout = timeout
smaller_idle (some remote) timeout = min timeout remote

abbrev remember : Option ℕ → Option ℕ → Option ℕ
remember none known = known
remember (some timeout) known = some timeout

-- The version that a client starts with.
abbrev first_version : Option ℕ → List ℕ → Result ℕ
first_version (some version) versions = ok version
first_version none [] = raise index_error
first_version none (version ∷ versions) = ok version

abbrev pub first_common : List ℕ → List ℕ → Option ℕ
first_common [] theirs = none
first_common (version ∷ versions) theirs =
    if is_in version theirs then some version else first_common versions theirs

abbrev pub no_common_version : ConnectionTerminated
no_common_version = record {
  error_code = 0x1;
  frame_type = some 0x0;
  reason_phrase =
      67 ∷ 111 ∷ 117 ∷ 108 ∷ 100 ∷ 32 ∷ 110 ∷ 111 ∷ 116 ∷ 32 ∷ 102 ∷ 105 ∷ 110 ∷ 100 ∷ 32 ∷ 97 ∷ 32
      ∷ 99 ∷ 111 ∷ 109 ∷ 109 ∷ 111 ∷ 110 ∷ 32 ∷ 112 ∷ 114 ∷ 111 ∷ 116 ∷ 111 ∷ 99 ∷ 111 ∷ 108 ∷ 32
      ∷ 118 ∷ 101 ∷ 114 ∷ 115 ∷ 105 ∷ 111 ∷ 110 ∷ [];
}

-- The frames that `datagrams_to_send` writes, for the epochs whose keys are valid: each with the
-- space that is left for its packet.
abbrev pub write_closes : List (Epoch × ℕ) → ConnectionTerminated → Buffer → Result Buffer
write_closes [] event b = ok b
write_closes ((epoch, space) ∷ epochs) event b =
    write_connection_close_frame space epoch event b >>= write_closes epochs event

module _ (algorithm : QuicCongestionControl) where
  pub record Closing : Type 0 where
    pub is_client : Bool
    pub connect_called : Bool
    pub original_version : Option ℕ
    pub supported_versions : List ℕ
    pub version : ℕ
    pub version_negotiated_incompatible : Bool
    pub packet_number : ℕ
    pub state : QuicConnectionState
    pub close_at : Option ℕ
    pub close_event : Option ConnectionTerminated
    pub close_pending : Bool
    pub events : List (Option ConnectionTerminated)
    pub loss_at : Option ℕ
    pub pacing_at : Option ℕ
    pub probe_pending : Bool
    pub peer_completed_address_validation : Bool
    pub idle_timeout : ℕ  -- of the configuration
    pub remote_max_idle_timeout : Option ℕ
    pub loss : QuicPacketRecovery algorithm
    pub spaces : List QuicPacketSpace

  abbrev pub close : ConnectionTerminated → Closing → Closing
  close event c =
      if is_none c.close_event && not (is_end c.state)
      then record c { close_event = some event; close_pending = true }
      else c

  abbrev pub close_begin : Bool → ℕ → Closing → Closing
  close_begin is_initiator now c = record c {
    close_at = some (now + 3 * get_probe_timeout c.loss.rtt);
    state = if is_initiator then closing else draining;
  }

  -- `_discard_epoch` of the space of an epoch, but for its keys.
  abbrev pub discard_epoch :
      QuicPacketRecovery algorithm
      → QuicPacketSpace
      → QuicPacketRecovery algorithm × QuicPacketSpace
  discard_epoch r space =
      if space.discarded
      then (r, space)
      else (let (r', space') = discard_space algorithm r space in
          (r', record space' { discarded = true }))

  abbrev pub discard_epochs :
      QuicPacketRecovery algorithm
      → List QuicPacketSpace
      → QuicPacketRecovery algorithm × List QuicPacketSpace
  discard_epochs r [] = (r, [])
  discard_epochs r (space ∷ spaces) =
      let first = discard_epoch r space in
      let rest = discard_epochs first.0 spaces in (rest.0, first.1 ∷ rest.1)

  abbrev pub close_end : Closing → Closing
  close_end c = record c {
    close_at = none;
    loss = (discard_epochs c.loss c.spaces).0;
    spaces = (discard_epochs c.loss c.spaces).1;
    events = c.events ++ (c.close_event ∷ []);
    state = terminated;
  }

  unfoldable pub handle_connection_close_frame :
      ℕ → Buffer → ℕ → Closing → Result (Closing × Buffer)
  handle_connection_close_frame frame_type b now c = do
    (event, b) ← pull_connection_close frame_type b
    ok (
      (if is_none c.close_event
          then close_begin false now (record c { close_event = some event })
          else c),
      b,
    )

  -- `_idle_timeout`
  abbrev pub idle_timeout_of : Closing → ℕ
  idle_timeout_of c =
      max (smaller_idle c.remote_max_idle_timeout c.idle_timeout) (3 * get_probe_timeout c.loss.rtt)

  -- The start of `receive_datagram`, which arms the idle timeout of a server.
  abbrev pub receive_datagram_start : ℕ → Closing → Closing
  receive_datagram_start now c =
      if is_end c.state || not (is_none c.close_at)
      then c
      else record c { close_at = some (now + idle_timeout_of c) }

  -- A packet was decrypted.
  abbrev pub update_state : Closing → Closing
  update_state c = if is_first_flight c.state then record c { state = connected } else c

  -- What `receive_datagram` does when the payload was handled: the QuicConnectionError that it raised
  -- closes the connection; else the idle timeout is armed again.
  abbrev close_on_error : Option ConnectionTerminated → Closing → Closing
  close_on_error none c = c
  close_on_error (some event) c = close event c

  abbrev arm_idle : ℕ → Closing → Closing
  arm_idle now c =
      if is_end c.state || c.close_pending
      then c
      else record c { close_at = some (now + idle_timeout_of c) }

  abbrev pub after_payload : Option ConnectionTerminated → ℕ → Closing → Closing
  after_payload error now c = arm_idle now (close_on_error error c)

  abbrev pub send_event :
      Option ConnectionTerminated
      → List (Epoch × ℕ)
      → ℕ
      → Buffer
      → Closing
      → Result (Closing × Buffer)
  send_event none epochs now b c = raise attribute_error
  send_event (some event) epochs now b c = write_closes epochs event b >>= λ b'.
      ok (close_begin true now (record c { close_pending = false }), b')

  -- The branch of `datagrams_to_send` for a connection that is to be closed.
  abbrev pub send_close : List (Epoch × ℕ) → ℕ → Buffer → Closing → Result (Closing × Buffer)
  send_close epochs now b c =
      if is_end c.state || not c.close_pending
      then ok (c, b)
      else send_event c.close_event epochs now b c

  -- `_connect`, with `_initialize`: the parts of TLS and the keys are left out. `ticket` is the
  -- idle timeout of the transport parameters in a session ticket that is used.
  abbrev pub start_handshake : Option ℕ → ℕ → Closing → Closing
  start_handshake ticket now c = record c {
    close_at = some (now + idle_timeout_of c);
    remote_max_idle_timeout = remember ticket c.remote_max_idle_timeout;
    spaces = new_space ∷ new_space ∷ new_space ∷ [];
  }

  unfoldable pub connect : Option ℕ → ℕ → Closing → Result Closing
  connect ticket now c = do
    ensure (c.is_client && not c.connect_called) assertion_error
    version ← first_version c.original_version c.supported_versions
    ok (start_handshake ticket now (record c { connect_called = true; version = version }))

  abbrev pub choose_version : Option ℕ → Option ℕ → ℕ → Closing → Closing
  choose_version none ticket now c = close_end (record c { close_event = some no_common_version })
  choose_version (some version) ticket now c =
      start_handshake ticket now
        (record c { packet_number = 0; version = version; version_negotiated_incompatible = true })

  -- The versions are those of the packet's header.
  unfoldable pub receive_version_negotiation_packet : List ℕ → Option ℕ → ℕ → Closing → Closing
  receive_version_negotiation_packet theirs ticket now c =
      if c.is_client && (is_first_flight c.state && not c.version_negotiated_incompatible)
      then (if is_in c.version theirs
          then c
          else choose_version (first_common c.supported_versions theirs) ticket now c)
      else c
