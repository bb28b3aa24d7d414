-- ===== src/H3/Sending.antt =====
-- What an H3Connection sends (src/aioquic/h3/connection.py): __init__ with _init_connection,
-- send_headers, send_data, send_push_promise, send_datagram and create_webtransport_stream.
pub mod Push
use aioquic.Base.{
  ℕ, zero, suc, ◌+◌, ◌/◌, Bool, true, false, not, ◌&&◌, Option, none, some, List, [], ◌∷◌, ◌++◌,
  leb, if◌then◌else◌, length,
}
use aioquic.Base.Exception.{
  Result, ok, raise, assertion_error, invalid_stream_type_error, no_available_push_id_error,
}
use aioquic.Base.Run.{Run, ◌>>=◌, ◌>>◌, get, modify, throw, refuse, return, lift}
use aioquic.H3.{Headers, frame_unexpected}
use aioquic.H3.Settings.{Settings, encode_frame, encode_settings, uint_var_of}
use aioquic.H3.State.{
  Qpack, Quic, sends_datagram_frame, H3Connection, Handling, finish_sending, send_stream_data,
  send_local, on_connection, modify_stream, get_next_available_stream_id,
  stream_is_request_response, is_after_headers, is_after_trailers, next_headers_state,
}
use aioquic.H3.Connection.{with_stream, at_stream}

module _ {D E : Type 0} where
  -- The stream's type is the first that is sent.
  unfoldable pub create_uni_stream : ℕ → Run (H3Connection D E) ℕ
  create_uni_stream stream_type = do
    c ← get
    let stream_id = get_next_available_stream_id c.quic true
    bytes ← lift (uint_var_of stream_type)
    send_stream_data stream_id bytes false
    return stream_id

  unfoldable pub get_local_settings : H3Connection D E → Settings
  get_local_settings c =
      (0x1, c.max_table_capacity)
      ∷ (0x7, c.blocked_streams)
      ∷ (0x8, 1)
      ∷ (0x21, 1)
      ∷ (if c.enable_webtransport then (0x33, 1) ∷ (0x2B603742, 1) ∷ [] else [])

  unfoldable pub send_max_push_id : ℕ → Option ℕ → Run (H3Connection D E) (Unit {0})
  send_max_push_id control none = return tt
  send_max_push_id control (some max_push_id) = do
    bytes ← lift (uint_var_of max_push_id)
    frame ← lift (encode_frame 0xD bytes)
    send_stream_data control frame false

  unfoldable pub init_connection : Run (H3Connection D E) (Unit {0})
  init_connection = do
    control ← create_uni_stream 0x0
    modify (λ c. record c { local_control_stream_id = some control })
    modify (λ c. record c { sent_settings = some (get_local_settings c) })
    c ← get
    bytes ← lift (encode_settings (get_local_settings c))
    frame ← lift (encode_frame 0x4 bytes)
    send_stream_data control frame false
    if c.is_client then send_max_push_id control c.max_push_id else return tt
    encoder ← create_uni_stream 0x2
    modify (λ c. record c { local_encoder_stream_id = some encoder })
    decoder ← create_uni_stream 0x3
    modify (λ c. record c { local_decoder_stream_id = some decoder })

  -- `__init__`, with a new decoder and a new encoder.
  unfoldable pub init : Quic → Bool → D → E → H3Connection D E
  init quic enable_webtransport decoder encoder =
      (init_connection (record {
        max_table_capacity = 4096;
        blocked_streams = 16;
        enable_webtransport = enable_webtransport;
        is_client = quic.is_client;
        is_done = false;
        quic = quic;
        decoder = decoder;
        decoder_bytes_received = 0;
        decoder_bytes_sent = 0;
        encoder = encoder;
        encoder_bytes_received = 0;
        encoder_bytes_sent = 0;
        settings_received = false;
        streams = [];
        max_push_id = if quic.is_client then some 8 else none;
        next_push_id = 0;
        local_control_stream_id = none;
        local_decoder_stream_id = none;
        local_encoder_stream_id = none;
        peer_control_stream_id = none;
        peer_decoder_stream_id = none;
        peer_encoder_stream_id = none;
        received_settings = none;
        sent_settings = none;
      })).1

  unfoldable pub send_datagram : ℕ → List ℕ → Run (H3Connection D E) (Unit {0})
  send_datagram stream_id bytes = do
    refuse (not (stream_is_request_response stream_id)) invalid_stream_type_error
    quarter ← lift (uint_var_of (stream_id / 4))
    modify (λ c. record c {
      quic = record c.quic {
        calls = c.quic.calls ++ (sends_datagram_frame (quarter ++ bytes) ∷ []);
      };
    })

  unfoldable pub create_webtransport_stream : ℕ → Bool → Run (H3Connection D E) ℕ
  create_webtransport_stream session_id true = do
    stream_id ← create_uni_stream 0x54
    session ← lift (uint_var_of session_id)
    send_stream_data stream_id session false
    return stream_id
  create_webtransport_stream session_id false = do
    c ← get
    let stream_id = get_next_available_stream_id c.quic false
    frame_type ← lift (uint_var_of 0x41)
    session ← lift (uint_var_of session_id)
    send_stream_data stream_id (frame_type ++ session) false
    return stream_id

  -- `stream.finish_sending()` where the stream ends.
  unfoldable pub finish_if : Bool → Run (Handling D E) (Unit {0})
  finish_if false = return tt
  finish_if true = do h ← get; s ← lift (finish_sending h.stream); modify_stream (λ t. s)

  unfoldable pub allow_data : Bool → Run (Handling D E) (Unit {0})
  allow_data end_stream = do
    h ← get
    refuse (not (is_after_headers h.stream.headers_send_state)) frame_unexpected
    finish_if end_stream

  unfoldable pub send_data : ℕ → List ℕ → Bool → Run (H3Connection D E) (Unit {0})
  send_data stream_id bytes end_stream = do
    with_stream stream_id (at_stream stream_id (allow_data end_stream))
    frame ← lift (encode_frame 0x0 bytes)
    send_stream_data stream_id frame end_stream

  -- Whether there is no push identifier left.
  abbrev pub no_push_id : H3Connection D E → Bool
  no_push_id c = elim c.max_push_id [ none ↦ true | some n ↦ leb n c.next_push_id ]

module _ {D E : Type 0} (q : Qpack D E) where
  unfoldable pub encode_headers : ℕ → Headers → Run (H3Connection D E) (List ℕ)
  encode_headers stream_id headers = λ c.
      let ((bytes, frame_data), encoder) = q.encode c.encoder stream_id headers in
      (send_local c.local_encoder_stream_id bytes >> return frame_data)
        (record c { encoder = encoder; encoder_bytes_sent = c.encoder_bytes_sent + length bytes })

  unfoldable pub send_allowed_headers : ℕ → Headers → Bool → Run (Handling D E) (Unit {0})
  send_allowed_headers stream_id headers end_stream = do
    h ← get
    refuse (is_after_trailers h.stream.headers_send_state) frame_unexpected
    finish_if end_stream
    frame_data ← on_connection (encode_headers stream_id headers)
    modify_stream (λ s. record s { headers_send_state = next_headers_state s.headers_send_state })
    frame ← lift (encode_frame 0x1 frame_data)
    on_connection (send_stream_data stream_id frame end_stream)

  unfoldable pub send_headers : ℕ → Headers → Bool → Run (H3Connection D E) (Unit {0})
  send_headers stream_id headers end_stream =
      with_stream stream_id
        (at_stream stream_id (send_allowed_headers stream_id headers end_stream))

  unfoldable pub send_push_promise : ℕ → Headers → Run (H3Connection D E) ℕ
  send_push_promise stream_id headers = do
    c ← get
    refuse c.is_client assertion_error
    refuse (not (stream_is_request_response stream_id)) invalid_stream_type_error
    refuse (no_push_id c) no_available_push_id_error
    let push_id = c.next_push_id
    modify (λ c. record c { next_push_id = suc push_id })
    id_bytes ← lift (uint_var_of push_id)
    frame_data ← encode_headers stream_id headers
    frame ← lift (encode_frame 0x5 (id_bytes ++ frame_data))
    send_stream_data stream_id frame false
    push_stream_id ← create_uni_stream 0x1
    bytes ← lift (uint_var_of push_id)
    send_stream_data push_stream_id bytes false
    return push_stream_id
