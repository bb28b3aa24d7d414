-- ===== src/H3/Examples.antt =====
-- HTTP/3 (src/aioquic/h3/connection.py) at concrete inputs, with a toy in place of pylsqpack: an
-- empty block of headers is blocked, another one is the response `:status: 200` with a content
-- length of 3.
use aioquic.Base.{
  ℕ, Bool, true, false, Option, none, some, List, [], ◌∷◌, ◌≡◌, refl, ◌≢◌, ◌⊎◌, arith, length, ◌+◌,
  ◌*◌, if◌then◌else◌, inl,
}
use aioquic.Base.Exception.{◌>>=◌, ok, raise, protocol_error}
use aioquic.Base.Bytes.{int, strip_front, strip_back, int_digits, int_signed}
use aioquic.Buffer.{new, pull_uint_var, pull_bytes, push_uint_var, push_bytes, encode_uint_var}
use aioquic.H3.{Headers, H3Event, headers_received, data_received, message_error}
use aioquic.H3.Name
use aioquic.H3.Headers.{
  validate_headers, validate_response_headers, validate_each, validate_header, validate_header_name,
  validate_name_from, validate_header_value, no_forbidden, validate_ends, validate_pseudo_header,
  validate_regular_header, store_value, content_length_of, includes, is_empty, is_http,
}
use aioquic.H3.Request.{
  handle_request_or_push_frame, handle_headers, decode_headers, validate_first, check_at_end,
  check_content_length, handle_data,
}
use aioquic.H3.Frames.{
  receive_request_or_push_data, receive_frames, receive_round, fetch_header, receive_payload,
  receive_all, trim, receive_fragment, receive_fin,
}
use aioquic.H3.Headers.Valid.{IsValid, validate_headers_lem}
use aioquic.H3.State.{
  Qpack, Decoded, blocked, decoded, closes, find, get_next_available_stream_id, H3Connection,
  Handling, new_stream,
}
use aioquic.H3.Settings.{
  Settings, encode_settings, parse_settings, parse_from, encode_frame, validate_settings,
  pull_frame,
}
use aioquic.H3.Settings.RoundTrip.{parse-encode_settings}
use aioquic.H3.Frames.Rounds.{Ends, receive_frames-terminates}
use aioquic.H3.Control.{handle_control_frame, receive_settings, apply_settings}
use aioquic.H3.Control.Order.{Ordered, handle_control_frame-Ordered}
use aioquic.H3.Uni.{
  receive_stream_data_uni, receive_turns, receive_turn, fetch_type, claim_type, receive_typed,
  receive_control,
}
use aioquic.H3.Connection.{
  QuicEvent, stream_data_received, dispatch, handle_event, resume_stream, receive_stream_data,
  open_stream, close_stream, receive_uni,
}
use aioquic.H3.Connection.Streams.{IsLive, Closes, receives, sends, streams-IsLive}
use aioquic.H3.Errors.{closed, handle_event-errors}
use aioquic.H3.Sending.{send_headers, send_push_promise, encode_headers, create_uni_stream}
use aioquic.H3.Sending.Push.{Pushed, send_push_promise-Pushed}
use aioquic.H3.Message.{Steps, view}
use aioquic.H3.Message.Views.{IsOrdered}
use aioquic.H3.Message.Stream.{
  Piece, arrives, resumes, receive_piece, receive_pieces, receive_pieces-Steps,
}

abbrev response : Headers
response = (Name.status, 50 ∷ 48 ∷ 48 ∷ []) ∷ (Name.content_length, 51 ∷ []) ∷ []

abbrev toy_decode : List ℕ → Decoded
toy_decode [] = blocked
toy_decode (b ∷ bytes) = decoded [] response

abbrev toy : Qpack ℕ ℕ
toy = record {
  feed_header = λ d stream_id bytes. (toy_decode bytes, d);
  resume_header = λ d stream_id. (decoded [] response, d);
  feed_encoder = λ d bytes. (some [], d);
  encode = λ e stream_id headers. (([], 1 ∷ 2 ∷ []), e);
  feed_decoder = λ e bytes. (true, e);
  apply_settings = λ e capacity streams. ([], e);
}

-- A connection after `__init__`, at either end.
abbrev connection : Bool → H3Connection ℕ ℕ
connection is_client = record {
  max_table_capacity = 4096;
  blocked_streams = 16;
  enable_webtransport = false;
  is_client = is_client;
  is_done = false;
  quic = record {
    is_client = is_client;
    local_next_stream_id_bidi = if is_client then 0 else 1;
    local_next_stream_id_uni = if is_client then 14 else 15;
    remote_max_datagram_frame_size = none;
    calls = [];
  };
  decoder = 0;
  decoder_bytes_received = 0;
  decoder_bytes_sent = 0;
  encoder = 0;
  encoder_bytes_received = 0;
  encoder_bytes_sent = 0;
  settings_received = false;
  streams = [];
  max_push_id = if is_client then some 8 else none;
  next_push_id = 0;
  local_control_stream_id = some (if is_client then 2 else 3);
  local_decoder_stream_id = some (if is_client then 10 else 11);
  local_encoder_stream_id = some (if is_client then 6 else 7);
  peer_control_stream_id = none;
  peer_decoder_stream_id = none;
  peer_encoder_stream_id = none;
  received_settings = none;
  sent_settings = none;
}

-- HEADERS, and a DATA frame of three bytes in two pieces.
abbrev pieces : List Piece
pieces = arrives (1 ∷ 1 ∷ 7 ∷ 0 ∷ 3 ∷ 10 ∷ 11 ∷ []) false ∷ arrives (12 ∷ []) true ∷ []

abbrev start : Handling ℕ ℕ
start = record { connection = connection true; stream = new_stream 0 }

abbrev received : List H3Event
received =
    headers_received response none 0 false
    ∷ data_received (10 ∷ 11 ∷ []) none 0 false
    ∷ data_received (12 ∷ []) none 0 true
    ∷ []

received-pieces :
    receive_pieces toy pieces start ≡ (ok received, (receive_pieces toy pieces start).1)
unfolding receive_pieces receive_piece receive_request_or_push_data receive_frames receive_round
    fetch_header pull_uint_var receive_payload pull_bytes handle_request_or_push_frame
    handle_headers decode_headers validate_first validate_response_headers validate_headers
    validate_each validate_header validate_header_name validate_name_from validate_header_value
    no_forbidden validate_ends validate_pseudo_header validate_regular_header store_value
    content_length_of int strip_front strip_back int_digits int_signed includes is_empty is_http
    check_at_end check_content_length handle_data trim receive_fragment receive_fin
received-pieces = refl

-- The headers are blocked at first; the content follows when they are resumed.
resumed-pieces :
    (receive_pieces toy (arrives (1 ∷ 0 ∷ 0 ∷ 3 ∷ 10 ∷ 11 ∷ 12 ∷ []) true ∷ resumes ∷ []) start).0
    ≡ ok (
        headers_received response none 0 false ∷ data_received (10 ∷ 11 ∷ 12 ∷ []) none 0 true ∷ [])
unfolding receive_pieces receive_piece receive_request_or_push_data receive_frames receive_round
    fetch_header pull_uint_var receive_payload pull_bytes handle_request_or_push_frame
    handle_headers decode_headers validate_first validate_response_headers validate_headers
    validate_each validate_header validate_header_name validate_name_from validate_header_value
    no_forbidden validate_ends validate_pseudo_header validate_regular_header store_value
    content_length_of int strip_front strip_back int_digits int_signed includes is_empty is_http
    check_at_end check_content_length handle_data trim receive_fragment receive_fin resume_stream
resumed-pieces = refl

validate_headers_lem_example :
    (validate_headers (Name.status ∷ []) (Name.status ∷ []) response none ≡ raise message_error)
    ⊎ ((expected : Option ℕ) × (validate_headers (Name.status ∷ []) (Name.status ∷ []) response none
          ≡ ok expected)
        × IsValid (Name.status ∷ []) (Name.status ∷ []) response none expected)
validate_headers_lem_example =
    validate_headers_lem (Name.status ∷ []) (Name.status ∷ []) response none

receive_pieces-Steps_example :
    Steps (view (new_stream 0)) received (view (receive_pieces toy pieces start).1.stream)
    × IsOrdered (receive_pieces toy pieces start).1.stream
receive_pieces-Steps_example =
    receive_pieces-Steps toy pieces received start (receive_pieces toy pieces start).1 (inl refl)
      received-pieces

-- Settings, as a client sends them.
abbrev settings : Settings
settings = (0x1, 4096) ∷ (0x7, 16) ∷ (0x8, 1) ∷ (0x21, 1) ∷ []

parse-encode_settings_example : (encode_settings settings >>= parse_settings) ≡ ok settings
parse-encode_settings_example =
    parse-encode_settings settings (ground arith) (ground arith) (omega arith)

abbrev buffered : Handling ℕ ℕ
buffered = record start { stream = record (new_stream 0) { buffer = 1 ∷ 1 ∷ 7 ∷ 0 ∷ 1 ∷ 10 ∷ [] } }

receive_frames-terminates_example :
    Ends toy true (new buffered.stream.buffer) 0 [] buffered (receive_all toy true buffered)
    × (receive_frames toy
          (2 * length buffered.stream.buffer + 1 + 5)
          (new buffered.stream.buffer)
          0
          true
          []
          buffered
        ≡ receive_all toy true buffered)
receive_frames-terminates_example = receive_frames-terminates toy 5 true buffered

-- A DATA frame on the server's control stream, where the settings have to come first.
abbrev unexpected : QuicEvent
unexpected =
    stream_data_received (record { bytes = 0 ∷ 0 ∷ 0 ∷ []; end_stream = false; stream_id = some 3 })

handle_event-errors_example :
    ((code : ℕ) × ((dispatch toy unexpected (connection true)).0 ≡ raise (protocol_error code))
      × (handle_event toy unexpected (connection true)
          ≡ (ok [], closed (dispatch toy unexpected (connection true)).1 code))
      × ((later : QuicEvent)
          → handle_event toy later (handle_event toy unexpected (connection true)).1
            ≡ (ok [], (handle_event toy unexpected (connection true)).1)))
    ⊎ (((code : ℕ)
          → (handle_event toy unexpected (connection true)).0 ≢ raise (protocol_error code))
        × (handle_event toy unexpected (connection true)
            ≡ dispatch toy unexpected (connection true)))
handle_event-errors_example = handle_event-errors toy unexpected (connection true) refl

-- The event closes the connection with H3_MISSING_SETTINGS.
closes_connection : (handle_event toy unexpected (connection true)).1.quic.calls ≡ closes 0x10A ∷ []
unfolding handle_event receive_stream_data open_stream close_stream receive_uni
    receive_stream_data_uni receive_turns receive_turn fetch_type pull_uint_var claim_type
    receive_typed receive_control pull_frame pull_bytes handle_control_frame
closes_connection = refl

accepted :
    handle_control_frame toy 0x4 (7 ∷ 16 ∷ []) (connection true)
    ≡ (ok tt, (handle_control_frame toy 0x4 (7 ∷ 16 ∷ []) (connection true)).1)
unfolding handle_control_frame receive_settings parse_settings parse_from pull_uint_var
    validate_settings apply_settings
accepted = refl

handle_control_frame-Ordered_example :
    Ordered 0x4
      (7 ∷ 16 ∷ [])
      (connection true)
      tt
      (handle_control_frame toy 0x4 (7 ∷ 16 ∷ []) (connection true)).1
handle_control_frame-Ordered_example =
    handle_control_frame-Ordered toy 0x4 (7 ∷ 16 ∷ []) (connection true)
      (handle_control_frame toy 0x4 (7 ∷ 16 ∷ []) (connection true)).1 accepted

streams-IsLive_example :
    IsLive (find 0 (receive_stream_data toy 0 (1 ∷ 1 ∷ 7 ∷ []) true (connection false)).1.streams)
    × Closes
        (find 0 (receives toy 0 (1 ∷ 1 ∷ 7 ∷ []) true (open_stream 0 (connection false))).1.streams)
        (find 0 (receive_stream_data toy 0 (1 ∷ 1 ∷ 7 ∷ []) true (connection false)).1.streams)
    × IsLive (find 0 (send_headers toy 0 response true (connection false)).1.streams)
    × Closes
        (find 0 (sends toy 0 response true (open_stream 0 (connection false))).1.streams)
        (find 0 (send_headers toy 0 response true (connection false)).1.streams)
streams-IsLive_example = streams-IsLive toy 0 (1 ∷ 1 ∷ 7 ∷ []) true response (connection false)

abbrev server : H3Connection ℕ ℕ
server = record (connection false) { max_push_id = some 1 }

pushed :
    send_push_promise toy 0 response server ≡ (ok 15, (send_push_promise toy 0 response server).1)
unfolding send_push_promise encode_headers encode_uint_var push_uint_var push_bytes encode_frame
    create_uni_stream get_next_available_stream_id
pushed = refl

send_push_promise-Pushed_example :
    Pushed toy 0 response server 15 (send_push_promise toy 0 response server).1
send_push_promise-Pushed_example =
    send_push_promise-Pushed toy 0 15 response server (send_push_promise toy 0 response server).1
      pushed
