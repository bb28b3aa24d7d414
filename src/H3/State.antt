-- ===== src/H3/State.antt =====
-- The objects of src/aioquic/h3/connection.py: H3Stream, H3Connection and what they use of
-- QuicConnection. The encoder and the decoder of pylsqpack are parameters, with their states.
use aioquic.Base.{
  ℕ, ◌+◌, ◌/◌, ◌%◌, Bool, true, false, not, ◌&&◌, Option, none, some, List, [], ◌∷◌, ◌++◌, ◌==◌,
  if◌then◌else◌,
}
use aioquic.Base.Exception.{Result, ok, raise, type_error}
use aioquic.Base.Run.{Run, modify, throw}
use aioquic.H3.{Headers, frame_unexpected}
use aioquic.H3.Settings.{Settings}

-- What `feed_header` and `resume_header` of a pylsqpack.Decoder do: they raise StreamBlocked or
-- DecompressionFailed, or return the bytes for the decoder stream and the headers.
pub data Decoded : Type 0 where
  blocked failed : Decoded
  decoded : List ℕ → Headers → Decoded

-- pylsqpack.Decoder and pylsqpack.Encoder, with states D and E.
pub record Qpack (D E : Type 0) : Type 0 where
  pub feed_header : D → ℕ → List ℕ → Decoded × D
  pub resume_header : D → ℕ → Decoded × D
  -- The streams that are unblocked, or EncoderStreamError.
  pub feed_encoder : D → List ℕ → Option (List ℕ) × D
  -- The bytes for the encoder stream and the block of headers.
  pub encode : E → ℕ → Headers → (List ℕ × List ℕ) × E
  -- false for DecoderStreamError
  pub feed_decoder : E → List ℕ → Bool × E
  -- max_table_capacity and blocked_streams, and the bytes for the encoder stream
  pub apply_settings : E → ℕ → ℕ → List ℕ × E

-- A call of the QuicConnection.
pub data Call : Type 0 where
  -- stream_id, data, end_stream
  sends_stream_data : ℕ → List ℕ → Bool → Call
  sends_datagram_frame : List ℕ → Call
  -- error_code
  closes : ℕ → Call

-- The part of a QuicConnection that HTTP/3 uses, and the calls that were made of it.
pub record Quic : Type 0 where
  pub is_client : Bool
  pub local_next_stream_id_bidi : ℕ
  pub local_next_stream_id_uni : ℕ
  pub remote_max_datagram_frame_size : Option ℕ
  pub calls : List Call

-- `stream_id & 2`
abbrev pub stream_is_unidirectional : ℕ → Bool
stream_is_unidirectional stream_id = stream_id / 2 % 2 == 1

-- `not (stream_id & 1)`
abbrev pub stream_is_client_initiated : ℕ → Bool
stream_is_client_initiated stream_id = stream_id % 2 == 0

abbrev pub stream_is_request_response : ℕ → Bool
stream_is_request_response stream_id = stream_id % 4 == 0

unfoldable pub get_next_available_stream_id : Quic → Bool → ℕ
get_next_available_stream_id quic is_unidirectional =
    if is_unidirectional then quic.local_next_stream_id_uni else quic.local_next_stream_id_bidi

-- HeadersState
pub data HeadersState : Type 0 where
  initial after_headers after_trailers : HeadersState

abbrev pub is_initial : HeadersState → Bool
is_initial initial = true
is_initial after_headers = false
is_initial after_trailers = false

abbrev pub is_after_headers : HeadersState → Bool
is_after_headers initial = false
is_after_headers after_headers = true
is_after_headers after_trailers = false

abbrev pub is_after_trailers : HeadersState → Bool
is_after_trailers initial = false
is_after_trailers after_headers = false
is_after_trailers after_trailers = true

-- The state after a HEADERS frame.
abbrev pub next_headers_state : HeadersState → HeadersState
next_headers_state state = if is_initial state then after_headers else after_trailers

pub record H3Stream : Type 0 where
  pub blocked : Bool
  pub blocked_frame_size : Option ℕ
  pub buffer : List ℕ
  pub receiving_ended : Bool
  pub sending_ended : Bool
  pub frame_size : Option ℕ
  pub frame_type : Option ℕ
  pub headers_recv_state : HeadersState
  pub headers_send_state : HeadersState
  pub push_id : Option ℕ
  pub session_id : Option ℕ
  pub stream_id : ℕ
  pub stream_type : Option ℕ
  pub expected_content_length : Option ℕ
  pub content_length : ℕ

abbrev pub new_stream : ℕ → H3Stream
new_stream stream_id = record {
  blocked = false;
  blocked_frame_size = none;
  buffer = [];
  receiving_ended = false;
  sending_ended = false;
  frame_size = none;
  frame_type = none;
  headers_recv_state = initial;
  headers_send_state = initial;
  push_id = none;
  session_id = none;
  stream_id = stream_id;
  stream_type = none;
  expected_content_length = none;
  content_length = 0;
}

abbrev pub is_ended : H3Stream → Bool
is_ended s = s.sending_ended && (s.receiving_ended && not s.blocked)

unfoldable pub finish_sending : H3Stream → Result H3Stream
finish_sending s =
    if s.sending_ended then raise frame_unexpected else ok (record s { sending_ended = true })

-- The dictionary of streams.
abbrev pub Streams : Type 0
Streams = List (ℕ × H3Stream)

abbrev pub find : ℕ → Streams → Option H3Stream
find stream_id [] = none
find stream_id ((id, s) ∷ streams) = if stream_id == id then some s else find stream_id streams

abbrev pub put : ℕ → H3Stream → Streams → Streams
put stream_id s [] = (stream_id, s) ∷ []
put stream_id s ((id, t) ∷ streams) =
    let rest = put stream_id s streams in
    if stream_id == id then (id, s) ∷ streams else (id, t) ∷ rest

abbrev pub pop : ℕ → Streams → Streams
pop stream_id [] = []
pop stream_id ((id, t) ∷ streams) =
    let rest = pop stream_id streams in if stream_id == id then rest else (id, t) ∷ rest

pub record H3Connection (D E : Type 0) : Type 0 where
  pub max_table_capacity : ℕ
  pub blocked_streams : ℕ
  pub enable_webtransport : Bool
  pub is_client : Bool
  pub is_done : Bool
  pub quic : Quic
  pub decoder : D
  pub decoder_bytes_received : ℕ
  pub decoder_bytes_sent : ℕ
  pub encoder : E
  pub encoder_bytes_received : ℕ
  pub encoder_bytes_sent : ℕ
  pub settings_received : Bool
  pub streams : Streams
  pub max_push_id : Option ℕ
  pub next_push_id : ℕ
  pub local_control_stream_id : Option ℕ
  pub local_decoder_stream_id : Option ℕ
  pub local_encoder_stream_id : Option ℕ
  pub peer_control_stream_id : Option ℕ
  pub peer_decoder_stream_id : Option ℕ
  pub peer_encoder_stream_id : Option ℕ
  pub received_settings : Option Settings
  pub sent_settings : Option Settings

-- What a handler works on: the connection, and the stream that it was called for.
pub record Handling (D E : Type 0) : Type 0 where
  pub connection : H3Connection D E
  pub stream : H3Stream

-- `self._quic.send_stream_data(stream_id, data, end_stream)` for a stream that may be new: the
-- next identifier of its kind is then the one after it.
abbrev pub sent : Quic → ℕ → List ℕ → Bool → Quic
sent quic stream_id bytes end_stream =
    let call = sends_stream_data stream_id bytes end_stream in
    if stream_id == quic.local_next_stream_id_uni
    then record quic { local_next_stream_id_uni = stream_id + 4; calls = quic.calls ++ (call ∷ []) }
    else if stream_id == quic.local_next_stream_id_bidi
    then record quic {
      local_next_stream_id_bidi = stream_id + 4;
      calls = quic.calls ++ (call ∷ []);
    }
    else record quic { calls = quic.calls ++ (call ∷ []) }

module _ {D E : Type 0} where
  abbrev pub send_stream_data : ℕ → List ℕ → Bool → Run (H3Connection D E) (Unit {0})
  send_stream_data stream_id bytes end_stream =
      modify (λ c. record c { quic = sent c.quic stream_id bytes end_stream })

  -- On a stream of the connection's own, which `__init__` created.
  abbrev pub send_local : Option ℕ → List ℕ → Run (H3Connection D E) (Unit {0})
  send_local none bytes = throw type_error
  send_local (some stream_id) bytes = send_stream_data stream_id bytes false

  -- A call that does not use the stream.
  abbrev pub on_connection {ℓ} : {A : Type ℓ} → Run (H3Connection D E) A → Run (Handling D E) A
  on_connection m = λ h. let (r, c) = m h.connection in (r, record h { connection = c })

  abbrev pub modify_stream : (H3Stream → H3Stream) → Run (Handling D E) (Unit {0})
  modify_stream f = modify (λ h. record h { stream = f h.stream })
