-- ===== src/H3/Request.antt =====
-- Data of request and push streams in src/aioquic/h3/connection.py: _decode_headers,
-- _check_content_length, _handle_request_or_push_frame and _receive_request_or_push_data. Frame
-- types are their numbers; the log and the callback for the dynamic table are left out.
use aioquic.Base.{
  ℕ, ◌+◌, Bool, true, false, not, ◌&&◌, ◌||◌, Option, none, some, List, [], ◌∷◌, leb, ◌==◌,
  if◌then◌else◌, length, drop, is_none,
}
use aioquic.Base.Exception.{stream_blocked}
use aioquic.Base.Run.{Run, ◌>>=◌, ◌>>◌, get, modify, throw, refuse, return, lift}
use aioquic.Buffer.{new, tell, pull_uint_var}
use aioquic.H3.{
  Headers, H3Event, data_received, headers_received, push_promise_received, frame_unexpected,
  message_error, qpack_decompression_failed,
}
use aioquic.H3.Headers.{
  validate_push_promise_headers, validate_request_headers, validate_response_headers,
  validate_trailers,
}
use aioquic.H3.State.{
  Qpack, Decoded, blocked, failed, decoded, H3Stream, H3Connection, Handling, is_initial,
  is_after_headers, is_after_trailers, next_headers_state, send_local, on_connection, modify_stream,
}

abbrev pub is_empty : List ℕ → Bool
is_empty [] = true
is_empty (x ∷ xs) = false

-- `frame_data`, which is None for HEADERS that are resumed only.
abbrev pub bytes_of : Option (List ℕ) → List ℕ
bytes_of none = []
bytes_of (some bytes) = bytes

-- Whether the length that was declared differs from that of the data.
abbrev pub wrong_length : H3Stream → Bool
wrong_length s = elim s.expected_content_length [
  | none ↦ false
  | some n ↦ not (s.content_length == n)
]

-- The frame types of the last branch: PRIORITY, CANCEL_PUSH, SETTINGS, PUSH_PROMISE, GOAWAY,
-- MAX_PUSH_ID and DUPLICATE_PUSH.
abbrev pub is_refused : ℕ → Bool
is_refused frame_type =
    (leb 0x2 frame_type && leb frame_type 0x5)
    || ((frame_type == 0x7) || ((frame_type == 0xD) || (frame_type == 0xE)))

module _ {D E : Type 0} where
  unfoldable pub check_content_length : Run (Handling D E) (Unit {0})
  check_content_length = do h ← get; refuse (wrong_length h.stream) message_error

  -- `if stream_ended: self._check_content_length(stream)`
  unfoldable pub check_at_end : Bool → Run (Handling D E) (Unit {0})
  check_at_end stream_ended = if stream_ended then check_content_length else return tt

  unfoldable pub handle_data : List ℕ → Bool → Run (Handling D E) (List H3Event)
  handle_data frame_data stream_ended = do
    h ← get
    refuse (not (is_after_headers h.stream.headers_recv_state)) frame_unexpected
    modify_stream (λ s. record s { content_length = s.content_length + length frame_data })
    check_at_end stream_ended
    return (
        if stream_ended || not (is_empty frame_data)
        then data_received frame_data h.stream.push_id h.stream.stream_id stream_ended ∷ []
        else [])

  abbrev pub after_decode : Decoded → Run (H3Connection D E) Headers
  after_decode blocked = throw stream_blocked
  after_decode failed = throw qpack_decompression_failed
  after_decode (decoded bytes headers) = do
    modify (λ c. record c { decoder_bytes_sent = c.decoder_bytes_sent + length bytes })
    c ← get
    send_local c.local_decoder_stream_id bytes
    return headers

  -- The headers of a first HEADERS frame set the expected content length.
  unfoldable pub validate_first : Headers → Run (Handling D E) (Unit {0})
  validate_first headers = do
    h ← get
    expected ← lift (
        if h.connection.is_client
        then validate_response_headers headers h.stream.expected_content_length
        else validate_request_headers headers h.stream.expected_content_length)
    modify_stream (λ s. record s { expected_content_length = expected })

module _ {D E : Type 0} (q : Qpack D E) where
  -- What the decoder is called with: a frame, or none when the stream is no longer blocked.
  abbrev call_decoder : ℕ → Option (List ℕ) → D → Decoded × D
  call_decoder stream_id none decoder = q.resume_header decoder stream_id
  call_decoder stream_id (some frame_data) decoder = q.feed_header decoder stream_id frame_data

  unfoldable pub decode_headers : ℕ → Option (List ℕ) → Run (H3Connection D E) Headers
  decode_headers stream_id frame_data = λ c.
      let (result, decoder) = call_decoder stream_id frame_data c.decoder in
      after_decode result (record c { decoder = decoder })

  unfoldable pub handle_headers : Option (List ℕ) → Bool → Run (Handling D E) (List H3Event)
  handle_headers frame_data stream_ended = do
    h ← get
    refuse (is_after_trailers h.stream.headers_recv_state) frame_unexpected
    headers ← on_connection (decode_headers h.stream.stream_id frame_data)
    if is_initial h.stream.headers_recv_state
        then validate_first headers
        else lift (validate_trailers headers)
    check_at_end stream_ended
    modify_stream (λ s. record s { headers_recv_state = next_headers_state s.headers_recv_state })
    return (headers_received headers h.stream.push_id h.stream.stream_id stream_ended ∷ [])

  unfoldable pub handle_push_promise : List ℕ → Run (Handling D E) (List H3Event)
  handle_push_promise frame_data = do
    h ← get
    refuse (not h.connection.is_client) frame_unexpected
    (push_id, b) ← lift (pull_uint_var (new frame_data))
    headers ← on_connection (decode_headers h.stream.stream_id (some (drop (tell b) frame_data)))
    lift (validate_push_promise_headers headers)
    return (push_promise_received headers push_id h.stream.stream_id ∷ [])

  unfoldable pub handle_request_or_push_frame :
      ℕ → Option (List ℕ) → Bool → Run (Handling D E) (List H3Event)
  handle_request_or_push_frame frame_type frame_data stream_ended = do
    h ← get
    if frame_type == 0x0
        then handle_data (bytes_of frame_data) stream_ended
        else if frame_type == 0x1
        then handle_headers frame_data stream_ended
        else if (frame_type == 0x5) && is_none h.stream.push_id
        then handle_push_promise (bytes_of frame_data)
        else if is_refused frame_type
        then throw frame_unexpected
        else return []
