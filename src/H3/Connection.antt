-- ===== src/H3/Connection.antt =====
-- The calls of an H3Connection (src/aioquic/h3/connection.py): __init__, handle_event,
-- _receive_stream_data, and those that send.
pub mod Streams
use aioquic.Base.{
  ℕ, zero, suc, ◌+◌, ◌/◌, Bool, true, false, not, ◌&&◌, ◌||◌, Option, none, some, List, [], ◌∷◌,
  ◌++◌, ◌==◌, leb, if◌then◌else◌, is_none,
}
use aioquic.Base.Exception.{
  Exception, Result, ok, raise, protocol_error, key_error, type_error, assertion_error,
  invalid_stream_type_error, no_available_push_id_error,
}
use aioquic.Base.Run.{Run, ◌>>=◌, ◌>>◌, get, modify, throw, refuse, return, lift}
use aioquic.Stream.Receiver.{StreamDataReceived}
use aioquic.H3.{Headers, H3Event, frame_unexpected}
use aioquic.H3.Settings.{Settings, encode_frame, encode_settings, uint_var_of}
use aioquic.H3.State.{
  Qpack, Quic, closes, sends_datagram_frame, H3Stream, H3Connection, Handling, new_stream, is_ended,
  finish_sending, find, put, pop, send_stream_data, send_local, on_connection, modify_stream,
  get_next_available_stream_id, stream_is_unidirectional, stream_is_request_response,
  is_after_headers, is_after_trailers, next_headers_state,
}
use aioquic.H3.Request.{is_empty, handle_headers}
use aioquic.H3.Frames.{receive_request_or_push_data}
use aioquic.H3.Uni.{receive_stream_data_uni}
use aioquic.H3.Control.{receive_datagram}

module _ {D E : Type 0} where
  -- `_get_or_create_stream`, up to its `yield` and after it.
  unfoldable pub open_stream : ℕ → H3Connection D E → H3Connection D E
  open_stream stream_id c =
      if is_none (find stream_id c.streams)
      then record c { streams = put stream_id (new_stream stream_id) c.streams }
      else c

  -- `if stream.is_ended(): self._stream.pop(stream_id)`
  abbrev pub close_found : ℕ → Option H3Stream → H3Connection D E → H3Connection D E
  close_found stream_id none c = c
  close_found stream_id (some s) c =
      if is_ended s then record c { streams = pop stream_id c.streams } else c

  unfoldable pub close_stream : ℕ → H3Connection D E → H3Connection D E
  close_stream stream_id c = close_found stream_id (find stream_id c.streams) c

  -- A handler of the stream in the dictionary, which it changes there.
  abbrev pub stored {ℓ} : {A : Type ℓ} → ℕ → Result A × Handling D E → Result A × H3Connection D E
  stored stream_id (r, h) =
      (r, record h.connection { streams = put stream_id h.stream h.connection.streams })

  abbrev pub at_found {ℓ} :
      {A : Type ℓ} → ℕ → Run (Handling D E) A → Option H3Stream → Run (H3Connection D E) A
  at_found stream_id m none = throw key_error
  at_found stream_id m (some s) = λ c. stored stream_id (m (record { connection = c; stream = s }))

  abbrev pub at_stream {ℓ} : {A : Type ℓ} → ℕ → Run (Handling D E) A → Run (H3Connection D E) A
  at_stream stream_id m = λ c. at_found stream_id m (find stream_id c.streams) c

  abbrev pub closing {ℓ} :
      {A : Type ℓ} → ℕ → Result A × H3Connection D E → Result A × H3Connection D E
  closing stream_id (r, c) = (r, close_stream stream_id c)

  -- `with self._get_or_create_stream(stream_id)`: the stream is deleted also when an exception is
  -- raised.
  abbrev pub with_stream {ℓ} :
      {A : Type ℓ} → ℕ → Run (H3Connection D E) A → Run (H3Connection D E) A
  with_stream stream_id m = λ c. closing stream_id (m (open_stream stream_id c))

  -- `except ProtocolError`: the connection is closed with the code of the error.
  abbrev pub catch_protocol_error :
      Result (List H3Event) × H3Connection D E → Result (List H3Event) × H3Connection D E
  catch_protocol_error (ok events, c) = (ok events, c)
  catch_protocol_error (raise e, c) = elim e [
    | protocol_error code ↦ (
      ok [],
      record c {
        is_done = true;
        quic = record c.quic { calls = c.quic.calls ++ (closes code ∷ []) };
      },
    )
    | other ↦ (raise other, c)
  ]

-- The events that HTTP/3 handles; a stream that has data has an identifier.
pub data QuicEvent : Type 0 where
  stream_data_received : StreamDataReceived → QuicEvent
  datagram_frame_received : List ℕ → QuicEvent
  another_event : QuicEvent

module _ {D E : Type 0} (q : Qpack D E) where
  -- The body of the loop over the unblocked streams.
  unfoldable pub resume_stream : Run (Handling D E) (List H3Event)
  resume_stream = do
    h ← get
    events ← handle_headers q none (h.stream.receiving_ended && is_empty h.stream.buffer)
    modify_stream (λ s. record s { blocked = false; blocked_frame_size = none })
    g ← get
    more ←
        (if is_empty g.stream.buffer
          then return []
          else receive_request_or_push_data q [] g.stream.receiving_ended)
    return (events ++ more)

  unfoldable pub resume_streams : List ℕ → Run (H3Connection D E) (List H3Event)
  resume_streams [] = return []
  resume_streams (stream_id ∷ ids) = do
    events ← at_stream stream_id resume_stream
    more ← resume_streams ids
    return (events ++ more)

  unfoldable pub receive_uni : ℕ → List ℕ → Bool → Run (H3Connection D E) (List H3Event)
  receive_uni stream_id bytes stream_ended = do
    (events, unblocked) ← at_stream stream_id (receive_stream_data_uni q bytes stream_ended)
    more ← resume_streams unblocked
    return (events ++ more)

  unfoldable pub receive_stream_data : ℕ → List ℕ → Bool → Run (H3Connection D E) (List H3Event)
  receive_stream_data stream_id bytes stream_ended = with_stream stream_id (
      if stream_is_unidirectional stream_id
      then receive_uni stream_id bytes stream_ended
      else at_stream stream_id (receive_request_or_push_data q bytes stream_ended))

  abbrev pub dispatch : QuicEvent → Run (H3Connection D E) (List H3Event)
  dispatch (stream_data_received event) = elim event.stream_id [
    | none ↦ throw type_error
    | some stream_id ↦ receive_stream_data stream_id event.bytes event.end_stream
  ]
  dispatch (datagram_frame_received bytes) = lift (receive_datagram bytes)
  dispatch another_event = return []

  unfoldable pub handle_event : QuicEvent → Run (H3Connection D E) (List H3Event)
  handle_event event =
      λ c. if c.is_done then (ok [], c) else catch_protocol_error (dispatch event c)
