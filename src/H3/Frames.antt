-- ===== src/H3/Frames.antt =====
-- _receive_request_or_push_data of src/aioquic/h3/connection.py. The `while` loop is recursion on
-- the number of rounds, each of which ends it, returns, or goes on with a shorter buffer.
pub mod Shorter
pub mod Rounds
use aioquic.Base.{
  ℕ, zero, suc, ◌+◌, ◌-◌, ◌*◌, min, Bool, true, false, not, ◌&&◌, ◌||◌, Option, none, some, List,
  [], ◌∷◌, ◌++◌, ltb, leb, ◌==◌, if◌then◌else◌, length, drop, eq_some, is_none,
}
use aioquic.Base.Exception.{Exception, Result, ok, raise, stream_blocked}
use aioquic.Base.Run.{Run, ◌>>=◌, ◌>>◌, get, modify, throw, refuse, return, lift}
use aioquic.Buffer.{Buffer, new, capacity, eof, tell, pull_uint_var, pull_bytes}
use aioquic.H3.{
  H3Event, data_received, web_transport_stream_data_received, frame_unexpected, message_error,
}
use aioquic.H3.State.{Qpack, H3Stream, H3Connection, Handling, modify_stream}
use aioquic.H3.Request.{
  is_empty, check_content_length, handle_request_or_push_frame, wrong_length, handle_data,
}

-- How a round of the loop goes on: `break` with what was consumed, `return`, or the next round.
pub data Round : Type 0 where
  breaks : ℕ → List H3Event → Round
  returns : List H3Event → Round
  continues : Buffer → ℕ → List H3Event → Round

-- What a frame's header is: not there yet, that of a WebTransport stream, or that of a frame, with
-- the buffer after it and what was consumed.
pub data Fetched : Type 0 where
  incomplete : Fetched
  web_transport : ℕ → Fetched
  frame : Buffer → ℕ → Fetched

-- `if frame_data or stream_ended: http_events.append(WebTransportStreamDataReceived(...))`
abbrev pub web_transport_events : List ℕ → Bool → ℕ → ℕ → Bool → List H3Event
web_transport_events frame_data stream_ended session_id stream_id ended =
    if stream_ended || not (is_empty frame_data)
    then web_transport_stream_data_received frame_data session_id stream_id ended ∷ []
    else []

-- The size that is left, and neither a size nor a type at the end of the frame.
abbrev pub less : H3Stream → ℕ → ℕ → H3Stream
less s zero chunk_size = record s { frame_size = none; frame_type = none }
less s (suc n) chunk_size =
    if leb (suc n) chunk_size
    then record s { frame_size = none; frame_type = none }
    else record s { frame_size = some (suc n - chunk_size) }

-- What is left of a DATA frame is longer than the buffer.
abbrev pub is_fragment : H3Stream → Bool
is_fragment s =
    eq_some s.frame_type 0x0
    && elim s.frame_size [ none ↦ false | some size ↦ ltb (length s.buffer) size ]

abbrev pub size_left : H3Stream → Option ℕ
size_left s = elim s.frame_size [ none ↦ none | some size ↦ some (size - length s.buffer) ]

abbrev pub in_session : H3Stream → Bool
in_session s = eq_some s.frame_type 0x41 && not (is_none s.session_id)

module _ {D E : Type 0} where
  abbrev pub set_frame_type : ℕ → Run (Handling D E) (Unit {0})
  set_frame_type frame_type = modify_stream (λ s. record s { frame_type = some frame_type })

  -- The size is the identifier of the session where the frame is a WEBTRANSPORT_STREAM, and what is
  -- left of the buffer is its data.
  abbrev pub set_frame_size : ℕ → Buffer → ℕ → Run (Handling D E) Fetched
  set_frame_size frame_type b size =
      if frame_type == 0x41
      then (modify_stream (λ s. record s { session_id = some size; frame_size = none })
          >> return (web_transport (tell b)))
      else (modify_stream (λ s. record s { frame_size = some size }) >> return (frame b (tell b)))

  abbrev pub pull_size : ℕ → Result (ℕ × Buffer) → Run (Handling D E) Fetched
  pull_size frame_type (raise e) = return incomplete
  pull_size frame_type (ok (size, b)) = set_frame_size frame_type b size

  -- `except BufferReadError: break`; the frame type that was read stays.
  abbrev pub pull_type : Result (ℕ × Buffer) → Run (Handling D E) Fetched
  pull_type (raise e) = return incomplete
  pull_type (ok (frame_type, b)) =
      set_frame_type frame_type >> pull_size frame_type (pull_uint_var b)

  unfoldable pub fetch_header : Buffer → ℕ → Run (Handling D E) Fetched
  fetch_header b consumed = λ h. elim h.stream.frame_size [
    | none ↦ pull_type (pull_uint_var b) h
    | some size ↦ return (frame b consumed) h
  ]

  unfoldable pub receive_web_transport : ℕ → Bool → List H3Event → Run (Handling D E) Round
  receive_web_transport consumed stream_ended events = do
    h ← get
    let frame_data = drop consumed h.stream.buffer
    modify_stream (λ s. record s { buffer = [] })
    return (
        returns (
          events ++ elim h.stream.session_id [
            | none ↦ []
            | some session_id ↦
                web_transport_events frame_data stream_ended session_id h.stream.stream_id
                  stream_ended
          ]))

  -- `except pylsqpack.StreamBlocked`
  abbrev pub catch_blocked :
      ℕ
      → Buffer
      → ℕ
      → List H3Event
      → Result (List H3Event) × Handling D E
      → Result Round × Handling D E
  catch_blocked size b consumed events (ok others, h) =
      (ok (continues b consumed (events ++ others)), h)
  catch_blocked size b consumed events (raise e, h) = elim e [
    | stream_blocked ↦ (
      ok (breaks consumed events),
      record h { stream = record h.stream { blocked = true; blocked_frame_size = some size } },
    )
    | other ↦ (raise other, h)
  ]

  -- `stream.buffer = stream.buffer[consumed:]`
  unfoldable pub trim : ℕ → List H3Event → Run (Handling D E) (List H3Event)
  trim consumed events = do
    modify_stream (λ s. record s { buffer = drop consumed s.buffer })
    return events

  -- After a round: the end of the loop, or `next`.
  abbrev pub on_round :
      (Buffer → ℕ → List H3Event → Run (Handling D E) (List H3Event))
      → Round
      → Run (Handling D E) (List H3Event)
  on_round next (breaks consumed events) = trim consumed events
  on_round next (returns events) = return events
  on_round next (continues b consumed events) = next b consumed events

  unfoldable pub receive_session_fragment : Bool → Run (Handling D E) (List H3Event)
  receive_session_fragment stream_ended = do
    h ← get
    modify_stream (λ s. record s { buffer = [] })
    return (elim h.stream.session_id [
      | none ↦ []
      | some session_id ↦
          web_transport_stream_data_received h.stream.buffer session_id h.stream.stream_id
            stream_ended
          ∷ []
    ])

  unfoldable pub receive_fragment : Run (Handling D E) (List H3Event)
  receive_fragment = do
    h ← get
    modify_stream (λ s. record s {
      content_length = s.content_length + length s.buffer;
      frame_size = size_left s;
      buffer = [];
    })
    return (data_received h.stream.buffer h.stream.push_id h.stream.stream_id false ∷ [])

  unfoldable pub receive_fin : Run (Handling D E) (List H3Event)
  receive_fin = do
    h ← get
    check_content_length
    return (data_received [] h.stream.push_id h.stream.stream_id true ∷ [])

module _ {D E : Type 0} (q : Qpack D E) where
  -- A frame type of None is that of no frame.
  abbrev pub handle_frame_of : Option ℕ → List ℕ → Bool → Run (Handling D E) (List H3Event)
  handle_frame_of none frame_data stream_ended = return []
  handle_frame_of (some frame_type) frame_data stream_ended =
      handle_request_or_push_frame q frame_type (some frame_data) stream_ended

  unfoldable pub receive_payload : Buffer → ℕ → ℕ → List H3Event → Run (Handling D E) Round
  receive_payload b consumed size events = do
    h ← get
    let chunk_size = min size (capacity b - consumed)
    if not (eq_some h.stream.frame_type 0x0) && ltb chunk_size size
        then return (breaks consumed events)
        else do
          (frame_data, b) ← lift (pull_bytes b chunk_size)
          modify_stream (λ s. less s size chunk_size)
          λ g.
              catch_blocked (length frame_data) b (tell b) events (
                handle_frame_of h.stream.frame_type frame_data (g.stream.receiving_ended && eof b)
                  g)

  abbrev pub after_fetch : ℕ → Bool → List H3Event → Fetched → Run (Handling D E) Round
  after_fetch consumed stream_ended events incomplete = return (breaks consumed events)
  after_fetch consumed stream_ended events (web_transport after) =
      receive_web_transport after stream_ended events
  after_fetch consumed stream_ended events (frame b after) = λ h. elim h.stream.frame_size [
    | none ↦ return (breaks after events) h
    | some size ↦ receive_payload b after size events h
  ]

  unfoldable pub receive_round : Buffer → ℕ → Bool → List H3Event → Run (Handling D E) Round
  receive_round b consumed stream_ended events =
      fetch_header b consumed >>= after_fetch consumed stream_ended events

  unfoldable pub receive_frames :
      ℕ → Buffer → ℕ → Bool → List H3Event → Run (Handling D E) (List H3Event)
  receive_frames zero b consumed stream_ended events = trim consumed events
  receive_frames (suc rounds) b consumed stream_ended events =
      if eof b
      then trim consumed events
      else (receive_round b consumed stream_ended events
          >>= on_round (λ b consumed events. receive_frames rounds b consumed stream_ended events))

  abbrev pub receive_all : Bool → Run (Handling D E) (List H3Event)
  receive_all stream_ended =
      λ h. receive_frames (2 * length h.stream.buffer + 1) (new h.stream.buffer) 0 stream_ended [] h

  unfoldable pub receive_request_or_push_data : List ℕ → Bool → Run (Handling D E) (List H3Event)
  receive_request_or_push_data bytes stream_ended = do
    modify_stream (λ s. record s {
      buffer = s.buffer ++ bytes;
      receiving_ended = stream_ended || s.receiving_ended;
    })
    h ← get
    if h.stream.blocked
        then return []
        else if in_session h.stream
        then receive_session_fragment stream_ended
        else if is_fragment h.stream
        then receive_fragment
        else if stream_ended && is_empty h.stream.buffer
        then receive_fin
        else receive_all stream_ended
