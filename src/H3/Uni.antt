-- ===== src/H3/Uni.antt =====
-- _receive_stream_data_uni of src/aioquic/h3/connection.py: the data of the peer's unidirectional
-- streams, up to the streams that are unblocked.
use aioquic.Base.{
  ℕ, zero, suc, ◌+◌, ◌-◌, Bool, false, not, ◌||◌, Option, none, some, List, [], ◌∷◌, ◌++◌, ◌==◌,
  if◌then◌else◌, length, drop, eq_some, is_none,
}
use aioquic.Base.Exception.{Result, ok, raise}
use aioquic.Base.Run.{Run, ◌>>=◌, ◌>>◌, get, modify, throw, refuse, return, lift}
use aioquic.Buffer.{Buffer, new, capacity, eof, tell, seek, pull_uint_var, pull_bytes}
use aioquic.H3.{
  H3Event, stream_creation_error, closed_critical_stream, qpack_decoder_stream_error,
  qpack_encoder_stream_error,
}
use aioquic.H3.State.{Qpack, H3Connection, Handling, on_connection, modify_stream}
use aioquic.H3.Frames.{trim, web_transport_events, receive_request_or_push_data}
use aioquic.H3.Settings.{pull_frame}
use aioquic.H3.Control.{handle_control_frame}

-- How a round goes on: `break` with what was consumed, `return`, or the next round with the
-- streams that are unblocked.
pub data Turn : Type 0 where
  breaks : ℕ → Turn
  returns : List H3Event → Turn
  continues : Buffer → ℕ → List ℕ → Turn

-- `set.update`; the order of the streams is that of the decoder.
abbrev pub has : ℕ → List ℕ → Bool
has n [] = false
has n (m ∷ ms) = (n == m) || has n ms

abbrev pub update : List ℕ → List ℕ → List ℕ
update ids [] = ids
update ids (n ∷ ns) = update (if has n ids then ids else ids ++ (n ∷ [])) ns

-- PUSH, CONTROL and WEBTRANSPORT.
abbrev pub reads_at_eof : Option ℕ → Bool
reads_at_eof stream_type =
    eq_some stream_type 0x1 || (eq_some stream_type 0x0 || eq_some stream_type 0x54)

module _ {D E : Type 0} where
  -- There is one stream of each of these types.
  unfoldable pub claim_type : ℕ → Run (Handling D E) (Unit {0})
  claim_type stream_type = do
    h ← get
    let stream_id = h.stream.stream_id
    if stream_type == 0x0
        then (refuse (not (is_none h.connection.peer_control_stream_id)) stream_creation_error
            >> on_connection (modify (λ c. record c { peer_control_stream_id = some stream_id })))
        else if stream_type == 0x3
        then (refuse (not (is_none h.connection.peer_decoder_stream_id)) stream_creation_error
            >> on_connection (modify (λ c. record c { peer_decoder_stream_id = some stream_id })))
        else if stream_type == 0x2
        then (refuse (not (is_none h.connection.peer_encoder_stream_id)) stream_creation_error
            >> on_connection (modify (λ c. record c { peer_encoder_stream_id = some stream_id })))
        else return tt

  -- The buffer after the type, and what was consumed, or none for `break`.
  abbrev pub pulled_type : Result (ℕ × Buffer) → Run (Handling D E) (Option (Buffer × ℕ))
  pulled_type (raise e) = return none
  pulled_type (ok (stream_type, b)) =
      modify_stream (λ s. record s { stream_type = some stream_type })
      >> claim_type stream_type
      >> return (some (b, tell b))

  unfoldable pub fetch_type : Buffer → ℕ → Run (Handling D E) (Option (Buffer × ℕ))
  fetch_type b consumed = λ h. elim h.stream.stream_type [
    | none ↦ pulled_type (pull_uint_var b) h
    | some stream_type ↦ return (some (b, consumed)) h
  ]

  abbrev pub pulled_push_id : Result (ℕ × Buffer) → Run (Handling D E) (Option (Buffer × ℕ))
  pulled_push_id (raise e) = return none
  pulled_push_id (ok (push_id, b)) =
      modify_stream (λ s. record s { push_id = some push_id }) >> return (some (b, tell b))

  unfoldable pub fetch_push_id : Buffer → ℕ → Run (Handling D E) (Option (Buffer × ℕ))
  fetch_push_id b consumed = λ h. elim h.stream.push_id [
    | none ↦ pulled_push_id (pull_uint_var b) h
    | some push_id ↦ return (some (b, consumed)) h
  ]

  abbrev pub pulled_session_id : Result (ℕ × Buffer) → Run (Handling D E) (Option (Buffer × ℕ))
  pulled_session_id (raise e) = return none
  pulled_session_id (ok (session_id, b)) =
      modify_stream (λ s. record s { session_id = some session_id }) >> return (some (b, tell b))

  unfoldable pub fetch_session_id : Buffer → ℕ → Run (Handling D E) (Option (Buffer × ℕ))
  fetch_session_id b consumed = λ h. elim h.stream.session_id [
    | none ↦ pulled_session_id (pull_uint_var b) h
    | some session_id ↦ return (some (b, consumed)) h
  ]

  -- After the session's identifier.
  abbrev pub receive_session : ℕ → Bool → Option (Buffer × ℕ) → Run (Handling D E) Turn
  receive_session consumed stream_ended none = return (breaks consumed)
  receive_session consumed stream_ended (some (b, after)) = do
    h ← get
    modify_stream (λ s. record s { buffer = [] })
    return (
        returns (elim h.stream.session_id [
          | none ↦ []
          | some session_id ↦
              web_transport_events (drop after h.stream.buffer) stream_ended session_id
                h.stream.stream_id h.stream.receiving_ended
        ]))

module _ {D E : Type 0} (q : Qpack D E) where
  abbrev pub control_frame : ℕ → Result ((ℕ × List ℕ) × Buffer) → Run (Handling D E) Turn
  control_frame consumed (raise e) = return (breaks consumed)
  control_frame consumed (ok ((frame_type, frame_data), b)) =
      on_connection (handle_control_frame q frame_type frame_data)
      >> return (continues b (tell b) [])

  unfoldable pub receive_control : Buffer → ℕ → Bool → Run (Handling D E) Turn
  receive_control b consumed stream_ended =
      refuse stream_ended closed_critical_stream >> control_frame consumed (pull_frame b)

  -- After the push identifier.
  abbrev pub receive_push : ℕ → Bool → Option (Buffer × ℕ) → Run (Handling D E) Turn
  receive_push consumed stream_ended none = return (breaks consumed)
  receive_push consumed stream_ended (some (b, after)) = do
    modify_stream (λ s. record s { buffer = drop after s.buffer })
    events ← receive_request_or_push_data q [] stream_ended
    return (returns events)

  unfoldable pub feed_decoder : List ℕ → Run (H3Connection D E) (Unit {0})
  feed_decoder bytes = λ c.
      let (fed, encoder) = q.feed_decoder c.encoder bytes in
      (refuse (not fed) qpack_decoder_stream_error
          >> modify
              (λ c. record c { decoder_bytes_received = c.decoder_bytes_received + length bytes }))
        (record c { encoder = encoder })

  abbrev pub fed_encoder : List ℕ → Option (List ℕ) → Run (H3Connection D E) (List ℕ)
  fed_encoder bytes none = throw qpack_encoder_stream_error
  fed_encoder bytes (some unblocked) =
      modify (λ c. record c { encoder_bytes_received = c.encoder_bytes_received + length bytes })
      >> return unblocked

  unfoldable pub feed_encoder : List ℕ → Run (H3Connection D E) (List ℕ)
  feed_encoder bytes = λ c.
      let (unblocked, decoder) = q.feed_encoder c.decoder bytes in
      fed_encoder bytes unblocked (record c { decoder = decoder })

  -- What is left of the buffer, unframed.
  unfoldable pub receive_decoder_stream : Buffer → Run (Handling D E) Turn
  receive_decoder_stream b = do
    (bytes, b) ← lift (pull_bytes b (capacity b - tell b))
    on_connection (feed_decoder bytes)
    return (continues b (tell b) [])

  unfoldable pub receive_encoder_stream : Buffer → Run (Handling D E) Turn
  receive_encoder_stream b = do
    (bytes, b) ← lift (pull_bytes b (capacity b - tell b))
    unblocked ← on_connection (feed_encoder bytes)
    return (continues b (tell b) unblocked)

  unfoldable pub discard_stream : Buffer → Run (Handling D E) Turn
  discard_stream b = do b ← lift (seek b (capacity b)); return (continues b (tell b) [])

  -- The branches on the type, once it is known.
  unfoldable pub receive_typed : ℕ → Buffer → ℕ → Bool → Run (Handling D E) Turn
  receive_typed stream_type b consumed stream_ended =
      if stream_type == 0x0
      then receive_control b consumed stream_ended
      else if stream_type == 0x1
      then (fetch_push_id b consumed >>= receive_push consumed stream_ended)
      else if stream_type == 0x54
      then (fetch_session_id b consumed >>= receive_session consumed stream_ended)
      else if stream_type == 0x3
      then receive_decoder_stream b
      else if stream_type == 0x2
      then receive_encoder_stream b
      else discard_stream b

  abbrev pub after_type : ℕ → Bool → Option (Buffer × ℕ) → Run (Handling D E) Turn
  after_type consumed stream_ended none = return (breaks consumed)
  after_type consumed stream_ended (some (b, after)) = λ h. elim h.stream.stream_type [
    | none ↦ return (breaks after) h
    | some stream_type ↦ receive_typed stream_type b after stream_ended h
  ]

  unfoldable pub receive_turn : Buffer → ℕ → Bool → Run (Handling D E) Turn
  receive_turn b consumed stream_ended = fetch_type b consumed >>= after_type consumed stream_ended

  -- `break`, or the end of the loop: the data that was processed is removed from the buffer.
  unfoldable pub end_turns : ℕ → List ℕ → Run (Handling D E) (List H3Event × List ℕ)
  end_turns consumed unblocked = trim consumed [] >>= λ events. return (events, unblocked)

  -- After a round: the end of the loop, or `next`.
  abbrev pub on_turn :
      List ℕ
      → (Buffer → ℕ → List ℕ → Run (Handling D E) (List H3Event × List ℕ))
      → Turn
      → Run (Handling D E) (List H3Event × List ℕ)
  on_turn unblocked next (breaks consumed) = end_turns consumed unblocked
  on_turn unblocked next (returns events) = return (events, [])
  on_turn unblocked next (continues b consumed ids) = next b consumed (update unblocked ids)

  -- The events, and the streams that are unblocked.
  unfoldable pub receive_turns :
      ℕ → Buffer → ℕ → Bool → List ℕ → Run (Handling D E) (List H3Event × List ℕ)
  receive_turns zero b consumed stream_ended unblocked = end_turns consumed unblocked
  receive_turns (suc rounds) b consumed stream_ended unblocked = λ h.
      if reads_at_eof h.stream.stream_type || not (eof b)
      then (receive_turn b consumed stream_ended
            >>= on_turn unblocked
                (λ b consumed ids. receive_turns rounds b consumed stream_ended ids))
          h
      else end_turns consumed unblocked h

  unfoldable pub receive_stream_data_uni :
      List ℕ → Bool → Run (Handling D E) (List H3Event × List ℕ)
  receive_stream_data_uni bytes stream_ended = do
    modify_stream (λ s. record s {
      buffer = s.buffer ++ bytes;
      receiving_ended = stream_ended || s.receiving_ended;
    })
    h ← get
    receive_turns (length h.stream.buffer + 1) (new h.stream.buffer) 0 stream_ended []
