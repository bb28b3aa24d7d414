-- ===== src/Connection/Streams/Opening.antt =====
-- `_get_or_create_stream` and `_get_or_create_stream_for_send` (src/aioquic/quic/connection.py).
use aioquic.Base.{
  ℕ, ◌+◌, ◌/◌, Bool, true, not, Option, none, some, [], ◌∷◌, ◌++◌, ltb, leb, is_in, if◌then◌else◌,
}
use aioquic.Base.Exception.{
  Result, ok, ◌>>◌, ensure, value_error, quic_connection_error, stream_finished_error,
}
use aioquic.H3.State.{stream_is_unidirectional}
use aioquic.Connection.FlowControl.{Limit}
use aioquic.Connection.Streams.State.{
  QuicStream, new_stream, QuicStreams, get, is_local, stream_can_send, local_max_streams,
  remote_max_streams,
}

-- `if stream_count > max_streams.used: max_streams.used = stream_count`
abbrev pub raise_used : ℕ → Limit → Limit
raise_used stream_count limit =
    if ltb limit.used stream_count then record limit { used = stream_count } else limit

abbrev pub use_stream : Bool → ℕ → QuicStreams → QuicStreams
use_stream uni n c = record c {
  local_max_streams_uni =
      if uni then raise_used n c.local_max_streams_uni else c.local_max_streams_uni;
  local_max_streams_bidi =
      if uni then c.local_max_streams_bidi else raise_used n c.local_max_streams_bidi;
}

-- The new stream is put in the dictionary and in the queue.
abbrev pub add_stream : QuicStream → QuicStreams → QuicStreams
add_stream s c = record c {
  streams = c.streams ++ ((s.stream_id, s) ∷ []);
  streams_queue = c.streams_queue ++ (s.stream_id ∷ []);
}

abbrev pub peer_stream : Bool → ℕ → QuicStreams → QuicStream
peer_stream uni stream_id c =
    new_stream stream_id
      (if uni then c.local_max_stream_data_uni else c.local_max_stream_data_bidi_remote)
      (if uni then 0 else c.remote_max_stream_data_bidi_local) (not uni)

abbrev pub create_stream : QuicStreams → ℕ → Option QuicStream → Result (QuicStream × QuicStreams)
create_stream c stream_id (some s) = ok (s, c)
create_stream c stream_id none = do
  ensure (not (is_local c stream_id)) (quic_connection_error 5)
  let uni = stream_is_unidirectional stream_id
  ensure (leb (stream_id / 4 + 1) (local_max_streams uni c).value) (quic_connection_error 4)
  let s = peer_stream uni stream_id c
  ok (s, add_stream s (use_stream uni (stream_id / 4 + 1) c))

unfoldable pub get_or_create_stream : QuicStreams → ℕ → Result (QuicStream × QuicStreams)
get_or_create_stream c stream_id = do
  ensure (not (is_in stream_id c.streams_finished)) stream_finished_error
  create_stream c stream_id (get stream_id c.streams)

abbrev pub own_stream : Bool → ℕ → QuicStreams → QuicStream
own_stream uni stream_id c =
    new_stream stream_id (if uni then 0 else c.local_max_stream_data_bidi_local)
      (if uni then c.remote_max_stream_data_uni else c.remote_max_stream_data_bidi_remote) true

abbrev pub next_stream : Bool → ℕ → QuicStreams → QuicStreams
next_stream uni stream_id c = record c {
  local_next_stream_id_uni = if uni then stream_id + 4 else c.local_next_stream_id_uni;
  local_next_stream_id_bidi = if uni then c.local_next_stream_id_bidi else stream_id + 4;
}

abbrev pub block_stream : Bool → ℕ → QuicStreams → QuicStreams
block_stream uni stream_id c = record c {
  streams_blocked_uni =
      if uni then c.streams_blocked_uni ++ (stream_id ∷ []) else c.streams_blocked_uni;
  streams_blocked_bidi =
      if uni then c.streams_blocked_bidi else c.streams_blocked_bidi ++ (stream_id ∷ []);
  streams_blocked_pending = true;
}

abbrev pub create_stream_for_send :
    QuicStreams → ℕ → Option QuicStream → Result (QuicStream × QuicStreams)
create_stream_for_send c stream_id (some s) = ok (s, c)
create_stream_for_send c stream_id none = do
  ensure (is_local c stream_id) value_error
  let uni = stream_is_unidirectional stream_id
  let is_blocked = leb (remote_max_streams uni c) (stream_id / 4)
  let s = record (own_stream uni stream_id c) { is_blocked = is_blocked }
  let c = next_stream uni stream_id (add_stream s c)
  ok (s, (if is_blocked then block_stream uni stream_id c else c))

unfoldable pub get_or_create_stream_for_send : QuicStreams → ℕ → Result (QuicStream × QuicStreams)
get_or_create_stream_for_send c stream_id = do
  ensure (stream_can_send c stream_id) value_error
  create_stream_for_send c stream_id (get stream_id c.streams)
