-- ===== src/Connection/Streams/State.antt =====
-- The streams of a connection (src/aioquic/quic/connection.py), with QuicStream of
-- src/aioquic/quic/stream.py. A stream that is blocked stands in a list by its identifier, and in
-- the dictionary, where it is changed.
use aioquic.Base.{
  ℕ, Bool, true, false, not, ◌||◌, Option, none, some, List, [], ◌∷◌, ◌==◌, if◌then◌else◌,
}
use aioquic.Stream.Receiver.{QuicStreamReceiver}
use aioquic.Stream.Receiver as Receiver
use aioquic.Stream.Sender.{QuicStreamSender}
use aioquic.Stream.Sender as Sender
use aioquic.H3.State.{stream_is_unidirectional, stream_is_client_initiated}
use aioquic.Connection.FlowControl.{Limit}

pub record QuicStream : Type 0 where
  pub stream_id : ℕ
  pub is_blocked : Bool
  pub max_stream_data_local : ℕ
  pub max_stream_data_local_sent : ℕ
  pub max_stream_data_remote : ℕ
  pub receiver : QuicStreamReceiver
  pub sender : QuicStreamSender

-- `__init__`; `readable` goes to the receiver, which does not use it.
abbrev pub new_stream : ℕ → ℕ → ℕ → Bool → QuicStream
new_stream stream_id max_stream_data_local max_stream_data_remote writable = record {
  stream_id = stream_id;
  is_blocked = false;
  max_stream_data_local = max_stream_data_local;
  max_stream_data_local_sent = max_stream_data_local;
  max_stream_data_remote = max_stream_data_remote;
  receiver = Receiver.init (some stream_id);
  sender = Sender.init (some stream_id) writable;
}

-- The part of a QuicConnection that is about its streams.
pub record QuicStreams : Type 0 where
  pub is_client : Bool
  pub streams : List (ℕ × QuicStream)
  pub streams_queue : List ℕ
  pub streams_finished : List ℕ
  pub streams_blocked_bidi : List ℕ
  pub streams_blocked_uni : List ℕ
  pub streams_blocked_pending : Bool
  pub local_max_stream_data_bidi_local : ℕ
  pub local_max_stream_data_bidi_remote : ℕ
  pub local_max_stream_data_uni : ℕ
  pub local_max_streams_bidi : Limit
  pub local_max_streams_uni : Limit
  pub local_next_stream_id_bidi : ℕ
  pub local_next_stream_id_uni : ℕ
  pub remote_max_data : ℕ
  pub remote_max_stream_data_bidi_local : ℕ
  pub remote_max_stream_data_bidi_remote : ℕ
  pub remote_max_stream_data_uni : ℕ
  pub remote_max_streams_bidi : ℕ
  pub remote_max_streams_uni : ℕ

abbrev pub same : Bool → Bool → Bool
same true b = b
same false b = not b

-- `_streams.get(stream_id, None)`
abbrev pub get : ℕ → List (ℕ × QuicStream) → Option QuicStream
get stream_id [] = none
get stream_id ((id, s) ∷ streams) = if stream_id == id then some s else get stream_id streams

-- A stream of the dictionary is changed.
abbrev pub modify : ℕ → (QuicStream → QuicStream) → List (ℕ × QuicStream) → List (ℕ × QuicStream)
modify stream_id f [] = []
modify stream_id f ((id, s) ∷ streams) =
    (id, (if stream_id == id then f s else s)) ∷ modify stream_id f streams

abbrev pub is_local : QuicStreams → ℕ → Bool
is_local c stream_id = same (stream_is_client_initiated stream_id) c.is_client

abbrev stream_can_receive : QuicStreams → ℕ → Bool
stream_can_receive c stream_id =
    not (is_local c stream_id) || not (stream_is_unidirectional stream_id)

unfoldable pub stream_can_send : QuicStreams → ℕ → Bool
stream_can_send c stream_id = is_local c stream_id || not (stream_is_unidirectional stream_id)

-- The limits by `is_unidirectional`.
abbrev pub local_max_streams : Bool → QuicStreams → Limit
local_max_streams uni c = if uni then c.local_max_streams_uni else c.local_max_streams_bidi

abbrev pub remote_max_streams : Bool → QuicStreams → ℕ
remote_max_streams uni c = if uni then c.remote_max_streams_uni else c.remote_max_streams_bidi

abbrev pub streams_blocked : Bool → QuicStreams → List ℕ
streams_blocked uni c = if uni then c.streams_blocked_uni else c.streams_blocked_bidi
