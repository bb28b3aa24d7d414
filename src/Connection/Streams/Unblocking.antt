-- ===== src/Connection/Streams/Unblocking.antt =====
-- `_unblock_streams` and the handlers of MAX_DATA, MAX_STREAM_DATA and MAX_STREAMS frames
-- (src/aioquic/quic/connection.py).
use aioquic.Base.{ℕ, ◌/◌, ◌^◌, Bool, true, false, ◌&&◌, List, [], ◌∷◌, ltb, leb, if◌then◌else◌}
use aioquic.Base.Exception.{Result, ok, ◌>>=◌, ◌>>◌, ensure, quic_connection_error}
use aioquic.Buffer.{Buffer, pull_uint_var}
use aioquic.Connection.Streams.State.{
  QuicStream, QuicStreams, modify, stream_can_send, remote_max_streams, streams_blocked,
}
use aioquic.Connection.Streams.Opening.{get_or_create_stream}

-- The loop of `_unblock_streams`: the streams that stay blocked, and the dictionary.
unfoldable pub unblock : ℕ → ℕ → List ℕ → List (ℕ × QuicStream) → List ℕ × List (ℕ × QuicStream)
unblock max_stream_data_remote max_streams [] streams = ([], streams)
unblock max_stream_data_remote max_streams (id ∷ blocked) streams =
    if ltb (id / 4) max_streams
    then unblock max_stream_data_remote max_streams blocked (
        modify id
          (λ s. record s { is_blocked = false; max_stream_data_remote = max_stream_data_remote })
          streams)
    else (id ∷ blocked, streams)

abbrev pub max_stream_data : Bool → QuicStreams → ℕ
max_stream_data uni c =
    if uni then c.remote_max_stream_data_uni else c.remote_max_stream_data_bidi_remote

abbrev pub is_empty : List ℕ → Bool
is_empty [] = true
is_empty (n ∷ ns) = false

abbrev pub put_blocked : Bool → List ℕ → List (ℕ × QuicStream) → QuicStreams → QuicStreams
put_blocked uni blocked streams c = record c {
  streams = streams;
  streams_blocked_uni = if uni then blocked else c.streams_blocked_uni;
  streams_blocked_bidi = if uni then c.streams_blocked_bidi else blocked;
}

abbrev pub nothing_pending : QuicStreams → QuicStreams
nothing_pending c =
    if is_empty c.streams_blocked_bidi && is_empty c.streams_blocked_uni
    then record c { streams_blocked_pending = false }
    else c

unfoldable pub unblock_streams : QuicStreams → Bool → QuicStreams
unblock_streams c uni =
    let (blocked, streams) =
      unblock (max_stream_data uni c) (remote_max_streams uni c) (streams_blocked uni c)
        c.streams in
    nothing_pending (put_blocked uni blocked streams c)

unfoldable pub handle_max_data_frame : QuicStreams → Buffer → Result (QuicStreams × Buffer)
handle_max_data_frame c b = do
  (max_data, b) ← pull_uint_var b
  ok ((if ltb c.remote_max_data max_data then record c { remote_max_data = max_data } else c), b)

unfoldable pub handle_max_stream_data_frame : QuicStreams → Buffer → Result (QuicStreams × Buffer)
handle_max_stream_data_frame c b = do
  (stream_id, b) ← pull_uint_var b
  (max_stream_data, b) ← pull_uint_var b
  ensure (stream_can_send c stream_id) (quic_connection_error 5)
  (s, c) ← get_or_create_stream c stream_id
  ok (
    (if ltb s.max_stream_data_remote max_stream_data
        then record c {
          streams =
              modify stream_id (λ s. record s { max_stream_data_remote = max_stream_data })
                c.streams;
        }
        else c),
    b,
  )

abbrev pub set_remote_max_streams : Bool → ℕ → QuicStreams → QuicStreams
set_remote_max_streams uni n c = record c {
  remote_max_streams_uni = if uni then n else c.remote_max_streams_uni;
  remote_max_streams_bidi = if uni then c.remote_max_streams_bidi else n;
}

-- `_handle_max_streams_bidi_frame`, and `_handle_max_streams_uni_frame` where `uni`; the limit is
-- STREAM_COUNT_MAX.
unfoldable pub handle_max_streams_frame :
    Bool → QuicStreams → Buffer → Result (QuicStreams × Buffer)
handle_max_streams_frame uni c b = do
  (max_streams, b) ← pull_uint_var b
  ensure (leb max_streams (2 ^ 60)) (quic_connection_error 7)
  ok (
    (if ltb (remote_max_streams uni c) max_streams
        then unblock_streams (set_remote_max_streams uni max_streams c) uni
        else c),
    b,
  )
