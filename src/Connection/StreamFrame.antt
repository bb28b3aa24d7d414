-- ===== src/Connection/StreamFrame.antt =====
-- STREAM frames as `_write_stream_frame` of src/aioquic/quic/connection.py writes them and
-- `_handle_stream_frame` reads them. The frame type is written by the packet builder.
pub mod RoundTrip
mod Examples
use aioquic.Base.{
  ℕ, ◌+◌, ◌-◌, ◌/◌, ◌%◌, Bool, true, false, List, Option, ltb, leb, ◌==◌, if◌then◌else◌, length,
}
use aioquic.Base.Exception.{Result, ok, raise, ◌>>=◌, ◌>>◌, ensure, quic_connection_error}
use aioquic.Stream.{QuicStreamFrame}
use aioquic.Buffer.{
  Buffer, capacity, tell, pull_uint_var, pull_bytes, push_uint_var, push_uint16, push_bytes,
}

-- `STREAM_BASE | 2`, with the bits for an offset and for the FIN.
pub stream_frame_type : QuicStreamFrame → ℕ
stream_frame_type frame =
    8 + 2 + (if frame.offset == 0 then 0 else 4) + (if frame.fin then 1 else 0)

-- `n | 0x4000`
abbrev pub or_0x4000 : ℕ → ℕ
or_0x4000 n = if n / 0x4000 % 2 == 1 then n else n + 0x4000

pub push_offset : Buffer → ℕ → Result Buffer
push_offset b offset = if offset == 0 then ok b else push_uint_var b offset

pub push_stream_frame : Buffer → ℕ → QuicStreamFrame → Result Buffer
push_stream_frame b stream_id frame = do
  b ← push_uint_var b stream_id
  b ← push_offset b frame.offset
  b ← push_uint16 b (or_0x4000 (length frame.bytes))
  push_bytes b frame.bytes

pub pull_offset : ℕ → Buffer → Result (ℕ × Buffer)
pull_offset frame_type b = if frame_type / 4 % 2 == 1 then pull_uint_var b else ok (0, b)

-- Without a length the data goes to the end of the packet.
pub pull_length : ℕ → Buffer → Result (ℕ × Buffer)
pull_length frame_type b =
    if frame_type / 2 % 2 == 1 then pull_uint_var b else ok (capacity b - tell b, b)

-- The stream identifier and the frame. `UINT_VAR_MAX` bounds the offsets of a stream, or the error
-- is FRAME_ENCODING_ERROR.
pub pull_stream_frame : ℕ → Buffer → Result ((ℕ × QuicStreamFrame) × Buffer)
pull_stream_frame frame_type b = do
  (stream_id, b) ← pull_uint_var b
  (offset, b) ← pull_offset frame_type b
  (size, b) ← pull_length frame_type b
  ensure (leb (offset + size) 0x3FFFFFFFFFFFFFFF) (quic_connection_error 7)
  (bytes, b) ← pull_bytes b size
  ok ((stream_id, record { bytes = bytes; fin = frame_type % 2 == 1; offset = offset }), b)
