-- ===== src/Connection/StreamFrame/Examples.antt =====
-- A STREAM frame, and the round trip at it.
use aioquic.Base.{ℕ, ◌≡◌, ◌++◌, refl, arith, true, List, [], ◌∷◌, replicate}
use aioquic.Base.Exception.{ok, ◌>>=◌}
use aioquic.Stream.{QuicStreamFrame}
use aioquic.Buffer.{Buffer, new, written, push_uint_var, push_uint16, push_bytes}
use aioquic.Buffer.Pulls.{Pulls}
use aioquic.Connection.StreamFrame.{
  stream_frame_type, push_offset, push_stream_frame, pull_stream_frame,
}
use aioquic.Connection.StreamFrame.RoundTrip.{frame_bytes, offset_bytes, stream_frame_lem}

abbrev frame : QuicStreamFrame
frame = record { bytes = 7 ∷ 8 ∷ []; fin = true; offset = 5 }

abbrev ten : List ℕ
ten = replicate 10 0

frame_type : stream_frame_type frame ≡ 15
unfolding stream_frame_type
frame_type = refl

-- Stream 4: the offset, the length with its prefix, and the data.
frame_data :
    (push_stream_frame (new ten) 4 frame >>= λ b. ok (written b))
    ≡ ok (4 ∷ 5 ∷ 0x40 ∷ 2 ∷ 7 ∷ 8 ∷ [])
unfolding push_stream_frame push_offset push_uint_var push_uint16 push_bytes
frame_data = refl

stream_frame_lem_example :
    (b : Buffer) × (push_stream_frame (new ten) 4 frame ≡ ok b)
    × (written b ≡ written (new ten) ++ frame_bytes 4 frame)
    × Pulls (pull_stream_frame (stream_frame_type frame)) (frame_bytes 4 frame) (4, frame)
unfolding frame_bytes offset_bytes
stream_frame_lem_example =
    stream_frame_lem 4 frame (new ten) (omega arith) (omega arith) (omega arith) (omega arith)
