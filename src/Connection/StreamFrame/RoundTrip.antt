-- ===== src/Connection/StreamFrame/RoundTrip.antt =====
-- The round trip of STREAM frames (src/aioquic/quic/connection.py).
use aioquic.Base.{
  ℕ, ◌+◌, ◌/◌, ◌%◌, ◌≤◌, ◌<◌, ◌≡◌, refl, sym, ap, ◌∙◌, arith, true, not, List, [], ◌++◌, leb, ◌==◌,
  if◌then◌else◌, length, inl, inr, Bool-cases,
}
use aioquic.Base.Exception.{ok, ◌>>=◌, ◌>>◌, ensure, quic_connection_error}
use aioquic.Stream.{QuicStreamFrame}
use aioquic.Buffer.{
  Buffer, pull_uint_var, pull_bytes, push_uint_var, push_uint16, push_bytes, uint16_bytes, put,
  written, advance,
}
use aioquic.Buffer.Pulls.{Pulls, Pushes, Pulls-then, pull_bytes_lem}
use aioquic.Buffer.Codes.{Pushes-then, push_bytes_lem, push_uint16_lem, put-nil, written-put}
use aioquic.Buffer.Varint.{Fits, uint_var, pull_uint_var_lem, push_uint_var_lem, pull_two_bytes}
use aioquic.Connection.StreamFrame.{
  stream_frame_type, or_0x4000, push_offset, push_stream_frame, pull_offset, pull_length,
  pull_stream_frame,
}

unfoldable pub offset_bytes : ℕ → List ℕ
offset_bytes offset = if offset == 0 then [] else uint_var offset

-- The bytes of a frame after its type.
unfoldable pub frame_bytes : ℕ → QuicStreamFrame → List ℕ
frame_bytes stream_id frame =
    uint_var stream_id
    ++ (offset_bytes frame.offset ++ (uint16_bytes (length frame.bytes + 0x4000) ++ frame.bytes))

offset_bit :
    (frame : QuicStreamFrame) → (stream_frame_type frame / 4 % 2 == 1) ≡ not (frame.offset == 0)
unfolding stream_frame_type
offset_bit frame = ground arith

length_bit : (frame : QuicStreamFrame) → (stream_frame_type frame / 2 % 2 == 1) ≡ true
unfolding stream_frame_type
length_bit frame = ground arith

fin_bit : (frame : QuicStreamFrame) → (stream_frame_type frame % 2 == 1) ≡ frame.fin
unfolding stream_frame_type
fin_bit frame = ground arith

pull_offset_lem :
    (frame : QuicStreamFrame)
    → Fits frame.offset
    → Pulls (pull_offset (stream_frame_type frame)) (offset_bytes frame.offset) frame.offset
unfolding pull_offset offset_bytes
pull_offset_lem frame h = elim (Bool-cases (frame.offset == 0)) [
  | inl z ↦
      let none_there : frame.offset ≡ 0 = ground arith in
      rw (pull_offset, offset_bytes, offset_bit frame, z)
        (λ b after i e. ap (λ n. ok n) (nothing_read b none_there))
  | inr z ↦ rw (pull_offset, offset_bytes, offset_bit frame, z) (pull_uint_var_lem frame.offset h)
]
  where
    nothing_read : {n : ℕ} (b : Buffer) → n ≡ 0 → ◌≡◌ {A = ℕ × Buffer} (0, b) (n, advance b 0)
    nothing_read {n} b e =
        ap (λ m. (m, b)) (sym e) ∙ ap (λ k. (n, record b { pos = k })) (omega arith)

push_offset_lem :
    (offset : ℕ) → Fits offset → Pushes (λ b. push_offset b offset) (offset_bytes offset)
unfolding push_offset offset_bytes
push_offset_lem offset h = elim (Bool-cases (offset == 0)) [
  | inl z ↦ rw (push_offset, offset_bytes, z) (λ b room. ap ok (sym (put-nil b)))
  | inr z ↦ rw (push_offset, offset_bytes, z) (push_uint_var_lem offset h)
]

push_size_lem :
    (n : ℕ) → n < 0x4000 → Pushes (λ b. push_uint16 b (or_0x4000 n)) (uint16_bytes (n + 0x4000))
push_size_lem n h =
    let bits : or_0x4000 n ≡ n + 0x4000 = ground arith in rw bits (push_uint16_lem (n + 0x4000))

push_all :
    (stream_id : ℕ) (frame : QuicStreamFrame)
    → Fits stream_id
    → Fits frame.offset
    → length frame.bytes < 0x4000
    → Pushes (λ b. push_stream_frame b stream_id frame) (frame_bytes stream_id frame)
unfolding push_stream_frame frame_bytes
push_all stream_id frame i o l =
    Pushes-then (λ b. push_uint_var b stream_id)
      (λ b. do
        b ← push_offset b frame.offset
        b ← push_uint16 b (or_0x4000 (length frame.bytes))
        push_bytes b frame.bytes)
      (uint_var stream_id) _ (push_uint_var_lem stream_id i)
      (Pushes-then (λ b. push_offset b frame.offset)
        (λ b. push_uint16 b (or_0x4000 (length frame.bytes)) >>= λ b'. push_bytes b' frame.bytes)
        (offset_bytes frame.offset) _ (push_offset_lem frame.offset o)
        (Pushes-then (λ b. push_uint16 b (or_0x4000 (length frame.bytes)))
          (λ b. push_bytes b frame.bytes) (uint16_bytes (length frame.bytes + 0x4000)) frame.bytes
          (push_size_lem (length frame.bytes) l) (push_bytes_lem frame.bytes)))

pull_length_lem :
    (frame : QuicStreamFrame)
    → length frame.bytes < 0x4000
    → Pulls
        (pull_length (stream_frame_type frame))
        (uint16_bytes (length frame.bytes + 0x4000))
        (length frame.bytes)
unfolding pull_length
pull_length_lem frame l = rw (pull_length, length_bit frame) (pull_two_bytes (length frame.bytes) l)

-- The data, and the frame that is made of it.
pull_data_lem :
    (stream_id : ℕ) (frame : QuicStreamFrame)
    → Fits (frame.offset + length frame.bytes)
    → Pulls
        (λ b.
          ensure
            (leb (frame.offset + length frame.bytes) 0x3FFFFFFFFFFFFFFF)
            (quic_connection_error 7)
          >> ◌>>=◌ {B = (ℕ × QuicStreamFrame) × Buffer}
              (pull_bytes b (length frame.bytes))
              (λ (bytes, b'). ok (
                (
                  stream_id,
                  record {
                    bytes = bytes;
                    fin = stream_frame_type frame % 2 == 1;
                    offset = frame.offset;
                  },
                ),
                b',
              )))
        frame.bytes
        (stream_id, frame)
pull_data_lem stream_id frame f b after i e =
    let fits : leb (frame.offset + length frame.bytes) 0x3FFFFFFFFFFFFFFF ≡ true = ground arith in
    rw (fits, fin_bit frame, pull_bytes_lem frame.bytes b after i e) refl

pull_all :
    (stream_id : ℕ) (frame : QuicStreamFrame)
    → Fits stream_id
    → Fits (frame.offset + length frame.bytes)
    → length frame.bytes < 0x4000
    → Pulls
        (pull_stream_frame (stream_frame_type frame))
        (frame_bytes stream_id frame)
        (stream_id, frame)
unfolding pull_stream_frame frame_bytes
pull_all stream_id frame i f l =
    let type = stream_frame_type frame in
    Pulls-then pull_uint_var
      (λ stream_id b. do
        (offset, b) ← pull_offset type b
        (size, b) ← pull_length type b
        ensure (leb (offset + size) 0x3FFFFFFFFFFFFFFF) (quic_connection_error 7)
        (bytes, b) ← pull_bytes b size
        ok ((stream_id, record { bytes = bytes; fin = type % 2 == 1; offset = offset }), b))
      (uint_var stream_id) _ stream_id (stream_id, frame) (pull_uint_var_lem stream_id i)
      (Pulls-then (pull_offset type)
        (λ offset b. do
          (size, b) ← pull_length type b
          ensure (leb (offset + size) 0x3FFFFFFFFFFFFFFF) (quic_connection_error 7)
          (bytes, b) ← pull_bytes b size
          ok ((stream_id, record { bytes = bytes; fin = type % 2 == 1; offset = offset }), b))
        (offset_bytes frame.offset) _ frame.offset (stream_id, frame)
        (pull_offset_lem frame (omega arith))
        (Pulls-then (pull_length type)
          (λ size b. do
            ensure (leb (frame.offset + size) 0x3FFFFFFFFFFFFFFF) (quic_connection_error 7)
            (bytes, b) ← pull_bytes b size
            ok (
              (stream_id, record { bytes = bytes; fin = type % 2 == 1; offset = frame.offset }),
              b,
            ))
          (uint16_bytes (length frame.bytes + 0x4000)) frame.bytes (length frame.bytes)
          (stream_id, frame) (pull_length_lem frame l) (pull_data_lem stream_id frame f)))

-- A STREAM frame whose data is shorter than 2^14 bytes, and that ends below 2^62, is written where
-- there is room for it, and is read back with its stream identifier, offset, data and FIN, wherever
-- its bytes stand: the frame type tells whether there is an offset and a FIN.
pub stream_frame_lem :
    (stream_id : ℕ) (frame : QuicStreamFrame) (b : Buffer)
    → Fits stream_id
    → Fits (frame.offset + length frame.bytes)
    → length frame.bytes < 0x4000
    → b.pos + length (frame_bytes stream_id frame) ≤ length b.memory
    → (b' : Buffer) × (push_stream_frame b stream_id frame ≡ ok b')
      × (written b' ≡ written b ++ frame_bytes stream_id frame)
      × Pulls
          (pull_stream_frame (stream_frame_type frame))
          (frame_bytes stream_id frame)
          (stream_id, frame)
stream_frame_lem stream_id frame b i f l room = (
  put b (frame_bytes stream_id frame),
  push_all stream_id frame i (omega arith) l b room,
  written-put b (frame_bytes stream_id frame) room,
  pull_all stream_id frame i f l,
)
