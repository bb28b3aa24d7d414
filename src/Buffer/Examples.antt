-- ===== src/Buffer/Examples.antt =====
-- Runs of the buffer, after tests/test_buffer.py, and the theorem at a concrete number.
use aioquic.Base.{ℕ, ◌≡◌, refl, List, [], ◌∷◌, replicate}
use aioquic.Base.Exception.{ok, raise, ◌>>=◌, buffer_read_error, buffer_write_error}
use aioquic.Buffer.{
  new, written, pull_bytes, pull_uint16, pull_uint32, pull_uint_var, push_bytes, push_uint8,
  push_uint16, push_uint_var, encode_uint_var, seek, data_slice,
}

abbrev eight : List ℕ
eight = replicate 8 0

pull_out_of_bounds : pull_uint16 (new (1 ∷ [])) ≡ raise buffer_read_error
unfolding pull_uint16
pull_out_of_bounds = refl

pull_four :
    pull_uint32 (new (1 ∷ 2 ∷ 3 ∷ 4 ∷ []))
    ≡ ok (0x01020304, record { memory = 1 ∷ 2 ∷ 3 ∷ 4 ∷ []; pos = 4 })
unfolding pull_uint32
pull_four = refl

pull_bytes_past_end : pull_bytes (new (1 ∷ 2 ∷ [])) 3 ≡ raise buffer_read_error
unfolding pull_bytes
pull_bytes_past_end = refl

push_full : (push_uint8 (new []) 1 >>= λ b. ok (written b)) ≡ raise buffer_write_error
unfolding push_uint8 push_bytes
push_full = refl

push_truncated :
    (push_uint16 (new (0 ∷ 0 ∷ [])) 0x12345 >>= λ b. ok (written b)) ≡ ok (0x23 ∷ 0x45 ∷ [])
unfolding push_uint16 push_bytes
push_truncated = refl

seek_past_end : seek (new (1 ∷ [])) 2 ≡ raise buffer_read_error
unfolding seek
seek_past_end = refl

slice_of_data : data_slice (new (1 ∷ 2 ∷ 3 ∷ [])) 1 3 ≡ ok (2 ∷ 3 ∷ [])
unfolding data_slice
slice_of_data = refl

-- The sample numbers of RFC 9000.
two_bytes : encode_uint_var eight 15293 ≡ ok (0x7B ∷ 0xBD ∷ [])
unfolding encode_uint_var push_uint_var push_bytes
two_bytes = refl

eight_bytes :
    encode_uint_var eight 151288809941952652
    ≡ ok (0xC2 ∷ 0x19 ∷ 0x7C ∷ 0x5E ∷ 0xFF ∷ 0x14 ∷ 0xE8 ∷ 0x8C ∷ [])
unfolding encode_uint_var push_uint_var push_bytes
eight_bytes = refl

pulled_eight :
    (pull_uint_var (new (0xC2 ∷ 0x19 ∷ 0x7C ∷ 0x5E ∷ 0xFF ∷ 0x14 ∷ 0xE8 ∷ 0x8C ∷ [])) >>= λ (v, b).
    ok v)
    ≡ ok 151288809941952652
unfolding pull_uint_var
pulled_eight = refl
