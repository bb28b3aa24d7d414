-- ===== src/Packet/Number.antt =====
-- `decode_packet_number` of src/aioquic/quic/packet.py.
use aioquic.Base.{
  ℕ, zero, suc, ◌+◌, ◌-◌, ◌*◌, ◌/◌, ◌%◌, ◌^◌, ◌≤◌, ◌<◌, ◌≡◌, arith, ◌&&◌, ltb, leb, if◌then◌else◌,
}

-- `truncated` is below the window; so `|` is `+`, and a difference that Python compares with a
-- number is moved to the other side, where it cannot be negative.
pub decode_packet_number : ℕ → ℕ → ℕ → ℕ
decode_packet_number truncated num_bits expected =
    let window = 2 ^ num_bits in
    let half_window = window / 2 in
    let candidate = expected / window * window + truncated in
    if leb (candidate + half_window) expected && ltb (candidate + window) (2 ^ 62)
    then candidate + window
    else if ltb (expected + half_window) candidate && leb window candidate
    then candidate - window
    else candidate

-- A packet number below 2^62 that is sent in one to four bytes is recovered, when it lies less
-- than half a window below the expected number, or at most half a window above it.
pub decode_packet_number_lem :
    (packet_number expected size : ℕ)
    → packet_number < 2 ^ 62
    → 0 < size
    → size ≤ 4
    → expected < packet_number + 2 ^ (8 * size) / 2
    → packet_number ≤ expected + 2 ^ (8 * size) / 2
    → decode_packet_number (packet_number % 2 ^ (8 * size)) (8 * size) expected ≡ packet_number
unfolding decode_packet_number
decode_packet_number_lem p e zero b h k l m = absurd (omega arith)
decode_packet_number_lem p e (suc zero) b h k l m = ground arith
decode_packet_number_lem p e (suc (suc zero)) b h k l m = ground arith
decode_packet_number_lem p e (suc (suc (suc zero))) b h k l m = ground arith
decode_packet_number_lem p e (suc (suc (suc (suc zero)))) b h k l m = ground arith
decode_packet_number_lem p e (suc (suc (suc (suc (suc n))))) b h k l m = absurd (omega arith)
