-- ===== src/Packet/Header/FirstByte.antt =====
-- The first byte of a long header, written and read (src/aioquic/quic/packet.py).
use aioquic.Base.{ℕ, ◌+◌, ◌*◌, ◌/◌, ◌%◌, ◌<◌, ◌≡◌, refl, arith, true, ◌==◌, inl, inr, Bool-cases}
use mathlib.Core.Path.{subst}
use aioquic.Base.Exception.{Result, ok}
use aioquic.Buffer.Moves.{bind-inv}
use aioquic.Packet.Header.{
  QuicPacketType, initial, zero_rtt, handshake, retry, version_negotiation, one_rtt, version_2,
  encode_version_1, encode_version_2, decode_version_1, decode_version_2, is_long_header,
  has_fixed_bit, long_type, encode_long_header_first_byte,
}

abbrev Coded : (ℕ → Result QuicPacketType) → QuicPacketType → ℕ → Type 0
Coded decode p n = (n < 4) × (decode n ≡ ok p)

coded :
    (decode : ℕ → Result QuicPacketType) (p : QuicPacketType) (m n : ℕ)
    → Coded decode p m
    → ok m ≡ ok n
    → Coded decode p n
coded decode p m n c h = let same : m ≡ n = ground (arith, h) in subst (Coded decode p) same c

decode-encode_1 :
    (p : QuicPacketType) (n : ℕ) → encode_version_1 p ≡ ok n → Coded decode_version_1 p n
decode-encode_1 initial n h = coded decode_version_1 initial 0 n (omega arith, refl) h
decode-encode_1 zero_rtt n h = coded decode_version_1 zero_rtt 1 n (omega arith, refl) h
decode-encode_1 handshake n h = coded decode_version_1 handshake 2 n (omega arith, refl) h
decode-encode_1 retry n h = coded decode_version_1 retry 3 n (omega arith, refl) h
decode-encode_1 version_negotiation n h = absurd (ground (arith, h))
decode-encode_1 one_rtt n h = absurd (ground (arith, h))

decode-encode_2 :
    (p : QuicPacketType) (n : ℕ) → encode_version_2 p ≡ ok n → Coded decode_version_2 p n
decode-encode_2 initial n h = coded decode_version_2 initial 1 n (omega arith, refl) h
decode-encode_2 zero_rtt n h = coded decode_version_2 zero_rtt 2 n (omega arith, refl) h
decode-encode_2 handshake n h = coded decode_version_2 handshake 3 n (omega arith, refl) h
decode-encode_2 retry n h = coded decode_version_2 retry 0 n (omega arith, refl) h
decode-encode_2 version_negotiation n h = absurd (ground (arith, h))
decode-encode_2 one_rtt n h = absurd (ground (arith, h))

parts :
    (n bits byte : ℕ)
    → n < 4
    → bits < 16
    → ok (0x80 + 0x40 + n * 16 + bits) ≡ ok byte
    → (byte < 256)
      × (is_long_header byte ≡ true)
      × (has_fixed_bit byte ≡ true)
      × (byte % 16 ≡ bits)
      × (byte / 16 % 4 ≡ n)
parts n bits byte a b h =
    let value : 0x80 + 0x40 + n * 16 + bits ≡ byte = ground (arith, h) in
    (omega arith, ground arith, ground arith, omega arith, omega arith)

-- The first byte that is encoded for a long header is a byte, is read as that of a long header
-- with its fixed bit set, and tells the packet type and the four low bits, in both versions.
pub long_header_first_byte_lem :
    (version : ℕ) (packet_type : QuicPacketType) (bits first_byte : ℕ)
    → bits < 16
    → encode_long_header_first_byte version packet_type bits ≡ ok first_byte
    → (first_byte < 256)
      × (is_long_header first_byte ≡ true)
      × (has_fixed_bit first_byte ≡ true)
      × (first_byte % 16 ≡ bits)
      × (long_type version first_byte ≡ ok packet_type)
unfolding encode_long_header_first_byte long_type
long_header_first_byte_lem version p bits byte h e = elim (Bool-cases (version == version_2)) [
  | inl v ↦
      let (n, e1, h1) = bind-inv (encode_version_2 p) _ byte (rw v at e) in
      let (small, back) = decode-encode_2 p n e1 in
      let (a, b, c, d, code) = parts n bits byte small h h1 in (a, b, c, d, rw (v, code) back)
  | inr v ↦
      let (n, e1, h1) = bind-inv (encode_version_1 p) _ byte (rw v at e) in
      let (small, back) = decode-encode_1 p n e1 in
      let (a, b, c, d, code) = parts n bits byte small h h1 in (a, b, c, d, rw (v, code) back)
]
