-- ===== src/Packet/Header.antt =====
-- The headers of src/aioquic/quic/packet.py: `pull_quic_header` and the encoders of long headers.
-- Bytes are below 256: a mask is a division and a remainder. The fields of a header are read in the
-- order of the code, and an exception ends the reading.
pub mod Fields
pub mod Fuel
pub mod Bounds
pub mod FirstByte
use aioquic.Base.{
  ℕ, zero, suc, ◌+◌, ◌-◌, ◌*◌, ◌/◌, ◌%◌, Bool, true, false, List, [], ◌∷◌, ◌++◌, Option, none, some,
  ltb, leb, ◌==◌, if◌then◌else◌, length,
}
use aioquic.Base.Exception.{
  Result, ok, raise, ◌>>=◌, ◌>>◌, ensure, assertion_error, key_error, value_error, type_error,
  buffer_read_error,
}
use aioquic.Buffer.{
  Buffer, new, capacity, eof, tell, written, pull_bytes, pull_uint8, pull_uint32, pull_uint_var,
  push_bytes, push_uint8, push_uint32,
}

pub data QuicPacketType : Type 0 where
  initial zero_rtt handshake retry version_negotiation one_rtt : QuicPacketType

abbrev pub version_2 : ℕ
version_2 = 0x6B3343CF

-- `PACKET_LONG_TYPE_ENCODE_VERSION_1`, `_2`: other packet types are not among the keys.
abbrev pub encode_version_1 : QuicPacketType → Result ℕ
encode_version_1 initial = ok 0
encode_version_1 zero_rtt = ok 1
encode_version_1 handshake = ok 2
encode_version_1 retry = ok 3
encode_version_1 version_negotiation = raise key_error
encode_version_1 one_rtt = raise key_error

abbrev pub encode_version_2 : QuicPacketType → Result ℕ
encode_version_2 initial = ok 1
encode_version_2 zero_rtt = ok 2
encode_version_2 handshake = ok 3
encode_version_2 retry = ok 0
encode_version_2 version_negotiation = raise key_error
encode_version_2 one_rtt = raise key_error

-- `PACKET_LONG_TYPE_DECODE_VERSION_1`, `_2`, at the two bits of a first byte.
abbrev pub decode_version_1 : ℕ → Result QuicPacketType
decode_version_1 zero = ok initial
decode_version_1 (suc zero) = ok zero_rtt
decode_version_1 (suc (suc zero)) = ok handshake
decode_version_1 (suc (suc (suc zero))) = ok retry
decode_version_1 (suc (suc (suc (suc n)))) = raise key_error

abbrev pub decode_version_2 : ℕ → Result QuicPacketType
decode_version_2 zero = ok retry
decode_version_2 (suc zero) = ok initial
decode_version_2 (suc (suc zero)) = ok zero_rtt
decode_version_2 (suc (suc (suc zero))) = ok handshake
decode_version_2 (suc (suc (suc (suc n)))) = raise key_error

pub record QuicHeader : Type 0 where
  pub version : Option ℕ
  pub packet_type : QuicPacketType
  pub packet_length : ℕ
  pub destination_cid : List ℕ
  pub source_cid : List ℕ
  pub token : List ℕ
  pub integrity_tag : List ℕ
  pub supported_versions : List ℕ

-- `first_byte & 0x20`, `first_byte & 0x80` and `first_byte & 0x40`.
abbrev pub get_spin_bit : ℕ → Bool
get_spin_bit first_byte = first_byte / 32 % 2 == 1

abbrev pub is_long_header : ℕ → Bool
is_long_header first_byte = first_byte / 128 % 2 == 1

abbrev pub has_fixed_bit : ℕ → Bool
has_fixed_bit first_byte = first_byte / 64 % 2 == 1

-- The packet type of a long header.
unfoldable pub long_type : ℕ → ℕ → Result QuicPacketType
long_type version first_byte =
    if version == version_2
    then decode_version_2 (first_byte / 16 % 4)
    else decode_version_1 (first_byte / 16 % 4)

-- A connection ID with its length, at most `CONNECTION_ID_MAX_SIZE`.
unfoldable pub pull_cid : Buffer → Result (List ℕ × Buffer)
pull_cid b = do (size, b) ← pull_uint8 b; ensure (leb size 20) value_error; pull_bytes b size

-- The `while` loop over supported versions. A round that does not raise moves `pos` by four; so as
-- many rounds as there are bytes left are enough.
unfoldable pub pull_versions : ℕ → Buffer → Result (List ℕ × Buffer)
pull_versions zero b = ok ([], b)
pull_versions (suc fuel) b =
    if eof b
    then ok ([], b)
    else (pull_uint32 b >>= λ (v, b'). (pull_versions fuel b' >>= λ (vs, b''). ok (v ∷ vs, b'')))

-- The `else` branch: the token of a RETRY packet is what stands before the integrity tag. Where it
-- would have a negative length, `pull_bytes` raises.
unfoldable pub pull_retry : Buffer → Result ((List ℕ × List ℕ × ℕ) × Buffer)
pull_retry b = do
  ensure (leb (tell b + 16) (capacity b)) buffer_read_error
  (token, b) ← pull_bytes b (capacity b - tell b - 16)
  (integrity_tag, b) ← pull_bytes b 16
  ok ((token, integrity_tag, 0), b)

-- The branches for ZERO_RTT and HANDSHAKE.
pub pull_rest_length : Buffer → Result ((List ℕ × List ℕ × ℕ) × Buffer)
pull_rest_length b = do (rest_length, b) ← pull_uint_var b; ok (([], [], rest_length), b)

-- The token, the integrity tag and the length of the rest.
unfoldable pub pull_fields : QuicPacketType → Buffer → Result ((List ℕ × List ℕ × ℕ) × Buffer)
pull_fields initial b = do
  (token_length, b) ← pull_uint_var b
  (token, b) ← pull_bytes b token_length
  (rest_length, b) ← pull_uint_var b
  ok ((token, [], rest_length), b)
pull_fields zero_rtt b = pull_rest_length b
pull_fields handshake b = pull_rest_length b
pull_fields retry b = pull_retry b
pull_fields version_negotiation b = pull_retry b
pull_fields one_rtt b = pull_retry b

-- The rest of a long header that is no version negotiation.
unfoldable pub pull_long_rest : Buffer → ℕ → ℕ → ℕ → List ℕ → List ℕ → Result (QuicHeader × Buffer)
pull_long_rest b packet_start first_byte version destination_cid source_cid = do
  ensure (has_fixed_bit first_byte) value_error
  packet_type ← long_type version first_byte
  ((token, integrity_tag, rest_length), b) ← pull_fields packet_type b
  ensure (leb (tell b + rest_length) (capacity b)) value_error
  ok (
    record {
      version = some version;
      packet_type = packet_type;
      packet_length = tell b + rest_length - packet_start;
      destination_cid = destination_cid;
      source_cid = source_cid;
      token = token;
      integrity_tag = integrity_tag;
      supported_versions = [];
    },
    b,
  )

unfoldable pub pull_negotiation : Buffer → ℕ → List ℕ → List ℕ → Result (QuicHeader × Buffer)
pull_negotiation b packet_start destination_cid source_cid = do
  (versions, b) ← pull_versions (capacity b - tell b) b
  ok (
    record {
      version = some 0;
      packet_type = version_negotiation;
      packet_length = tell b - packet_start;
      destination_cid = destination_cid;
      source_cid = source_cid;
      token = [];
      integrity_tag = [];
      supported_versions = versions;
    },
    b,
  )

unfoldable pub pull_long : Buffer → ℕ → ℕ → Result (QuicHeader × Buffer)
pull_long b packet_start first_byte = do
  (version, b) ← pull_uint32 b
  (destination_cid, b) ← pull_cid b
  (source_cid, b) ← pull_cid b
  if version == 0
      then pull_negotiation b packet_start destination_cid source_cid
      else pull_long_rest b packet_start first_byte version destination_cid source_cid

-- `buf.pull_bytes(host_cid_length)`
pub pull_host_cid : Buffer → Option ℕ → Result (List ℕ × Buffer)
pull_host_cid b none = raise type_error
pull_host_cid b (some host_cid_length) = pull_bytes b host_cid_length

pub pull_short : Buffer → ℕ → ℕ → Option ℕ → Result (QuicHeader × Buffer)
pull_short b packet_start first_byte host_cid_length = do
  ensure (has_fixed_bit first_byte) value_error
  (destination_cid, b) ← pull_host_cid b host_cid_length
  ok (
    record {
      version = none;
      packet_type = one_rtt;
      packet_length = capacity b - packet_start;
      destination_cid = destination_cid;
      source_cid = [];
      token = [];
      integrity_tag = [];
      supported_versions = [];
    },
    b,
  )

unfoldable pub pull_quic_header : Buffer → Option ℕ → Result (QuicHeader × Buffer)
pull_quic_header b host_cid_length = do
  (first_byte, b') ← pull_uint8 b
  if is_long_header first_byte
      then pull_long b' (tell b) first_byte
      else pull_short b' (tell b) first_byte host_cid_length

-- `bits` has no bit above the four lowest.
unfoldable pub encode_long_header_first_byte : ℕ → QuicPacketType → ℕ → Result ℕ
encode_long_header_first_byte version packet_type bits = do
  long_type ←
      if version == version_2 then encode_version_2 packet_type else encode_version_1 packet_type
  ok (0x80 + 0x40 + long_type * 16 + bits)
