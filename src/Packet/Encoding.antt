-- ===== src/Packet/Encoding.antt =====
-- The packets that are encoded whole, of src/aioquic/quic/packet.py: encode_quic_retry with
-- get_retry_integrity_tag, and encode_quic_version_negotiation. The byte of os.urandom and AES-GCM
-- are parameters; what is encoded does not depend on what a new buffer holds.
pub mod Prefix
pub mod Negotiation
pub mod Seal
pub mod Retry
mod Examples
use aioquic.Base.{
  ℕ, suc, ◌+◌, ◌*◌, ◌/◌, ◌%◌, Bool, List, [], ◌∷◌, ◌++◌, ◌==◌, if◌then◌else◌, length, replicate,
}
use aioquic.Base.Exception.{Result, ok, ◌>>=◌, ◌>>◌, ensure, assertion_error}
use aioquic.Buffer.{Buffer, new, eof, written, push_bytes, push_uint8, push_uint32}
use aioquic.Packet.Header.{retry, version_2, encode_long_header_first_byte}
use aioquic.Packet.TransportParameters.{push_versions}

-- `byte | PACKET_LONG_HEADER`
abbrev pub or_0x80 : ℕ → ℕ
or_0x80 byte = if byte / 128 % 2 == 1 then byte else byte + 128

-- The version and the connection identifiers of a long header.
pub push_prefix : ℕ → ℕ → List ℕ → List ℕ → Buffer → Result Buffer
push_prefix first_byte version destination_cid source_cid b = do
  b ← push_uint8 b first_byte
  b ← push_uint32 b version
  b ← push_uint8 b (length destination_cid)
  b ← push_bytes b destination_cid
  b ← push_uint8 b (length source_cid)
  push_bytes b source_cid

pub encode_quic_version_negotiation : ℕ → List ℕ → List ℕ → List ℕ → Result (List ℕ)
encode_quic_version_negotiation random source_cid destination_cid supported_versions = do
  b ← push_prefix (or_0x80 random) 0 destination_cid source_cid (
      new (
        replicate (7 + length destination_cid + length source_cid + 4 * length supported_versions)
          0))
  b ← push_versions supported_versions b
  ok (written b)

-- RETRY_AEAD_KEY_VERSION_1 and _2, and the nonces.
abbrev pub retry_key_1 : List ℕ
retry_key_1 =
    0xbe ∷ 0x0c ∷ 0x69 ∷ 0x0b ∷ 0x9f ∷ 0x66 ∷ 0x57 ∷ 0x5a ∷ 0x1d ∷ 0x76 ∷ 0x6b ∷ 0x54 ∷ 0xe3 ∷ 0x68
    ∷ 0xc8 ∷ 0x4e ∷ []

abbrev pub retry_key_2 : List ℕ
retry_key_2 =
    0x8f ∷ 0xb4 ∷ 0xb0 ∷ 0x1b ∷ 0x56 ∷ 0xac ∷ 0x48 ∷ 0xe2 ∷ 0x60 ∷ 0xfb ∷ 0xcb ∷ 0xce ∷ 0xad ∷ 0x7c
    ∷ 0xcc ∷ 0x92 ∷ []

abbrev pub retry_nonce_1 : List ℕ
retry_nonce_1 =
    0x46 ∷ 0x15 ∷ 0x99 ∷ 0xd3 ∷ 0x5d ∷ 0x63 ∷ 0x2b ∷ 0xf2 ∷ 0x23 ∷ 0x98 ∷ 0x25 ∷ 0xbb ∷ []

abbrev pub retry_nonce_2 : List ℕ
retry_nonce_2 =
    0xd8 ∷ 0x69 ∷ 0x69 ∷ 0xbc ∷ 0x2d ∷ 0x7c ∷ 0x6d ∷ 0x99 ∷ 0x90 ∷ 0xef ∷ 0xb0 ∷ 0x4a ∷ []

-- `AESGCM(key).encrypt(nonce, data, associated_data)`
abbrev pub Encrypt : Type 0
Encrypt = List ℕ → List ℕ → List ℕ → List ℕ → List ℕ

module _ (encrypt : Encrypt) where
  unfoldable pub get_retry_integrity_tag : List ℕ → List ℕ → ℕ → Result (List ℕ)
  get_retry_integrity_tag packet_without_tag original_destination_cid version = do
    b ←
        push_uint8
          (new (replicate (1 + length original_destination_cid + length packet_without_tag) 0))
          (length original_destination_cid)
    b ← push_bytes b original_destination_cid
    b ← push_bytes b packet_without_tag
    ensure (eof b) assertion_error
    let integrity_tag =
        if version == version_2
        then encrypt retry_key_2 retry_nonce_2 [] (written b)
        else encrypt retry_key_1 retry_nonce_1 [] (written b)
    ensure (length integrity_tag == 16) assertion_error
    ok integrity_tag

  unfoldable pub encode_quic_retry : ℕ → List ℕ → List ℕ → List ℕ → List ℕ → ℕ → Result (List ℕ)
  encode_quic_retry version source_cid destination_cid original_destination_cid retry_token unused =
      do
        first_byte ← encode_long_header_first_byte version retry unused
        b ← push_prefix first_byte version destination_cid source_cid (
            new (
              replicate (7 + length destination_cid + length source_cid + length retry_token + 16)
                0))
        b ← push_bytes b retry_token
        tag ← get_retry_integrity_tag (written b) original_destination_cid version
        b ← push_bytes b tag
        ensure (eof b) assertion_error
        ok (written b)
