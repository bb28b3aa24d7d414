-- ===== src/Packet/Encoding/Examples.antt =====
-- A version negotiation packet and a RETRY packet (src/aioquic/quic/packet.py).
use aioquic.Base.{
  ℕ, ◌≡◌, refl, arith, none, some, List, [], ◌∷◌, ◌++◌, length, replicate, length-append,
}
use aioquic.Base.Exception.{ok}
use aioquic.Buffer.{new, push_uint8, push_bytes, push_uint32}
use aioquic.Packet.Header.{pull_quic_header}
use aioquic.Packet.TransportParameters.{push_versions}
use aioquic.Packet.Encoding.{
  Encrypt, push_prefix, get_retry_integrity_tag, encode_quic_retry, encode_quic_version_negotiation,
}
use aioquic.Packet.Encoding.Negotiation.{negotiation_header, version_negotiation_lem}
use aioquic.Packet.Encoding.Seal.{AddsTag}
use aioquic.Packet.Encoding.Retry.{retry_header, retry_lem}

abbrev client_cid : List ℕ
client_cid = 1 ∷ 2 ∷ 3 ∷ []

abbrev server_cid : List ℕ
server_cid = 9 ∷ 8 ∷ []

abbrev versions : List ℕ
versions = 1 ∷ 0x6B3343CF ∷ []

encode_quic_version_negotiation-bytes :
    encode_quic_version_negotiation 5 server_cid client_cid versions
    ≡ ok (
        133 ∷ 0 ∷ 0 ∷ 0 ∷ 0 ∷ 3 ∷ 1 ∷ 2 ∷ 3 ∷ 2 ∷ 9 ∷ 8 ∷ 0 ∷ 0 ∷ 0 ∷ 1 ∷ 0x6B ∷ 0x33 ∷ 0x43 ∷ 0xCF
        ∷ [])
unfolding encode_quic_version_negotiation push_prefix push_uint8 push_bytes push_uint32
    push_versions
encode_quic_version_negotiation-bytes = refl

version_negotiation_lem_example :
    (bytes : List ℕ) × (encode_quic_version_negotiation 5 server_cid client_cid versions ≡ ok bytes)
    × (pull_quic_header (new bytes) (some 8)
        ≡ ok (
          negotiation_header (length bytes) server_cid client_cid versions,
          record { memory = bytes; pos = length bytes },
        ))
version_negotiation_lem_example =
    version_negotiation_lem 5 server_cid client_cid versions (some 8) (omega arith) (omega arith)
      (omega arith) (omega arith, (omega arith, tt))

-- The plain text with the length of what is authenticated.
abbrev length_tag : Encrypt
length_tag key nonce plain associated_data = plain ++ replicate 16 (length associated_data)

length_tag-AddsTag : AddsTag length_tag
length_tag-AddsTag key nonce plain associated_data =
    length-append plain (replicate 16 (length associated_data))

retry_lem_example :
    (packet : List ℕ) × (tag : List ℕ) × (encode_quic_retry length_tag 1 server_cid client_cid
        (4 ∷ 4 ∷ 4 ∷ 4 ∷ [])
        (7 ∷ 7 ∷ [])
        0
      ≡ ok (packet ++ tag))
    × (get_retry_integrity_tag length_tag packet (4 ∷ 4 ∷ 4 ∷ 4 ∷ []) 1 ≡ ok tag)
    × (pull_quic_header (new (packet ++ tag)) none
        ≡ ok (
          retry_header (length (packet ++ tag)) 1 server_cid client_cid (7 ∷ 7 ∷ []) tag,
          record { memory = packet ++ tag; pos = length (packet ++ tag) },
        ))
retry_lem_example =
    retry_lem length_tag length_tag-AddsTag 1 server_cid client_cid (4 ∷ 4 ∷ 4 ∷ 4 ∷ [])
      (7 ∷ 7 ∷ []) 0 none (omega arith) refl (omega arith) (omega arith) (omega arith)
