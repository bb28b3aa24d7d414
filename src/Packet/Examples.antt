-- ===== src/Packet/Examples.antt =====
-- Packets, after tests/test_packet.py, and the theorems at concrete ones.
use aioquic.Base.{
  ℕ, ◌%◌, ◌≤◌, ◌<◌, ◌≡◌, ◌⊎◌, refl, arith, List, [], ◌∷◌, ◌++◌, length, replicate, none, some,
}
use aioquic.Base.Exception.{ok, ◌>>=◌}
use aioquic.RangeSet.{RangeSet, range, add, add_loop, get_item}
use aioquic.Buffer.{
  Buffer, new, written, pull_bytes, pull_uint8, pull_uint32, pull_uint_var, push_uint_var,
  push_bytes,
}
use aioquic.Buffer.Pulls.{Pulls}
use aioquic.Packet.Number.{decode_packet_number, decode_packet_number_lem}
use aioquic.Packet.Ack.{
  acks, below_zero, add_range, next_range, pull_ranges, pull_ack_frame, push_ranges, push_ack_frame,
}
use aioquic.Packet.Ack.RoundTrip.{ack_bytes, ack_frame_lem}
use aioquic.Packet.Ack.Ranges.{range_bytes}
use aioquic.Packet.Header.{
  QuicHeader, initial, pull_quic_header, pull_long, pull_cid, pull_long_rest, pull_fields,
  long_type,
}
use aioquic.Packet.Header.Bounds.{pull_quic_header_lem}

decode_packet_number_lem_example :
    decode_packet_number (0xA82F9B32 % 65536) 16 0xA82F30EB ≡ 0xA82F9B32
decode_packet_number_lem_example =
    decode_packet_number_lem 0xA82F9B32 0xA82F30EB 2 (omega arith) (omega arith) (omega arith)
      (omega arith) (omega arith)

abbrev seen : RangeSet
seen = range 0 6 ∷ range 8 10 ∷ []

pushed_ack :
    ◌>>=◌ {B = ℕ × List ℕ}
      (push_ack_frame (new (replicate 8 0)) seen 2)
      (λ (n, b). ok (n, written b))
    ≡ ok (2, 9 ∷ 2 ∷ 1 ∷ 1 ∷ 1 ∷ 5 ∷ [])
unfolding push_ack_frame push_ranges get_item push_uint_var push_bytes
pushed_ack = refl

pulled_ack :
    (pull_ack_frame (new (9 ∷ 2 ∷ 1 ∷ 1 ∷ 1 ∷ 5 ∷ [])) >>= λ (f, b). ok f) ≡ ok (acks seen 2)
unfolding pull_ack_frame pull_ranges next_range add_range add add_loop pull_uint_var
pulled_ack = refl

-- A first range that is longer than the largest number acknowledged.
negative_ack : (pull_ack_frame (new (3 ∷ 2 ∷ 0 ∷ 5 ∷ [])) >>= λ (f, b). ok f) ≡ ok below_zero
unfolding pull_ack_frame pull_ranges add_range pull_uint_var
negative_ack = refl

ack_frame_lem_example :
    (b : Buffer) × (push_ack_frame (new (replicate 8 0)) seen 2 ≡ ok (2, b))
    × (written b ≡ written (new (replicate 8 0)) ++ ack_bytes seen 2)
    × Pulls pull_ack_frame (ack_bytes seen 2) (acks seen 2)
unfolding ack_bytes range_bytes get_item
ack_frame_lem_example =
    ack_frame_lem seen 2 (new (replicate 8 0)) (omega arith) (omega arith) (omega arith)
      (omega arith) (omega arith)

-- An INITIAL packet of two bytes, with connection IDs of one byte each.
abbrev datagram : List ℕ
datagram = 0xC0 ∷ 0 ∷ 0 ∷ 0 ∷ 1 ∷ 1 ∷ 7 ∷ 1 ∷ 9 ∷ 0 ∷ 2 ∷ 5 ∷ 6 ∷ []

abbrev header : QuicHeader
header = record {
  version = some 1;
  packet_type = initial;
  packet_length = 13;
  destination_cid = 7 ∷ [];
  source_cid = 9 ∷ [];
  token = [];
  integrity_tag = [];
  supported_versions = [];
}

abbrev after_header : Buffer
after_header = record { memory = datagram; pos = 11 }

pulled_header : pull_quic_header (new datagram) none ≡ ok (header, after_header)
unfolding pull_quic_header pull_long pull_cid pull_long_rest pull_fields long_type pull_uint8
    pull_uint32 pull_bytes pull_uint_var
pulled_header = refl

pull_quic_header_lem_example :
    (datagram ≡ datagram)
    × (0 < 11)
    × (11 ≤ 13)
    × (13 ≤ 13)
    × ((header.version ≡ none)
        ⊎ ((length header.destination_cid ≤ 20) × (length header.source_cid ≤ 20)))
pull_quic_header_lem_example =
    pull_quic_header_lem (new datagram) after_header none header pulled_header
