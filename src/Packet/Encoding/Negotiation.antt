-- ===== src/Packet/Encoding/Negotiation.antt =====
-- A version negotiation packet is read as it was written: encode_quic_version_negotiation and
-- pull_quic_header of src/aioquic/quic/packet.py.
use aioquic.Base.{
  ℕ, zero, suc, ◌+◌, ◌-◌, ◌*◌, ◌/◌, ◌%◌, ◌≤◌, ◌<◌, ◌≡◌, refl, ap, ◌∙◌, arith, true, false, inl, inr,
  Bool-cases, Option, some, List, [], ◌∷◌, ◌++◌, ◌==◌, length, length-append, length-drop,
  length-replicate, replicate,
}
use aioquic.Base.Exception.{ok}
use aioquic.Buffer.{Buffer, new, advance, capacity, tell, eof, written, uint32_bytes}
use aioquic.Buffer.Codes.{Writes-then, written-put}
use aioquic.Buffer.Pulls.{rest, rest-advance, InBounds, advance-InBounds, pull_uint32_lem}
use aioquic.Packet.Header.{
  QuicHeader, version_negotiation, is_long_header, pull_versions, pull_negotiation,
  pull_quic_header,
}
use aioquic.Packet.TransportParameters.Values.{
  AllUint32, version_bytes, length-version_bytes, push_versions_lem,
}
use aioquic.Packet.Encoding.{or_0x80, push_prefix, encode_quic_version_negotiation}
use aioquic.Packet.Encoding.Prefix.{
  prefix_bytes, length-prefix_bytes, push_prefix_lem, after_prefix, pull_prefix_lem,
}

pull_all_versions :
    (versions : List ℕ) (fuel : ℕ) (b : Buffer)
    → AllUint32 versions
    → InBounds b
    → rest b ≡ version_bytes versions
    → length versions ≤ fuel
    → pull_versions fuel b ≡ ok (versions, advance b (length (version_bytes versions)))
unfolding pull_versions
pull_all_versions [] zero b v i e h = ap (λ n. ok ([], record b { pos = n })) (omega arith)
pull_all_versions [] (suc fuel) b v i e h =
    let done : eof b ≡ true = ground (arith, ap length e, length-drop b.pos b.memory, i) in
    rw done (ap (λ n. ok ([], record b { pos = n })) (omega arith))
pull_all_versions (version ∷ versions) zero b v i e h = elim h [ ]
pull_all_versions (version ∷ versions) (suc fuel) b (v, vs) i e h =
    let c = advance b 4 in
    let i1 = advance-InBounds b (uint32_bytes version) (version_bytes versions) i e in
    let e1 = rest-advance b (uint32_bytes version) (version_bytes versions) e in
    let more : eof b ≡ false = ground (arith, i1) in
    let sum = length-append (uint32_bytes version) (version_bytes versions) in
    rw
      (
        more,
        pull_uint32_lem version v b (version_bytes versions) i e,
        pull_all_versions versions fuel c vs i1 e1 (omega arith),
      )
      (ap (λ n. ok (version ∷ versions, record b { pos = n })) (omega (arith, sum)))

first_byte_lem :
    (random : ℕ) → random < 256 → (or_0x80 random < 256) × (is_long_header (or_0x80 random) ≡ true)
first_byte_lem random h = elim (Bool-cases (random / 128 % 2 == 1)) [
  | inl e ↦ rw e (h, e)
  | inr e ↦ rw e (ground arith, ground arith)
]

abbrev pub negotiation_header : ℕ → List ℕ → List ℕ → List ℕ → QuicHeader
negotiation_header packet_length source_cid destination_cid supported_versions = record {
  version = some 0;
  packet_type = version_negotiation;
  packet_length = packet_length;
  destination_cid = destination_cid;
  source_cid = source_cid;
  token = [];
  integrity_tag = [];
  supported_versions = supported_versions;
}

pull_negotiation_lem :
    (c : Buffer) (start n : ℕ) (d s versions : List ℕ)
    → capacity c ≡ start + n
    → AllUint32 versions
    → InBounds c
    → rest c ≡ version_bytes versions
    → pull_negotiation c start d s
      ≡ ok (negotiation_header n s d versions, record { memory = c.memory; pos = capacity c })
unfolding pull_negotiation
pull_negotiation_lem c start n d s versions k v i e =
    let here : c.pos + length (version_bytes versions) ≡ capacity c =
      omega (arith, ap length e, length-drop c.pos c.memory, i) in
    rw
      (pull_all_versions versions (capacity c - tell c) c v i e
        (omega (arith, here, length-version_bytes versions)))
      (ap (λ m. ok (negotiation_header (m - start) s d versions, record c { pos = m })) here
        ∙ ap (λ m. ok (negotiation_header m s d versions, record c { pos = capacity c }))
            (omega (arith, k)))

push_negotiation_lem :
    (random : ℕ) (s d versions : List ℕ)
    → encode_quic_version_negotiation random s d versions
      ≡ ok (prefix_bytes (or_0x80 random) 0 d s ++ version_bytes versions)
unfolding encode_quic_version_negotiation
push_negotiation_lem random s d versions =
    let front = prefix_bytes (or_0x80 random) 0 d s in
    let bytes = front ++ version_bytes versions in
    let size = 7 + length d + length s + 4 * length versions in
    let b = new (replicate size 0) in
    let room : b.pos + length bytes ≤ length b.memory = omega (
      arith,
      length-append front (version_bytes versions),
      length-prefix_bytes (or_0x80 random) 0 d s,
      length-version_bytes versions,
      length-replicate {A = ℕ} size 0,
    ) in
    Writes-then (push_prefix (or_0x80 random) 0 d s) _ front (version_bytes versions) written
      (push_prefix_lem (or_0x80 random) 0 d s) (λ c h. rw (push_versions_lem versions c h) refl) b
      room
    ∙ ap ok (written-put b bytes room)

-- The encoding of a version negotiation packet does not raise, and `pull_quic_header` reads its
-- bytes, whatever the random byte and the length that it takes short headers to have: the
-- connection identifiers and the supported versions are those that were given, and the packet is
-- all the bytes. The identifiers have at most 20 bytes and the versions 32 bits.
pub version_negotiation_lem :
    (random : ℕ) (source_cid destination_cid supported_versions : List ℕ)
    (host_cid_length : Option ℕ)
    → random < 256
    → length source_cid ≤ 20
    → length destination_cid ≤ 20
    → AllUint32 supported_versions
    → (bytes : List ℕ) × (encode_quic_version_negotiation random source_cid destination_cid
          supported_versions
        ≡ ok bytes)
      × (pull_quic_header (new bytes) host_cid_length
          ≡ ok (
            negotiation_header (length bytes) source_cid destination_cid supported_versions,
            record { memory = bytes; pos = length bytes },
          ))
version_negotiation_lem random s d vs host f sl dl v =
    let byte = or_0x80 random in
    let bytes = prefix_bytes byte 0 d s ++ version_bytes vs in
    let first = first_byte_lem random f in
    let r =
      pull_prefix_lem (new bytes) host byte 0 d s (version_bytes vs) first.0 first.1 (omega arith)
        dl sl (omega arith) refl in
    (
      bytes,
      push_negotiation_lem random s d vs,
      r.goes_on
          ∙ pull_negotiation_lem (after_prefix (new bytes) d s) 0 (length bytes) d s vs
              (omega arith) v r.bound r.left,
    )
