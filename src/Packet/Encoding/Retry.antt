-- ===== src/Packet/Encoding/Retry.antt =====
-- A RETRY packet is read as it was written, and its integrity tag is the one that the client
-- computes: encode_quic_retry, get_retry_integrity_tag and pull_quic_header of
-- src/aioquic/quic/packet.py.
use aioquic.Base.{
  ℕ, ◌+◌, ◌-◌, ◌^◌, ◌≤◌, ◌<◌, ◌≡◌, refl, ap, sym, ◌∙◌, arith, true, false, leb, inl, inr,
  Bool-cases, Option, some, List, [], ◌++◌, ◌==◌, length, length-append, length-drop,
  length-replicate, replicate, append-nil, append_assoc, le→leb,
}
use mathlib.Core.Path.{subst}
use aioquic.Base.Exception.{Result, ok, ◌>>=◌, ◌>>◌, ensure, assertion_error}
use aioquic.Buffer.{Buffer, new, advance, capacity, tell, eof, written, put, push_bytes, pull_bytes}
use aioquic.Buffer.Codes.{
  push_bytes_lem, Runs-then, eof-put, length-pushed, put-append, written-put,
}
use aioquic.Buffer.Pulls.{rest, rest-advance, InBounds, advance-InBounds, pull_bytes_lem}
use aioquic.Packet.Header.{
  QuicHeader, retry, version_2, has_fixed_bit, long_type, pull_retry, pull_fields, pull_long_rest,
  pull_quic_header, encode_long_header_first_byte,
}
use aioquic.Packet.Header.FirstByte.{long_header_first_byte_lem}
use aioquic.Packet.Encoding.{Encrypt, push_prefix, get_retry_integrity_tag, encode_quic_retry}
use aioquic.Packet.Encoding.Prefix.{
  prefix_bytes, length-prefix_bytes, push_prefix_lem, after_prefix, pull_prefix_lem,
}
use aioquic.Packet.Encoding.Seal.{AddsTag, seal, length-seal, pseudo_packet, integrity_tag_lem}

first_byte_lem :
    (version unused : ℕ)
    → (first_byte : ℕ) × (encode_long_header_first_byte version retry unused ≡ ok first_byte)
unfolding encode_long_header_first_byte
first_byte_lem version unused = elim (Bool-cases (version == version_2)) [
  | inl e ↦ rw e (_, refl)
  | inr e ↦ rw e (_, refl)
]

-- The rest of `encode_quic_retry`.
abbrev tagged : Encrypt → ℕ → List ℕ → Buffer → Result (List ℕ)
tagged encrypt version cid b = do
  tag ← get_retry_integrity_tag encrypt (written b) cid version
  b ← push_bytes b tag
  ensure (eof b) assertion_error
  ok (written b)

push_retry_lem :
    (encrypt : Encrypt) (version : ℕ) (s d cid token : List ℕ) (unused first_byte : ℕ)
    → AddsTag encrypt
    → encode_long_header_first_byte version retry unused ≡ ok first_byte
    → (packet : List ℕ) → packet ≡ prefix_bytes first_byte version d s ++ token
    → encode_quic_retry encrypt version s d cid token unused
      ≡ ok (packet ++ seal encrypt version (pseudo_packet packet cid))
unfolding encode_quic_retry
push_retry_lem encrypt version s d cid token unused first_byte h f packet same =
    let size = 7 + length d + length s + length token + 16 in
    let memory : List ℕ = replicate size 0 in
    let front = prefix_bytes first_byte version d s in
    let b = new memory in
    let tag = seal encrypt version (pseudo_packet packet cid) in
    let sum = ap length same ∙ length-append front token in
    let long : length packet + 16 ≡ length memory =
      omega
        (arith, sum, length-prefix_bytes first_byte version d s, length-replicate {A = ℕ} size 0) in
    let sixteen = length-seal encrypt version (pseudo_packet packet cid) h in
    let whole = length-append packet tag in
    let more = length-pushed b packet (omega (arith, long)) in
    let last : push_bytes (put b packet) tag ≡ ok (put b (packet ++ tag)) =
      push_bytes_lem tag (put b packet) (omega (arith, long, more, sixteen))
      ∙ ap ok (put-append b packet tag (omega (arith, long, sixteen))) in
    rw f (
      Runs-then (push_prefix first_byte version d s)
        (λ c. push_bytes c token >>= tagged encrypt version cid) front token
        (tagged encrypt version cid) (push_prefix_lem first_byte version d s)
        (λ c i. rw (push_bytes_lem token c i) refl) b
        (subst (λ t. b.pos + length t ≤ length b.memory) same (omega (arith, long)))
      ∙ ap (λ t. tagged encrypt version cid (put b t)) (sym same)
      ∙ rw
          (
            written-put b packet (omega (arith, long)),
            integrity_tag_lem encrypt packet cid version h,
            last,
            eof-put memory (packet ++ tag) (omega (arith, long, sixteen, whole)),
            written-put b (packet ++ tag) (omega (arith, long, sixteen, whole)),
          )
          refl)

abbrev pub retry_header : ℕ → ℕ → List ℕ → List ℕ → List ℕ → List ℕ → QuicHeader
retry_header packet_length version source_cid destination_cid token integrity_tag = record {
  version = some version;
  packet_type = retry;
  packet_length = packet_length;
  destination_cid = destination_cid;
  source_cid = source_cid;
  token = token;
  integrity_tag = integrity_tag;
  supported_versions = [];
}

pull_retry_lem :
    (c : Buffer) (start n first_byte version : ℕ) (d s token tag : List ℕ)
    → capacity c ≡ start + n
    → has_fixed_bit first_byte ≡ true
    → long_type version first_byte ≡ ok retry
    → length tag ≡ 16
    → InBounds c
    → rest c ≡ token ++ tag
    → pull_long_rest c start first_byte version d s
      ≡ ok (retry_header n version s d token tag, record { memory = c.memory; pos = capacity c })
unfolding pull_long_rest pull_fields pull_retry
pull_retry_lem c start n first_byte version d s token tag k fixed type sixteen i e =
    let b = advance c (length token) in
    let sum : length token + 16 + c.pos ≡ capacity c =
      omega (arith, ap length e, length-append token tag, sixteen, length-drop c.pos c.memory, i) in
    let size : capacity c - tell c - 16 ≡ length token = omega (arith, sum) in
    let fits : leb (tell c + 16) (capacity c) ≡ true =
      le→leb (tell c + 16) (capacity c) (omega (arith, sum)) in
    let end : tell b + 16 ≡ capacity c = omega (arith, sum) in
    let inside : leb (tell b + 16 + 0) (capacity c) ≡ true =
      le→leb (tell b + 16 + 0) (capacity c) (omega (arith, end)) in
    let b1 = advance-InBounds c token tag i e in
    let e1 = rest-advance c token tag e in
    let second : pull_bytes b 16 ≡ ok (tag, advance b 16) =
      subst (λ m. pull_bytes b m ≡ ok (tag, advance b m)) sixteen
        (pull_bytes_lem tag b [] b1 (e1 ∙ sym (append-nil tag))) in
    rw (fixed, type, fits, size, pull_bytes_lem token c tag i e, second, inside)
      (ap (λ m. ok (retry_header (m + 0 - start) version s d token tag, record c { pos = m })) end
        ∙ ap (λ m. ok (retry_header m version s d token tag, record c { pos = capacity c }))
            (omega (arith, k)))

-- The encoding of a RETRY packet does not raise, and `pull_quic_header` reads its bytes: the
-- version, the connection identifiers and the token are those that were given, the packet is all
-- the bytes, and the integrity tag is the one that `get_retry_integrity_tag` computes over the bytes
-- before it, for the original destination of the client. The version has 32 bits and is not 0, the
-- identifiers have at most 20 bytes and `unused` four bits; AES-GCM returns a tag of 16 bytes.
pub retry_lem :
    (encrypt : Encrypt)
    → AddsTag encrypt
    → (version : ℕ) (source_cid destination_cid original_destination_cid retry_token : List ℕ)
      (unused : ℕ) (host_cid_length : Option ℕ)
    → version < 2 ^ 32
    → (version == 0) ≡ false
    → unused < 16
    → length source_cid ≤ 20
    → length destination_cid ≤ 20
    → (packet : List ℕ) × (tag : List ℕ) × (encode_quic_retry encrypt version source_cid
          destination_cid original_destination_cid retry_token unused
        ≡ ok (packet ++ tag))
      × (get_retry_integrity_tag encrypt packet original_destination_cid version ≡ ok tag)
      × (pull_quic_header (new (packet ++ tag)) host_cid_length
          ≡ ok (
            retry_header
                (length (packet ++ tag))
                version
                source_cid
                destination_cid
                retry_token
                tag,
            record { memory = packet ++ tag; pos = length (packet ++ tag) },
          ))
retry_lem encrypt h version s d cid token unused host v z u sl dl =
    let (first_byte, f) = first_byte_lem version unused in
    let (small, long, fixed, _, type) =
      long_header_first_byte_lem version retry unused first_byte u f in
    let front = prefix_bytes first_byte version d s in
    let packet = front ++ token in
    let tag = seal encrypt version (pseudo_packet packet cid) in
    let r =
      pull_prefix_lem (new (packet ++ tag)) host first_byte version d s (token ++ tag) small long v
        dl sl (omega arith) (append_assoc front token tag) in
    (
      packet,
      tag,
      push_retry_lem encrypt version s d cid token unused first_byte h f packet refl,
      integrity_tag_lem encrypt packet cid version h,
      r.goes_on
          ∙ rw z (
              pull_retry_lem (after_prefix (new (packet ++ tag)) d s) 0 (length (packet ++ tag))
                first_byte version d s token tag (omega arith) fixed type
                (length-seal encrypt version (pseudo_packet packet cid) h) r.bound r.left),
    )
