-- ===== src/Packet/Header/Bounds.antt =====
-- `pull_quic_header` stays within the datagram: the header and the packet that it announces do, and
-- connection IDs of long headers are short (src/aioquic/quic/packet.py).
use aioquic.Base.{
  ℕ, ◌+◌, ◌-◌, ◌≤◌, ◌<◌, ◌≡◌, ◌⊎◌, inl, inr, refl, ap, arith, List, [], Option, none, some, length,
  leb, ◌==◌, Bool-cases,
}
use mathlib.Core.Path.{subst}
use aioquic.Base.Exception.{ok, ensure, value_error}
use aioquic.Buffer.{Buffer, capacity, tell, pull_bytes, pull_uint8, pull_uint32}
use aioquic.Buffer.Moves.{
  Moves, Moves-weaken, Moves-trans, bind-inv, ensure-inv, pull_bytes-Moves, pull_uint8-Moves,
  pull_uint32-Moves,
}
use aioquic.Packet.Header.{
  QuicHeader, version_negotiation, one_rtt, pull_cid, pull_versions, pull_fields, pull_long_rest,
  pull_negotiation, pull_long, pull_host_cid, pull_short, pull_quic_header, has_fixed_bit,
  long_type, is_long_header,
}
use aioquic.Packet.Header.Fields.{pull_cid-Moves, pull_versions-Moves, pull_fields-Moves}

-- What a header that was read from `b` says of the packet that starts at `start`.
record IsBounded (start : ℕ) (b b' : Buffer) (h : QuicHeader) : Type 0 where
  moves : Moves 0 b b'
  ends : b'.pos ≤ start + h.packet_length
  within : start + h.packet_length ≤ length b.memory
  cids : (h.version ≡ none) ⊎ ((length h.destination_cid ≤ 20) × (length h.source_cid ≤ 20))

pull_long_rest-IsBounded :
    (b b' : Buffer) (start first_byte version : ℕ) (d s : List ℕ) (h : QuicHeader)
    → start ≤ b.pos
    → length d ≤ 20
    → length s ≤ 20
    → pull_long_rest b start first_byte version d s ≡ ok (h, b')
    → IsBounded start b b' h
unfolding pull_long_rest
pull_long_rest-IsBounded b b' start first_byte version d s h i dl sl e =
    let (u, e0, h0) = bind-inv (ensure (has_fixed_bit first_byte) value_error) _ _ e in
    let (p, e1, h1) = bind-inv (long_type version first_byte) _ _ h0 in
    let (((t, g, n), b1), e2, h2) = bind-inv (pull_fields p b) _ _ h1 in
    let (v, e3, h3) = bind-inv (ensure (leb (tell b1 + n) (capacity b1)) value_error) _ _ h2 in
    let m = pull_fields-Moves b b1 p t g n e2 in
    let room = ensure-inv (leb (tell b1 + n) (capacity b1)) value_error v e3 in
    let state : b1 ≡ b' = ground (arith, h3) in
    let header : record {
      version = some version;
      packet_type = p;
      packet_length = tell b1 + n - start;
      destination_cid = d;
      source_cid = s;
      token = t;
      integrity_tag = g;
      supported_versions = [];
    }
        ≡ h =
      ground (arith, h3) in
    subst (λ x. IsBounded start b x h) state
      (subst (IsBounded start b b1) header (record {
        moves = m;
        ends = omega (arith, m.forward);
        within = ground (arith, m.forward, ap length m.memory, room);
        cids = inr (dl, sl);
      }))

pull_negotiation-IsBounded :
    (b b' : Buffer) (start : ℕ) (d s : List ℕ) (h : QuicHeader)
    → start ≤ b.pos
    → b.pos ≤ length b.memory
    → length d ≤ 20
    → length s ≤ 20
    → pull_negotiation b start d s ≡ ok (h, b')
    → IsBounded start b b' h
unfolding pull_negotiation
pull_negotiation-IsBounded b b' start d s h i j dl sl e =
    let ((vs, b1), e1, h1) = bind-inv (pull_versions (capacity b - tell b) b) _ _ e in
    let m = pull_versions-Moves (capacity b - tell b) b b1 vs j e1 in
    let state : b1 ≡ b' = ground (arith, h1) in
    let header : record {
      version = some 0;
      packet_type = version_negotiation;
      packet_length = tell b1 - start;
      destination_cid = d;
      source_cid = s;
      token = [];
      integrity_tag = [];
      supported_versions = vs;
    }
        ≡ h =
      ground (arith, h1) in
    subst (λ x. IsBounded start b x h) state
      (subst (IsBounded start b b1) header (record {
        moves = m;
        ends = omega (arith, m.forward);
        within = omega (arith, m.forward, m.within);
        cids = inr (dl, sl);
      }))

pull_long-IsBounded :
    (b b' : Buffer) (start first_byte : ℕ) (h : QuicHeader)
    → start ≤ b.pos
    → pull_long b start first_byte ≡ ok (h, b')
    → IsBounded start b b' h
unfolding pull_long
pull_long-IsBounded b b' start first_byte h i e =
    let ((version, b1), e1, h1) = bind-inv (pull_uint32 b) _ _ e in
    let ((d, b2), e2, h2) = bind-inv (pull_cid b1) _ _ h1 in
    let ((s, b3), e3, h3) = bind-inv (pull_cid b2) _ _ h2 in
    let (m2, dl) = pull_cid-Moves b1 b2 d e2 in
    let (m3, sl) = pull_cid-Moves b2 b3 s e3 in
    let m = Moves-trans (Moves-trans (pull_uint32-Moves b b1 version e1) m2) m3 in
    let below : start ≤ b3.pos = omega (arith, m.forward) in
    let inside : b3.pos ≤ length b3.memory = omega (arith, m.within, ap length m.memory) in
    then_moves
      (elim (Bool-cases (version == 0)) [
        | inl z ↦ pull_negotiation-IsBounded b3 b' start d s h below inside dl sl (ground arith)
        | inr z ↦
            pull_long_rest-IsBounded b3 b' start first_byte version d s h below dl sl (ground arith)
      ])
      m
  where
    then_moves :
        {n : ℕ} {b3 : Buffer} → IsBounded start b3 b' h → Moves n b b3 → IsBounded start b b' h
    then_moves r m = record {
      moves = Moves-weaken (Moves-trans m r.moves) (omega arith);
      ends = r.ends;
      within = omega (arith, r.within, ap length m.memory);
      cids = r.cids;
    }

pull_short-IsBounded :
    (b b' : Buffer) (start first_byte : ℕ) (host_cid_length : Option ℕ) (h : QuicHeader)
    → start ≤ b.pos
    → pull_short b start first_byte host_cid_length ≡ ok (h, b')
    → IsBounded start b b' h
unfolding pull_short pull_host_cid
pull_short-IsBounded b b' start first_byte none h i e =
    let (u, e0, h0) = bind-inv (ensure (has_fixed_bit first_byte) value_error) _ _ e in
    absurd (ground (arith, h0))
pull_short-IsBounded b b' start first_byte (some n) h i e =
    let (u, e0, h0) = bind-inv (ensure (has_fixed_bit first_byte) value_error) _ _ e in
    let ((d, b1), e1, h1) = bind-inv (pull_bytes b n) _ _ h0 in
    let (m, long) = pull_bytes-Moves b b1 n d e1 in
    let state : b1 ≡ b' = ground (arith, h1) in
    let header : record {
      version = none;
      packet_type = one_rtt;
      packet_length = capacity b1 - start;
      destination_cid = d;
      source_cid = [];
      token = [];
      integrity_tag = [];
      supported_versions = [];
    }
        ≡ h =
      ground (arith, h1) in
    let same = ap length m.memory in
    subst (λ x. IsBounded start b x h) state
      (subst (IsBounded start b b1) header (record {
        moves = Moves-weaken m (omega arith);
        ends = omega (arith, m.forward, m.within, same);
        within = omega (arith, m.forward, m.within, same);
        cids = inl refl;
      }))

-- A header that is read leaves the datagram alone and is read forwards: at least one byte is read,
-- the header ends within the packet that it announces and that packet within the datagram, and the
-- connection IDs of a long header have at most 20 bytes.
pub pull_quic_header_lem :
    (b b' : Buffer) (host_cid_length : Option ℕ) (h : QuicHeader)
    → pull_quic_header b host_cid_length ≡ ok (h, b')
    → (b'.memory ≡ b.memory)
      × (b.pos < b'.pos)
      × (b'.pos ≤ b.pos + h.packet_length)
      × (b.pos + h.packet_length ≤ length b.memory)
      × ((h.version ≡ none) ⊎ ((length h.destination_cid ≤ 20) × (length h.source_cid ≤ 20)))
unfolding pull_quic_header
pull_quic_header_lem b b' host_cid_length h e =
    let ((first_byte, b1), e1, h1) = bind-inv (pull_uint8 b) _ _ e in
    let m = pull_uint8-Moves b b1 first_byte e1 in
    let start : tell b ≤ b1.pos = omega (arith, m.forward) in
    let r : IsBounded (tell b) b1 b' h = elim (Bool-cases (is_long_header first_byte)) [
      | inl l ↦ pull_long-IsBounded b1 b' (tell b) first_byte h start (ground arith)
      | inr l ↦
          pull_short-IsBounded b1 b' (tell b) first_byte host_cid_length h start (ground arith)
    ] in
    let all = Moves-trans m r.moves in
    (
      all.memory,
      omega (arith, all.forward),
      r.ends,
      omega (arith, r.within, ap length m.memory),
      r.cids,
    )
