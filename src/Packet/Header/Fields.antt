-- ===== src/Packet/Header/Fields.antt =====
-- The fields of a header move the buffer forwards (src/aioquic/quic/packet.py).
use aioquic.Base.{
  ℕ, zero, suc, ◌+◌, ◌-◌, ◌≤◌, ◌≡◌, inl, inr, ap, arith, List, ◌∷◌, length, leb, Bool-cases,
}
use mathlib.Core.Path.{subst}
use aioquic.Base.Exception.{ok, ◌>>=◌, ensure, value_error, buffer_read_error}
use aioquic.Buffer.{Buffer, capacity, tell, eof, pull_bytes, pull_uint8, pull_uint32, pull_uint_var}
use aioquic.Buffer.Moves.{
  Moves, Moves-here, Moves-weaken, Moves-trans, bind-inv, ensure-inv, pull_bytes-Moves,
  pull_uint8-Moves, pull_uint32-Moves, pull_uint_var-Moves,
}
use aioquic.Packet.Header.{
  QuicPacketType, initial, zero_rtt, handshake, retry, version_negotiation, one_rtt, pull_cid,
  pull_versions, pull_retry, pull_rest_length, pull_fields,
}

pub pull_cid-Moves :
    (b b' : Buffer) (cid : List ℕ) → pull_cid b ≡ ok (cid, b') → Moves 1 b b' × (length cid ≤ 20)
unfolding pull_cid
pull_cid-Moves b b' cid h =
    let ((size, b1), e1, h1) = bind-inv (pull_uint8 b) _ (cid, b') h in
    let (u, e2, h2) = bind-inv (ensure (leb size 20) value_error) _ (cid, b') h1 in
    let (m, long) = pull_bytes-Moves b1 b' size cid h2 in
    (
      ground (arith, Moves-trans (pull_uint8-Moves b b1 size e1) m),
      ground (arith, long, ensure-inv (leb size 20) value_error u e2),
    )

pub pull_versions-Moves :
    (fuel : ℕ) (b b' : Buffer) (vs : List ℕ)
    → b.pos ≤ length b.memory
    → pull_versions fuel b ≡ ok (vs, b')
    → Moves 0 b b'
unfolding pull_versions
pull_versions-Moves zero b b' vs i h =
    let same : b ≡ b' = ground (arith, h) in subst (Moves 0 b) same (Moves-here b i)
pull_versions-Moves (suc n) b b' vs i h = elim (Bool-cases (eof b)) [
  | inl e ↦ let same : b ≡ b' = ground arith in subst (Moves 0 b) same (Moves-here b i)
  | inr e ↦
      let more : ◌>>=◌ {B = List ℕ × Buffer} (pull_uint32 b) (λ (v, b1).
        ◌>>=◌ {B = List ℕ × Buffer} (pull_versions n b1) (λ (vs, b2). ok (v ∷ vs, b2)))
          ≡ ok (vs, b') =
        ground arith in
      let ((v, b1), e1, h1) = bind-inv (pull_uint32 b) _ (vs, b') more in
      let ((ws, b2), e2, h2) = bind-inv (pull_versions n b1) _ (vs, b') h1 in
      let m = pull_uint32-Moves b b1 v e1 in
      let same : b2 ≡ b' = ground (arith, h2) in
      let rest = pull_versions-Moves n b1 b2 ws (omega (arith, m.within, ap length m.memory)) e2 in
      subst (Moves 0 b) same (Moves-weaken (Moves-trans m rest) (omega arith))
]

pull_retry-Moves :
    (b b' : Buffer) (t g : List ℕ) (n : ℕ) → pull_retry b ≡ ok ((t, g, n), b') → Moves 0 b b'
unfolding pull_retry
pull_retry-Moves b b' t g n h =
    let (u, e0, h0) = bind-inv (ensure (leb (tell b + 16) (capacity b)) buffer_read_error) _ _ h in
    let ((xs, b1), e1, h1) = bind-inv (pull_bytes b (capacity b - tell b - 16)) _ _ h0 in
    let ((ys, b2), e2, h2) = bind-inv (pull_bytes b1 16) _ _ h1 in
    let same : b2 ≡ b' = ground (arith, h2) in
    subst (Moves 0 b) same (
      Moves-weaken
        (Moves-trans (pull_bytes-Moves b b1 _ xs e1).0 (pull_bytes-Moves b1 b2 16 ys e2).0)
        (omega arith))

rest_length-Moves :
    (b b' : Buffer) (t g : List ℕ) (n : ℕ) → pull_rest_length b ≡ ok ((t, g, n), b') → Moves 0 b b'
unfolding pull_rest_length
rest_length-Moves b b' t g n h =
    let ((v, b1), e1, h1) = bind-inv (pull_uint_var b) _ _ h in
    let same : b1 ≡ b' = ground (arith, h1) in
    subst (Moves 0 b) same (Moves-weaken (pull_uint_var-Moves b b1 v e1) (omega arith))

pub pull_fields-Moves :
    (b b' : Buffer) (p : QuicPacketType) (t g : List ℕ) (n : ℕ)
    → pull_fields p b ≡ ok ((t, g, n), b')
    → Moves 0 b b'
unfolding pull_fields
pull_fields-Moves b b' initial t g n h =
    let ((k, b1), e1, h1) = bind-inv (pull_uint_var b) _ _ h in
    let ((xs, b2), e2, h2) = bind-inv (pull_bytes b1 k) _ _ h1 in
    let ((m, b3), e3, h3) = bind-inv (pull_uint_var b2) _ _ h2 in
    let same : b3 ≡ b' = ground (arith, h3) in
    subst (Moves 0 b) same (
      Moves-weaken
        (Moves-trans
          (Moves-trans (pull_uint_var-Moves b b1 k e1) (pull_bytes-Moves b1 b2 k xs e2).0)
          (pull_uint_var-Moves b2 b3 m e3))
        (omega arith))
pull_fields-Moves b b' zero_rtt t g n h = rest_length-Moves b b' t g n h
pull_fields-Moves b b' handshake t g n h = rest_length-Moves b b' t g n h
pull_fields-Moves b b' retry t g n h = pull_retry-Moves b b' t g n h
pull_fields-Moves b b' version_negotiation t g n h = pull_retry-Moves b b' t g n h
pull_fields-Moves b b' one_rtt t g n h = pull_retry-Moves b b' t g n h
