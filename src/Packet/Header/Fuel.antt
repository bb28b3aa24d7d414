-- ===== src/Packet/Header/Fuel.antt =====
-- The loop over supported versions of `pull_quic_header` (src/aioquic/quic/packet.py) ends where
-- the packet ends.
use aioquic.Base.{
  ℕ, zero, suc, ◌-◌, ◌≤◌, ◌≡◌, ap, arith, true, List, ◌∷◌, length, inl, inr, Bool-cases,
}
use mathlib.Core.Path.{subst}
use aioquic.Base.Exception.{ok, ◌>>=◌}
use aioquic.Buffer.{Buffer, eof, pull_uint32}
use aioquic.Buffer.Moves.{bind-inv, pull_uint32-Moves}
use aioquic.Packet.Header.{pull_versions}

-- With a round for each byte that is left, the loop over supported versions returns only at the end
-- of the buffer: the rounds do not run out before.
pub pull_versions_lem :
    (fuel : ℕ) (b b' : Buffer) (versions : List ℕ)
    → b.pos ≤ length b.memory
    → length b.memory - b.pos ≤ fuel
    → pull_versions fuel b ≡ ok (versions, b')
    → eof b' ≡ true
unfolding pull_versions
pull_versions_lem zero b b' vs i f h =
    let same : b ≡ b' = ground (arith, h) in subst (λ t. eof t ≡ true) same (ground arith)
pull_versions_lem (suc n) b b' vs i f h = elim (Bool-cases (eof b)) [
  | inl e ↦ let same : b ≡ b' = ground arith in subst (λ t. eof t ≡ true) same e
  | inr e ↦
      let more : ◌>>=◌ {B = List ℕ × Buffer} (pull_uint32 b) (λ (v, b1).
        ◌>>=◌ {B = List ℕ × Buffer} (pull_versions n b1) (λ (vs, b2). ok (v ∷ vs, b2)))
          ≡ ok (vs, b') =
        ground arith in
      let ((v, b1), e1, h1) = bind-inv (pull_uint32 b) _ (vs, b') more in
      let ((ws, b2), e2, h2) = bind-inv (pull_versions n b1) _ (vs, b') h1 in
      let m = pull_uint32-Moves b b1 v e1 in
      let same : b2 ≡ b' = ground (arith, h2) in
      let long = ap length m.memory in
      subst (λ t. eof t ≡ true) same
        (pull_versions_lem n b1 b2 ws (omega (arith, m.within, long))
          (omega (arith, m.forward, long, f)) e2)
]
