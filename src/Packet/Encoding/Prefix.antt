-- ===== src/Packet/Encoding/Prefix.antt =====
-- The version and the connection identifiers of a long header, written and read
-- (src/aioquic/quic/packet.py).
use aioquic.Base.{
  ℕ, ◌+◌, ◌^◌, ◌≤◌, ◌<◌, ◌≡◌, refl, ap, ◌∙◌, arith, true, Option, List, ◌++◌, ◌==◌, if◌then◌else◌,
  length, length-append, le→leb, append_assoc,
}
use aioquic.Buffer.{
  Buffer, tell, advance, pull_uint8, push_bytes, push_uint8, push_uint32, uint8_bytes, uint32_bytes,
}
use aioquic.Buffer.Codes.{Pushes-then, push_bytes_lem}
use aioquic.Buffer.Pulls.{
  Pulls, Pushes, Pulls-then, rest, rest-advance, InBounds, advance-InBounds, pull_bytes_lem,
  pull_uint8_lem, pull_uint32_lem,
}
use aioquic.Packet.Header.{
  is_long_header, pull_cid, pull_negotiation, pull_long_rest, pull_long, pull_quic_header,
}
use aioquic.Packet.Encoding.{push_prefix}

abbrev pub cid_bytes : List ℕ → List ℕ
cid_bytes cid = uint8_bytes (length cid) ++ cid

abbrev pub prefix_bytes : ℕ → ℕ → List ℕ → List ℕ → List ℕ
prefix_bytes first_byte version destination_cid source_cid =
    uint8_bytes first_byte
    ++ (uint32_bytes version
        ++ (uint8_bytes (length destination_cid) ++ (destination_cid ++ cid_bytes source_cid)))

pub length-prefix_bytes :
    (first_byte version : ℕ) (d s : List ℕ)
    → length (prefix_bytes first_byte version d s) ≡ 7 + length d + length s
length-prefix_bytes first_byte version d s = omega (arith, length-append d (cid_bytes s))

pub push_prefix_lem :
    (first_byte version : ℕ) (d s : List ℕ)
    → Pushes (push_prefix first_byte version d s) (prefix_bytes first_byte version d s)
unfolding push_prefix push_uint8 push_uint32
push_prefix_lem first_byte version d s =
    let end = cid_bytes s in
    let back = uint8_bytes (length d) ++ (d ++ end) in
    Pushes-then (λ b. push_bytes b (uint8_bytes first_byte)) _ (uint8_bytes first_byte)
      (uint32_bytes version ++ back) (push_bytes_lem (uint8_bytes first_byte))
      (Pushes-then (λ b. push_bytes b (uint32_bytes version)) _ (uint32_bytes version) back
        (push_bytes_lem (uint32_bytes version))
        (Pushes-then (λ b. push_bytes b (uint8_bytes (length d))) _ (uint8_bytes (length d))
          (d ++ end) (push_bytes_lem (uint8_bytes (length d)))
          (Pushes-then (λ b. push_bytes b d) _ d end (push_bytes_lem d)
            (Pushes-then (λ b. push_bytes b (uint8_bytes (length s))) (λ b. push_bytes b s)
              (uint8_bytes (length s)) s (push_bytes_lem (uint8_bytes (length s)))
              (push_bytes_lem s)))))

pull_cid_lem : (cid : List ℕ) → length cid ≤ 20 → Pulls pull_cid (cid_bytes cid) cid
unfolding pull_cid
pull_cid_lem cid h =
    Pulls-then pull_uint8 _ (uint8_bytes (length cid)) cid (length cid) cid
      (pull_uint8_lem (length cid) (omega arith))
      (rw (le→leb (length cid) 20 h) (pull_bytes_lem cid))

-- The buffer after the connection identifiers.
abbrev pub after_prefix : Buffer → List ℕ → List ℕ → Buffer
after_prefix b d s =
    advance (advance (advance (advance b 1) 4) (length (cid_bytes d))) (length (cid_bytes s))

-- A long header after its connection identifiers.
pub record Entered (b : Buffer) (host_cid_length : Option ℕ) (first_byte version : ℕ)
    (d s after : List ℕ) : Type 0 where
  pub left : rest (after_prefix b d s) ≡ after
  pub bound : InBounds (after_prefix b d s)
  pub goes_on : pull_quic_header b host_cid_length ≡ (
      if version == 0
      then pull_negotiation (after_prefix b d s) (tell b) d s
      else pull_long_rest (after_prefix b d s) (tell b) first_byte version d s)

pub pull_prefix_lem :
    (b : Buffer) (host_cid_length : Option ℕ) (first_byte version : ℕ) (d s after : List ℕ)
    → first_byte < 256
    → is_long_header first_byte ≡ true
    → version < 2 ^ 32
    → length d ≤ 20
    → length s ≤ 20
    → InBounds b
    → rest b ≡ prefix_bytes first_byte version d s ++ after
    → Entered b host_cid_length first_byte version d s after
unfolding pull_quic_header pull_long
pull_prefix_lem b host_cid_length first_byte version d s after f l v dl sl i e =
    let b1 = advance b 1 in
    let b2 = advance b1 4 in
    let b3 = advance b2 (length (cid_bytes d)) in
    let e0 : rest b
        ≡ uint8_bytes first_byte
          ++ (uint32_bytes version ++ (cid_bytes d ++ (cid_bytes s ++ after))) =
      e
      ∙ ap (λ t. uint8_bytes first_byte ++ (uint32_bytes version ++ (uint8_bytes (length d) ++ t)))
          (append_assoc d (cid_bytes s) after) in
    let e1 = rest-advance b (uint8_bytes first_byte) _ e0 in
    let i1 = advance-InBounds b (uint8_bytes first_byte) _ i e0 in
    let e2 = rest-advance b1 (uint32_bytes version) _ e1 in
    let i2 = advance-InBounds b1 (uint32_bytes version) _ i1 e1 in
    let e3 = rest-advance b2 (cid_bytes d) _ e2 in
    let i3 = advance-InBounds b2 (cid_bytes d) _ i2 e2 in
    record {
      left = rest-advance b3 (cid_bytes s) after e3;
      bound = advance-InBounds b3 (cid_bytes s) after i3 e3;
      goes_on =
          rw
            (
              pull_uint8_lem first_byte f b _ i e0,
              l,
              pull_uint32_lem version v b1 _ i1 e1,
              pull_cid_lem d dl b2 _ i2 e2,
              pull_cid_lem s sl b3 after i3 e3,
            )
            refl;
    }
