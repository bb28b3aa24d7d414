-- ===== src/Buffer/Varint.antt =====
-- Variable-length integers (`Buffer_push_uint_var` and `Buffer_pull_uint_var` of
-- src/aioquic/_buffer.c, src/aioquic/buffer.py): their bytes, their sizes and the round trip.
use aioquic.Base.{
  ℕ, ◌+◌, ◌*◌, ◌/◌, ◌%◌, ◌^◌, ◌≤◌, ◌<◌, ◌≡◌, refl, ap, ◌∙◌, arith, List, [], ◌∷◌, length, leb, inl,
  inr, Bool-cases,
}
use aioquic.Base.{◌⊎◌}
use mathlib.Core.Path.{subst}
use aioquic.Base.Exception.{Result, ok, raise, value_error}
use aioquic.Buffer.{
  uint16_bytes, Buffer, advance, push_bytes, uint_var_bytes, push_uint_var, pull_uint_var,
  pull_by_prefix, encode_uint_var, size_uint_var,
}
use aioquic.Buffer.Codes.{push_bytes_lem, Pushes-written}
use aioquic.Buffer.Pulls.{rest, byte-rest, room, Pulls, Pushes, InBounds}

abbrev pub Fits : ℕ → Type 0
Fits v = v ≤ 0x3FFFFFFFFFFFFFFF

-- The bytes of a variable-length integer.
record Code (v : ℕ) : Type 0 where
  bytes : List ℕ
  made : uint_var_bytes v ≡ ok bytes
  size : size_uint_var v ≡ ok (length bytes)
  short : length bytes ≤ 8
  pulls : Pulls pull_uint_var bytes v

-- The first byte, with its prefix, decides which branch is taken.
prefixed :
    (b : Buffer) (x : ℕ) (xs : List ℕ) (n : ℕ)
    → InBounds b
    → rest b ≡ x ∷ xs
    → x / 64 ≡ n
    → pull_uint_var b ≡ pull_by_prefix b n
unfolding pull_uint_var
prefixed b x xs n i e p = rw (room b (x ∷ []) xs i e, byte-rest b 0 _ e, p) refl

byte1 : (v : ℕ) → v ≤ 0x3F → Code v
unfolding size_uint_var
byte1 v h = record {
  bytes = v ∷ [];
  made = ground arith;
  size = ground arith;
  short = omega arith;
  pulls = λ b after i e.
      prefixed b v after 0 i e (omega arith)
      ∙ rw (byte-rest b 0 _ e) (ap (λ n. ok (n, advance b 1)) (omega arith));
}

byte2 : (v : ℕ) → 0x3F < v → v ≤ 0x3FFF → Code v
unfolding size_uint_var
byte2 v l h =
    let bytes = (v / 2 ^ 8 + 0x40) ∷ v % 2 ^ 8 ∷ [] in
    record {
      bytes = bytes;
      made = ground arith;
      size = ground arith;
      short = omega arith;
      pulls = λ b after i e.
          prefixed b (v / 2 ^ 8 + 0x40) _ 1 i e (omega arith)
          ∙ rw (room b bytes after i e, byte-rest b 0 _ e, byte-rest b 1 _ e)
              (ap (λ n. ok (n, advance b 2)) (omega arith));
    }

byte4 : (v : ℕ) → 0x3FFF < v → v ≤ 0x3FFFFFFF → Code v
unfolding size_uint_var
byte4 v l h =
    let bytes = (v / 2 ^ 24 + 0x80) ∷ v / 2 ^ 16 % 2 ^ 8 ∷ v / 2 ^ 8 % 2 ^ 8 ∷ v % 2 ^ 8 ∷ [] in
    record {
      bytes = bytes;
      made = ground arith;
      size = ground arith;
      short = omega arith;
      pulls = λ b after i e.
          prefixed b (v / 2 ^ 24 + 0x80) _ 2 i e (omega arith)
          ∙ rw
              (
                room b bytes after i e,
                byte-rest b 0 _ e,
                byte-rest b 1 _ e,
                byte-rest b 2 _ e,
                byte-rest b 3 _ e,
              )
              (ap (λ n. ok (n, advance b 4)) (omega arith));
    }

-- The value of eight bytes is that of its two halves.
halves :
    (v : ℕ)
    → v ≤ 0x3FFFFFFFFFFFFFFF
    → (v / 2 ^ 56 + 0xC0) % 64 * 2 ^ 56
        + v / 2 ^ 48 % 2 ^ 8 * 2 ^ 48
        + v / 2 ^ 40 % 2 ^ 8 * 2 ^ 40
        + v / 2 ^ 32 % 2 ^ 8 * 2 ^ 32
        + v / 2 ^ 24 % 2 ^ 8 * 2 ^ 24
        + v / 2 ^ 16 % 2 ^ 8 * 2 ^ 16
        + v / 2 ^ 8 % 2 ^ 8 * 2 ^ 8
        + v % 2 ^ 8
      ≡ v
halves v h = omega arith

byte8 : (v : ℕ) → 0x3FFFFFFF < v → v ≤ 0x3FFFFFFFFFFFFFFF → Code v
unfolding size_uint_var
byte8 v l h =
    let bytes =
      (v / 2 ^ 56 + 0xC0)
      ∷ v / 2 ^ 48 % 2 ^ 8
      ∷ v / 2 ^ 40 % 2 ^ 8
      ∷ v / 2 ^ 32 % 2 ^ 8
      ∷ v / 2 ^ 24 % 2 ^ 8
      ∷ v / 2 ^ 16 % 2 ^ 8
      ∷ v / 2 ^ 8 % 2 ^ 8
      ∷ v % 2 ^ 8
      ∷ [] in
    record {
      bytes = bytes;
      made = ground arith;
      size = ground arith;
      short = omega arith;
      pulls = λ b after i e.
          prefixed b (v / 2 ^ 56 + 0xC0) _ 3 i e (omega arith)
          ∙ rw
              (
                room b bytes after i e,
                byte-rest b 0 _ e,
                byte-rest b 1 _ e,
                byte-rest b 2 _ e,
                byte-rest b 3 _ e,
                byte-rest b 4 _ e,
                byte-rest b 5 _ e,
                byte-rest b 6 _ e,
                byte-rest b 7 _ e,
              )
              (ap (λ n. ok (n, advance b 8)) (halves v h));
    }

code : (v : ℕ) → Fits v → Code v
code v h = elim (Bool-cases (leb v 0x3F)) [
  | inl s ↦ byte1 v (ground arith)
  | inr s ↦ elim (Bool-cases (leb v 0x3FFF)) [
    | inl t ↦ byte2 v (ground arith) (ground arith)
    | inr t ↦ elim (Bool-cases (leb v 0x3FFFFFFF)) [
      | inl u ↦ byte4 v (ground arith) (ground arith)
      | inr u ↦ byte8 v (ground arith) h
    ]
  ]
]

abbrev bytes_of : Result (List ℕ) → List ℕ
bytes_of (raise e) = []
bytes_of (ok bytes) = bytes

-- What is pushed for a number below 2^62.
abbrev pub uint_var : ℕ → List ℕ
uint_var v = bytes_of (uint_var_bytes v)

pub pull_uint_var_lem : (v : ℕ) → Fits v → Pulls pull_uint_var (uint_var v) v
pull_uint_var_lem v h = let c = code v h in rw c.made c.pulls

pub push_uint_var_lem : (v : ℕ) → Fits v → Pushes (λ b. push_uint_var b v) (uint_var v)
unfolding push_uint_var
push_uint_var_lem v h b room =
    let c = code v h in
    let small : v % 2 ^ 64 ≡ v = omega arith in
    rw (small, c.made)
      (push_bytes_lem c.bytes b (
        subst (λ (r : Result (List ℕ)). b.pos + length (bytes_of r) ≤ length b.memory) c.made room))

-- A number below 2^62 is encoded in as many bytes as `size_uint_var` says, eight at most, and its
-- bytes are read back as the number, wherever they stand in a buffer; a larger number of 64 bits
-- is refused by both functions.
encode_uint_var_lem :
    (v : ℕ) (memory : List ℕ)
    → v < 2 ^ 64
    → length memory ≡ 8
    → ((bytes : List ℕ) × (encode_uint_var memory v ≡ ok bytes)
        × (size_uint_var v ≡ ok (length bytes))
        × (length bytes ≤ 8)
        × Pulls pull_uint_var bytes v)
      ⊎ ((0x3FFFFFFFFFFFFFFF < v)
          × (encode_uint_var memory v ≡ raise value_error)
          × (size_uint_var v ≡ raise value_error))
unfolding encode_uint_var push_uint_var size_uint_var
encode_uint_var_lem v memory w room =
    let whole : v % 2 ^ 64 ≡ v = omega arith in
    elim (Bool-cases (leb v 0x3FFFFFFFFFFFFFFF)) [
      | inl s ↦
          let c = code v (ground arith) in
          inl (
            c.bytes,
            rw (whole, c.made)
                (Pushes-written (λ b. push_bytes b c.bytes) c.bytes memory (push_bytes_lem c.bytes)
                  (omega (arith, c.short, room))),
            c.size,
            c.short,
            c.pulls,
          )
      | inr s ↦
          let refused : uint_var_bytes v ≡ raise value_error = ground arith in
          inr (ground arith, rw (whole, refused) refl, ground arith)
    ]

-- Two bytes with the prefix of a number of two bytes are read as the number.
pub pull_two_bytes : (v : ℕ) → v < 0x4000 → Pulls pull_uint_var (uint16_bytes (v + 0x4000)) v
pull_two_bytes v h b after i e =
    let bytes = uint16_bytes (v + 0x4000) in
    prefixed b ((v + 0x4000) % 2 ^ 16 / 2 ^ 8) _ 1 i e (omega arith)
    ∙ rw (room b bytes after i e, byte-rest b 0 _ e, byte-rest b 1 _ e)
        (ap (λ n. ok (n, advance b 2)) (omega arith))

pub length-uint_var : (n : ℕ) → Fits n → length (uint_var n) ≤ 8
length-uint_var n h = ground arith
