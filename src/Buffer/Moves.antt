-- ===== src/Buffer/Moves.antt =====
-- A pull that returns has moved `pos` forwards within the memory, which it leaves alone
-- (src/aioquic/_buffer.c).
use aioquic.Base.{
  ℕ, zero, suc, ◌+◌, ◌/◌, ◌≤◌, ◌≡◌, refl, sym, ap, ◌∙◌, arith, Bool, true, false, List, length,
  take, drop, length-take, length-drop,
}
use mathlib.Core.Path.{subst}
use aioquic.Base.Exception.{Result, ok, raise, ◌>>=◌, ensure, Exception}
use aioquic.Buffer.{
  Buffer, advance, byte, checked, pull_bytes, pull_uint8, pull_uint32, pull_uint_var,
  pull_by_prefix,
}
use aioquic.Base.{◌⊎◌, inl, inr, Bool-cases, leb}
use aioquic.Base.Exception.{buffer_read_error}

-- `b'` is `b` at least `n` bytes further on.
pub record Moves (n : ℕ) (b b' : Buffer) : Type 0 where
  pub memory : b'.memory ≡ b.memory
  pub forward : b.pos + n ≤ b'.pos
  pub within : b'.pos ≤ length b.memory

pub Moves-here : (b : Buffer) → b.pos ≤ length b.memory → Moves 0 b b
Moves-here b h = record { memory = refl; forward = omega arith; within = h }

pub Moves-weaken : {n m : ℕ} {b c : Buffer} → Moves n b c → m ≤ n → Moves m b c
Moves-weaken s h = record {
  memory = s.memory;
  forward = omega (arith, s.forward);
  within = s.within;
}

pub Moves-trans : {n m : ℕ} {a b c : Buffer} → Moves n a b → Moves m b c → Moves (n + m) a c
Moves-trans s t = record {
  memory = t.memory ∙ s.memory;
  forward = omega (arith, s.forward, t.forward);
  within = omega (arith, t.within, ap length s.memory);
}

module _ {ℓ κ} {A : Type ℓ} {B : Type κ} where
  -- A sequence that returns: its first step returned.
  pub bind-inv :
      (m : Result A) (f : A → Result B) (y : B)
      → (m >>= f) ≡ ok y
      → (x : A) × (m ≡ ok x) × (f x ≡ ok y)
  bind-inv (raise e) f y h = absurd (ground (arith, h))
  bind-inv (ok x) f y h = (x, refl, h)

pub ensure-inv : (t : Bool) (e : Exception) (u : Unit {0}) → ensure t e ≡ ok u → t ≡ true
ensure-inv true e u h = refl
ensure-inv false e u h = absurd (ground (arith, h))

module _ {ℓ} {A : Type ℓ} where
  pub checked-inv :
      (b : Buffer) (n : ℕ) (r : Result A) (y : A)
      → checked b n r ≡ ok y
      → (b.pos + n ≤ length b.memory) × (r ≡ ok y)
  checked-inv b n r y h = ground arith

module _ {ℓ} {A : Type ℓ} where
  advanced :
      (b b' : Buffer) (n m : ℕ) (x y : A)
      → m ≤ n
      → checked {A = A × Buffer} b n (ok (x, advance b n)) ≡ ok (y, b')
      → Moves m b b'
  advanced b b' n m x y k h =
      let (room, e) = checked-inv b n (ok (x, advance b n)) (y, b') h in
      let same : advance b n ≡ b' = ground (arith, e) in
      subst (Moves m b) same (record { memory = refl; forward = omega arith; within = room })

pub pull_bytes-Moves :
    (b b' : Buffer) (n : ℕ) (xs : List ℕ)
    → pull_bytes b n ≡ ok (xs, b')
    → Moves n b b' × (length xs ≡ n)
unfolding pull_bytes
pull_bytes-Moves b b' n xs h =
    let bytes = take n (drop b.pos b.memory) in
    let (room, e) = checked-inv b n (ok (bytes, advance b n)) (xs, b') h in
    let same : bytes ≡ xs = ground (arith, e) in
    (
      advanced b b' n n bytes xs (omega arith) h,
      sym (ap length same)
          ∙ omega (arith, room, length-take n (drop b.pos b.memory), length-drop b.pos b.memory),
    )

pub pull_uint8-Moves : (b b' : Buffer) (v : ℕ) → pull_uint8 b ≡ ok (v, b') → Moves 1 b b'
unfolding pull_uint8
pull_uint8-Moves b b' v h = advanced b b' 1 1 (byte b 0) v (omega arith) h

pub pull_uint32-Moves : (b b' : Buffer) (v : ℕ) → pull_uint32 b ≡ ok (v, b') → Moves 4 b b'
unfolding pull_uint32
pull_uint32-Moves b b' v h = advanced b b' 4 4 _ v (omega arith) h

by_prefix-Moves :
    (b b' : Buffer) (v n : ℕ) → checked b 1 (pull_by_prefix b n) ≡ ok (v, b') → Moves 1 b b'
by_prefix-Moves b b' v zero h = advanced b b' 1 1 _ v (omega arith) h
by_prefix-Moves b b' v (suc zero) h =
    advanced b b' 2 1 _ v (omega arith) (checked-inv b 1 (pull_by_prefix b 1) (v, b') h).1
by_prefix-Moves b b' v (suc (suc zero)) h =
    advanced b b' 4 1 _ v (omega arith) (checked-inv b 1 (pull_by_prefix b 2) (v, b') h).1
by_prefix-Moves b b' v (suc (suc (suc n))) h =
    advanced b b' 8 1 _ v (omega arith)
      (checked-inv b 1 (pull_by_prefix b (suc (suc (suc n)))) (v, b') h).1

pub pull_uint_var-Moves : (b b' : Buffer) (v : ℕ) → pull_uint_var b ≡ ok (v, b') → Moves 1 b b'
unfolding pull_uint_var
pull_uint_var-Moves b b' v h = by_prefix-Moves b b' v (byte b 0 / 64) h

-- A read raises BufferReadError, or it returns.
abbrev pub Reads {ℓ} : {A : Type ℓ} → Result (A × Buffer) → Type ℓ
Reads {A = A} r = (r ≡ raise buffer_read_error) ⊎ ((v : A) × (c : Buffer) × (r ≡ ok (v, c)))

module _ {ℓ} {A : Type ℓ} where
  checked-Reads : (b : Buffer) (n : ℕ) (v : A) (c : Buffer) → Reads (checked b n (ok (v, c)))
  checked-Reads b n v c = elim (Bool-cases (leb (b.pos + n) (length b.memory))) [
    | inl e ↦ rw e (inr (v, c, refl))
    | inr e ↦ rw e (inl refl)
  ]

by_prefix-Reads : (b : Buffer) (n : ℕ) → Reads (pull_by_prefix b n)
by_prefix-Reads b zero = inr (_, _, refl)
by_prefix-Reads b (suc zero) = checked-Reads b 2 _ _
by_prefix-Reads b (suc (suc zero)) = checked-Reads b 4 _ _
by_prefix-Reads b (suc (suc (suc n))) = checked-Reads b 8 _ _

pub pull_uint_var-Reads : (b : Buffer) → Reads (pull_uint_var b)
unfolding pull_uint_var
pull_uint_var-Reads b = elim (Bool-cases (leb (b.pos + 1) (length b.memory))) [
  | inl e ↦ rw e (by_prefix-Reads b (byte b 0 / 64))
  | inr e ↦ rw e (inl refl)
]

pub pull_bytes-Reads : (b : Buffer) (n : ℕ) → Reads (pull_bytes b n)
unfolding pull_bytes
pull_bytes-Reads b n = checked-Reads b n _ _
