-- ===== src/Buffer/Codes.antt =====
-- What a sequence of pushes writes and what a sequence of pulls reads, for the buffer of
-- src/aioquic/_buffer.c: both are composed from the bytes of each step.
use aioquic.Base.{
  ℕ, ◌+◌, ◌≤◌, ◌≡◌, refl, sym, ap, ◌∙◌, arith, true, List, [], ◌++◌, length, length-append, take,
  drop, le→leb, append_assoc, length-take, length-drop, take-append-drop,
}
use native.Mathlib.Nat.{add-zero}
use aioquic.Base.Exception.{Result, ok, ◌>>=◌}
use aioquic.Buffer.{push_uint16, uint16_bytes, Buffer, new, put, push_bytes, written, eof}
use aioquic.Buffer.Pulls.{rest, drop-add, drop-append, take-append, Pushes}

pub length-pushed :
    (b : Buffer) (xs : List ℕ)
    → b.pos + length xs ≤ length b.memory
    → length (put b xs).memory ≡ length b.memory
length-pushed b xs h = omega (
  arith,
  length-append (take b.pos b.memory) (xs ++ drop (b.pos + length xs) b.memory),
  length-append xs (drop (b.pos + length xs) b.memory),
  length-take b.pos b.memory,
  length-drop (b.pos + length xs) b.memory,
  h,
)

pub written-put :
    (b : Buffer) (xs : List ℕ)
    → b.pos + length xs ≤ length b.memory
    → written (put b xs) ≡ written b ++ xs
written-put b xs h =
    ap (take (b.pos + length xs))
      (sym (append_assoc (take b.pos b.memory) xs (drop (b.pos + length xs) b.memory)))
    ∙ take-append (take b.pos b.memory ++ xs) _ (b.pos + length xs)
        (omega (arith, length-append (take b.pos b.memory) xs, length-take b.pos b.memory, h))

rest-put :
    (b : Buffer) (xs : List ℕ)
    → b.pos + length xs ≤ length b.memory
    → rest (put b xs) ≡ drop (b.pos + length xs) b.memory
rest-put b xs h =
    ap (drop (b.pos + length xs))
      (sym (append_assoc (take b.pos b.memory) xs (drop (b.pos + length xs) b.memory)))
    ∙ drop-append (take b.pos b.memory ++ xs) _ (b.pos + length xs)
        (omega (arith, length-append (take b.pos b.memory) xs, length-take b.pos b.memory, h))

pub put-nil : (b : Buffer) → put b [] ≡ b
put-nil b =
    rw (add-zero b.pos)
      (ap (λ t. record { memory = t; pos = b.pos }) (take-append-drop b.pos b.memory))

pub put-append :
    (b : Buffer) (xs ys : List ℕ)
    → b.pos + length xs + length ys ≤ length b.memory
    → put (put b xs) ys ≡ put b (xs ++ ys)
put-append b xs ys h =
    let front = written-put b xs (omega arith) in
    let back : drop (b.pos + length xs + length ys) (put b xs).memory
        ≡ drop (b.pos + length xs + length ys) b.memory =
      sym (drop-add (b.pos + length xs) (length ys) (put b xs).memory)
      ∙ ap (drop (length ys)) (rest-put b xs (omega arith))
      ∙ drop-add (b.pos + length xs) (length ys) b.memory in
    let sum : b.pos + length xs + length ys ≡ b.pos + length (xs ++ ys) =
      omega (arith, length-append xs ys) in
    ap
      (λ t. record {
        memory = t ++ (ys ++ drop (b.pos + length xs + length ys) (put b xs).memory);
        pos = b.pos + length xs + length ys;
      })
      front
    ∙ ap
        (λ t. record {
          memory = (written b ++ xs) ++ (ys ++ t);
          pos = b.pos + length xs + length ys;
        })
        back
    ∙ ap (λ n. record { memory = (written b ++ xs) ++ (ys ++ drop n b.memory); pos = n }) sum
    ∙ ap (λ t. record { memory = t; pos = b.pos + length (xs ++ ys) })
        (append_assoc (written b) xs (ys ++ drop (b.pos + length (xs ++ ys)) b.memory)
          ∙ ap (λ t. written b ++ t)
              (sym (append_assoc xs ys (drop (b.pos + length (xs ++ ys)) b.memory))))

module _ {ℓ} {A : Type ℓ} where
  -- `push` writes `bytes` where there is room for them, and goes on with `next`.
  abbrev pub Runs : (Buffer → Result A) → List ℕ → (Buffer → Result A) → Type ℓ
  Runs push bytes next =
      (b : Buffer) → b.pos + length bytes ≤ length b.memory → push b ≡ next (put b bytes)

  pub Runs-then :
      (p : Buffer → Result Buffer) (q : Buffer → Result A) (xs ys : List ℕ)
      (next : Buffer → Result A)
      → Pushes p xs
      → Runs q ys next
      → Runs (λ b. p b >>= q) (xs ++ ys) next
  Runs-then p q xs ys next f g b h =
      let sum = length-append xs ys in
      let long = length-pushed b xs (omega arith) in
      rw (f b (omega arith), g (put b xs) (omega arith))
        (ap next (put-append b xs ys (omega arith)))

  -- `push` writes `bytes` where there is room for them, and returns `out` of the buffer afterwards.
  abbrev pub Writes : (Buffer → Result A) → List ℕ → (Buffer → A) → Type ℓ
  Writes push bytes out = Runs push bytes (λ b. ok (out b))

  pub Writes-then :
      (p : Buffer → Result Buffer) (q : Buffer → Result A) (xs ys : List ℕ) (out : Buffer → A)
      → Pushes p xs
      → Writes q ys out
      → Writes (λ b. p b >>= q) (xs ++ ys) out
  Writes-then p q xs ys out f g = Runs-then p q xs ys (λ b. ok (out b)) f g

-- A buffer that is written to its end.
pub eof-put : (memory xs : List ℕ) → length xs ≡ length memory → eof (put (new memory) xs) ≡ true
eof-put memory xs h =
    let long = length-pushed (new memory) xs (omega (arith, h)) in ground (arith, h, long)

pub Pushes-then :
    (p q : Buffer → Result Buffer) (xs ys : List ℕ)
    → Pushes p xs
    → Pushes q ys
    → Pushes (λ b. p b >>= q) (xs ++ ys)
Pushes-then p q xs ys f g = Writes-then p q xs ys (λ b. b) f g

pub push_bytes_lem : (xs : List ℕ) → Pushes (λ b. push_bytes b xs) xs
unfolding push_bytes
push_bytes_lem xs b h = rw (le→leb (b.pos + length xs) (length b.memory) h) refl

pub push_uint16_lem : (v : ℕ) → Pushes (λ b. push_uint16 b v) (uint16_bytes v)
unfolding push_uint16
push_uint16_lem v = push_bytes_lem (uint16_bytes v)

-- What is pushed into a buffer of the right size, or a larger one, is its data.
pub Pushes-written :
    (push : Buffer → Result Buffer) (bytes memory : List ℕ)
    → Pushes push bytes
    → length bytes ≤ length memory
    → (push (new memory) >>= λ b. ok (written b)) ≡ ok bytes
Pushes-written push bytes memory f h =
    rw (f (new memory) (omega arith)) (ap ok (written-put (new memory) bytes (omega arith)))
