-- ===== src/Buffer/Pulls.antt =====
-- What a sequence of pulls reads from a buffer (src/aioquic/_buffer.c), from the bytes of each pull.
use aioquic.Base.{
  ℕ, zero, suc, ◌+◌, ◌^◌, ◌≤◌, ◌<◌, ◌≡◌, refl, sym, ap, ◌∙◌, arith, true, List, [], ◌∷◌, ◌++◌,
  length, length-append, take, drop, get_or, leb, le→leb, append_assoc, length-drop,
}
use mathlib.Core.Path.{subst}
use native.Mathlib.Nat.{zero-add, add-zero, add-suc, suc-add}
use aioquic.Base.Exception.{Result, ok, ◌>>=◌}
use aioquic.Buffer.{
  Buffer, advance, byte, pull_bytes, pull_uint8, pull_uint16, pull_uint32, put, uint8_bytes,
  uint16_bytes, uint32_bytes,
}

-- The bytes of a buffer that were not read.
abbrev pub rest : Buffer → List ℕ
rest b = drop b.pos b.memory

module _ {ℓ} {A : Type ℓ} where
  pub drop-add : (n m : ℕ) (xs : List A) → drop m (drop n xs) ≡ drop (n + m) xs
  drop-add zero m xs = rw (zero-add m) refl
  drop-add (suc n) zero [] = rw (add-zero (suc n)) refl
  drop-add (suc n) (suc m) [] = rw (add-suc (suc n) m) refl
  drop-add (suc n) m (x ∷ xs) = rw (suc-add n m) (drop-add n m xs)

  pub drop-append : (xs ys : List A) (n : ℕ) → length xs ≡ n → drop n (xs ++ ys) ≡ ys
  drop-append [] ys n e = subst (λ k. drop k ys ≡ ys) e refl
  drop-append (x ∷ xs) ys n e =
      subst (λ k. drop k ((x ∷ xs) ++ ys) ≡ ys) e (drop-append xs ys (length xs) refl)

  pub take-append : (xs ys : List A) (n : ℕ) → length xs ≡ n → take n (xs ++ ys) ≡ xs
  take-append [] ys n e = subst (λ k. take k ys ≡ []) e refl
  take-append (x ∷ xs) ys n e =
      subst (λ k. take k ((x ∷ xs) ++ ys) ≡ x ∷ xs) e
        (ap (λ t. x ∷ t) (take-append xs ys (length xs) refl))

  get_or-drop : (n i : ℕ) (xs : List A) (d : A) → get_or xs (n + i) d ≡ get_or (drop n xs) i d
  get_or-drop zero i xs d = rw (zero-add i) refl
  get_or-drop (suc n) i [] d = refl
  get_or-drop (suc n) i (x ∷ xs) d = rw (suc-add n i) (get_or-drop n i xs d)

-- What the pointers keep to.
abbrev pub InBounds : Buffer → Type 0
InBounds b = b.pos ≤ length b.memory

pub rest-advance :
    (b : Buffer) (xs ys : List ℕ) → rest b ≡ xs ++ ys → rest (advance b (length xs)) ≡ ys
rest-advance b xs ys e =
    sym (drop-add b.pos (length xs) b.memory)
    ∙ ap (drop (length xs)) e
    ∙ drop-append xs ys (length xs) refl

pub byte-rest : (b : Buffer) (i : ℕ) (xs : List ℕ) → rest b ≡ xs → byte b i ≡ get_or xs i 0
byte-rest b i xs e = get_or-drop b.pos i b.memory 0 ∙ ap (λ t. get_or t i 0) e

pub advance-InBounds :
    (b : Buffer) (xs ys : List ℕ)
    → InBounds b
    → rest b ≡ xs ++ ys
    → InBounds (advance b (length xs))
advance-InBounds b xs ys h e =
    omega (arith, h, length-drop b.pos b.memory, ap length e, length-append xs ys)

pub room :
    (b : Buffer) (xs ys : List ℕ)
    → InBounds b
    → rest b ≡ xs ++ ys
    → leb (b.pos + length xs) (length b.memory) ≡ true
room b xs ys h e = le→leb (b.pos + length xs) (length b.memory) (advance-InBounds b xs ys h e)

-- `pull` reads `bytes` as `value`, whatever follows them.
abbrev pub Pulls {ℓ} : {A : Type ℓ} → (Buffer → Result (A × Buffer)) → List ℕ → A → Type ℓ
Pulls pull bytes value =
    (b : Buffer) (after : List ℕ)
    → InBounds b
    → rest b ≡ bytes ++ after
    → pull b ≡ ok (value, advance b (length bytes))

-- `push` writes `bytes` where there is room for them.
abbrev pub Pushes : (Buffer → Result Buffer) → List ℕ → Type 0
Pushes push bytes =
    (b : Buffer) → b.pos + length bytes ≤ length b.memory → push b ≡ ok (put b bytes)

module _ {ℓ κ} {A : Type ℓ} {B : Type κ} where
  pub Pulls-then :
      (p : Buffer → Result (A × Buffer)) (q : A → Buffer → Result (B × Buffer)) (xs ys : List ℕ)
      (x : A) (y : B)
      → Pulls p xs x
      → Pulls (q x) ys y
      → Pulls (λ b. p b >>= λ (a, b'). q a b') (xs ++ ys) y
  Pulls-then p q xs ys x y f g b after h e =
      let e' : rest b ≡ xs ++ (ys ++ after) = e ∙ append_assoc xs ys after in
      let first = f b (ys ++ after) h e' in
      let second =
        g (advance b (length xs)) after (advance-InBounds b xs (ys ++ after) h e')
          (rest-advance b xs (ys ++ after) e') in
      let sum : b.pos + length xs + length ys ≡ b.pos + length (xs ++ ys) =
        omega (arith, length-append xs ys) in
      rw (first, second) (ap (λ n. ok (y, record b { pos = n })) sum)

module _ {ℓ κ} {A : Type ℓ} {B : Type κ} where
  -- The last pull of a sequence, and what is made of it.
  pub Pulls-ok :
      (p : Buffer → Result (A × Buffer)) (f : A → B) (xs : List ℕ) (x : A)
      → Pulls p xs x
      → Pulls (λ b. p b >>= λ (a, b'). ok (f a, b')) xs (f x)
  Pulls-ok p f xs x h b after i e = rw (h b after i e) refl

pub pull_bytes_lem : (xs : List ℕ) → Pulls (λ b. pull_bytes b (length xs)) xs xs
unfolding pull_bytes
pull_bytes_lem xs b after h e =
    rw (room b xs after h e, e)
      (ap (λ t. ok (t, advance b (length xs))) (take-append xs after (length xs) refl))

pub pull_uint8_lem : (v : ℕ) → v < 256 → Pulls pull_uint8 (uint8_bytes v) v
unfolding pull_uint8
pull_uint8_lem v h b after i e =
    rw (room b (uint8_bytes v) after i e, byte-rest b 0 _ e)
      (ap (λ n. ok (n, advance b 1)) (omega arith))

pub pull_uint16_lem : (v : ℕ) → v < 2 ^ 16 → Pulls pull_uint16 (uint16_bytes v) v
unfolding pull_uint16
pull_uint16_lem v h b after i e =
    rw (room b (uint16_bytes v) after i e, byte-rest b 0 _ e, byte-rest b 1 _ e)
      (ap (λ n. ok (n, advance b 2)) (omega arith))

pub pull_uint32_lem : (v : ℕ) → v < 2 ^ 32 → Pulls pull_uint32 (uint32_bytes v) v
unfolding pull_uint32
pull_uint32_lem v h b after i e =
    rw
      (
        room b (uint32_bytes v) after i e,
        byte-rest b 0 _ e,
        byte-rest b 1 _ e,
        byte-rest b 2 _ e,
        byte-rest b 3 _ e,
      )
      (ap (λ n. ok (n, advance b 4)) (omega arith))
