-- ===== src/Base/Slices.antt =====
-- Slices of byte strings, read one position at a time, and the segment of a stream's content that
-- a frame carries.
use aioquic.Base.{
  ℕ, true, zero, suc, ◌+◌, ◌-◌, ◌≤◌, ◌<◌, ◌≡◌, refl, ap, arith, List, [], ◌∷◌, ◌++◌, none, some,
  ltb, leb, le→leb, if◌then◌else◌, length, get_elem?, take, drop, replicate, length-append,
  length-take, length-drop, length-replicate, max,
}

module _ {ℓ} {A : Type ℓ} where
  pub get_elem?-append :
      (xs ys : List A) (i : ℕ)
      → get_elem? (xs ++ ys) i
        ≡ (if ltb i (length xs) then get_elem? xs i else get_elem? ys (i - length xs))
  get_elem?-append [] ys i = ground arith
  get_elem?-append (x ∷ xs) ys zero = ground arith
  get_elem?-append (x ∷ xs) ys (suc i) = ground (arith, get_elem?-append xs ys i)

  pub get_elem?-take :
      (n : ℕ) (xs : List A) (i : ℕ)
      → get_elem? (take n xs) i ≡ (if ltb i n then get_elem? xs i else none)
  get_elem?-take zero xs i = ground arith
  get_elem?-take (suc n) [] i = ground arith
  get_elem?-take (suc n) (x ∷ xs) zero = ground arith
  get_elem?-take (suc n) (x ∷ xs) (suc i) = ground (arith, get_elem?-take n xs i)

  pub get_elem?-drop :
      (n : ℕ) (xs : List A) (i : ℕ) → get_elem? (drop n xs) i ≡ get_elem? xs (i + n)
  get_elem?-drop zero xs i = ground arith
  get_elem?-drop (suc n) [] i = refl
  get_elem?-drop (suc n) (x ∷ xs) i = ground (arith, get_elem?-drop n xs i)

  pub get_elem?-beyond : (xs : List A) (i : ℕ) → length xs ≤ i → get_elem? xs i ≡ none
  get_elem?-beyond [] i h = refl
  get_elem?-beyond (x ∷ xs) zero h = absurd (omega arith)
  get_elem?-beyond (x ∷ xs) (suc i) h = get_elem?-beyond xs i (omega arith)

  pub get_elem?-lt : (xs : List A) (i : ℕ) (a : A) → get_elem? xs i ≡ some a → i < length xs
  get_elem?-lt [] i a h = cc
  get_elem?-lt (x ∷ xs) zero a h = omega arith
  get_elem?-lt (x ∷ xs) (suc i) a h = omega (arith, get_elem?-lt xs i a h)

-- The bytes of `content` at the offsets start, start + 1, ..., start + n - 1.
unfoldable pub segment : (ℕ → ℕ) → ℕ → ℕ → List ℕ
segment content start zero = []
segment content start (suc n) = content start ∷ segment content (suc start) n

pub length-segment : (c : ℕ → ℕ) (a n : ℕ) → length (segment c a n) ≡ n
unfolding segment
length-segment c a zero = refl
length-segment c a (suc n) = ap suc (length-segment c (suc a) n)

pub get_elem?-segment :
    (c : ℕ → ℕ) (a n i : ℕ) → i < n → get_elem? (segment c a n) i ≡ some (c (a + i))
unfolding segment
get_elem?-segment c a zero i h = absurd (omega arith)
get_elem?-segment c a (suc n) zero h = ground arith
get_elem?-segment c a (suc n) (suc i) h = ground (arith, get_elem?-segment c (suc a) n i)

pub drop-segment : (c : ℕ → ℕ) (a n k : ℕ) → drop k (segment c a n) ≡ segment c (a + k) (n - k)
unfolding segment
drop-segment c a n zero = ground arith
drop-segment c a zero (suc k) = ground arith
drop-segment c a (suc n) (suc k) = ground (arith, drop-segment c (suc a) n k)

-- A prefix that agrees with `c` at each position is a segment.
pub take-eq-segment :
    (c : ℕ → ℕ) (a n : ℕ) (xs : List ℕ)
    → ((i : ℕ) → i < n → get_elem? xs i ≡ some (c (a + i)))
    → take n xs ≡ segment c a n
unfolding segment
take-eq-segment c a zero xs h = refl
take-eq-segment c a (suc n) [] h = let e = h 0 (omega arith) in cc
take-eq-segment c a (suc n) (x ∷ xs) h = ground (
  arith,
  h 0 (omega arith),
  take-eq-segment c (suc a) n xs (λ i k. ground (arith, h (suc i) (omega arith))),
)

pub segment-append :
    (c : ℕ → ℕ) (a m n : ℕ) → segment c a m ++ segment c (a + m) n ≡ segment c a (m + n)
unfolding segment
segment-append c a zero n = ground arith
segment-append c a (suc m) n =
    let e : suc m + n ≡ suc (m + n) = omega arith in
    let f : a + suc m ≡ suc a + m = omega arith in
    rw (e, f) (ap (λ t. c a ∷ t) (segment-append c (suc a) m n))

-- `buffer[pos : pos + len(data)] = data`, after the buffer was filled up with zero bytes to `pos`.
unfoldable pub fill_to : ℕ → List ℕ → List ℕ
fill_to pos buffer = buffer ++ replicate (pos - length buffer) 0

unfoldable pub assign_slice : List ℕ → ℕ → List ℕ → List ℕ
assign_slice buffer pos bytes = take pos buffer ++ (bytes ++ drop (pos + length bytes) buffer)

pub length-fill_to : (pos : ℕ) (buffer : List ℕ) → pos ≤ length (fill_to pos buffer)
unfolding fill_to
length-fill_to pos buffer = ground (
  arith,
  length-append buffer (replicate (pos - length buffer) 0),
  length-replicate {A = ℕ} (pos - length buffer) 0,
)

pub get_elem?-fill_to :
    (pos : ℕ) (buffer : List ℕ) (i : ℕ)
    → i < length buffer
    → get_elem? (fill_to pos buffer) i ≡ get_elem? buffer i
unfolding fill_to
get_elem?-fill_to pos buffer i h =
    ground (arith, get_elem?-append buffer (replicate (pos - length buffer) 0) i)

-- What a slice assignment at or before the end of the buffer leaves at each position.
pub get_elem?-assign_slice :
    (buffer : List ℕ) (pos : ℕ) (bytes : List ℕ) (i : ℕ)
    → pos ≤ length buffer
    → get_elem? (assign_slice buffer pos bytes) i ≡ (
        if ltb i pos
        then get_elem? buffer i
        else if ltb i (pos + length bytes)
        then get_elem? bytes (i - pos)
        else get_elem? buffer i)
unfolding assign_slice
get_elem?-assign_slice buffer pos bytes i h = ground (
  arith,
  length-take pos buffer,
  get_elem?-append (take pos buffer) (bytes ++ drop (pos + length bytes) buffer) i,
  get_elem?-append bytes (drop (pos + length bytes) buffer) (i - pos),
  get_elem?-take pos buffer i,
  get_elem?-drop (pos + length bytes) buffer (i - pos - length bytes),
)

pub length-assign_slice :
    (buffer : List ℕ) (pos : ℕ) (bytes : List ℕ)
    → pos ≤ length buffer
    → length (assign_slice buffer pos bytes) ≡ max (length buffer) (pos + length bytes)
unfolding assign_slice
length-assign_slice buffer pos bytes h = ground (
  arith,
  length-append (take pos buffer) (bytes ++ drop (pos + length bytes) buffer),
  length-append bytes (drop (pos + length bytes) buffer),
  length-take pos buffer,
  length-drop (pos + length bytes) buffer,
)

pub length-fill_to_eq :
    (pos : ℕ) (buffer : List ℕ) → length (fill_to pos buffer) ≡ max pos (length buffer)
unfolding fill_to
length-fill_to_eq pos buffer = ground (
  arith,
  length-append buffer (replicate (pos - length buffer) 0),
  length-replicate {A = ℕ} (pos - length buffer) 0,
)

-- Python's `buffer[a - b : c - b]`: an index below zero counts from the end, and stops at 0.
unfoldable pub slice_index : ℕ → ℕ → ℕ → ℕ
slice_index size a b = if leb b a then a - b else size - (b - a)

unfoldable pub slice : List ℕ → ℕ → ℕ → ℕ → List ℕ
unfolding slice_index
slice buffer a b c =
    let lo = slice_index (length buffer) a b in
    take (slice_index (length buffer) c b - lo) (drop lo buffer)

pub take-segment : (c : ℕ → ℕ) (a n k : ℕ) → k ≤ n → take k (segment c a n) ≡ segment c a k
unfolding segment
take-segment c a n zero h = refl
take-segment c a zero (suc k) h = absurd (omega arith)
take-segment c a (suc n) (suc k) h = ap (λ t. c a ∷ t) (take-segment c (suc a) n k (omega arith))

-- A slice of a segment whose bounds lie inside it is a segment.
pub slice-segment :
    (c : ℕ → ℕ) (start n a b : ℕ)
    → start ≤ a
    → a ≤ b
    → b ≤ start + n
    → slice (segment c start n) a start b ≡ segment c a (b - a)
unfolding slice
slice-segment c start n a b h k m =
    let lo : leb start a ≡ true = le→leb start a h in
    let hi : leb start b ≡ true = le→leb start b (omega arith) in
    let at : start + (a - start) ≡ a = omega arith in
    let size : b - start - (a - start) ≡ b - a = omega arith in
    rw (lo, hi, drop-segment c start n (a - start), at, size)
      (take-segment c a (n - (a - start)) (b - a) (omega arith))
