-- ===== src/Base/Bytes.antt =====
-- Byte strings compared and searched as Python does: `==`, `in` for a collection of them, and
-- `int(value)`.
use aioquic.Base.{
  ℕ, zero, suc, ◌+◌, ◌-◌, ◌*◌, ◌≡◌, refl, arith, Bool, true, false, ◌&&◌, ◌||◌, List, [], ◌∷◌, leb,
  ◌==◌, if◌then◌else◌,
}
use aioquic.Base.Exception.{Result, ok, raise, ◌>>=◌, value_error}

abbrev pub eq_bytes : List ℕ → List ℕ → Bool
eq_bytes [] [] = true
eq_bytes [] (y ∷ ys) = false
eq_bytes (x ∷ xs) [] = false
eq_bytes (x ∷ xs) (y ∷ ys) = (x == y) && eq_bytes xs ys

-- `key in collection`
abbrev pub elem : List ℕ → List (List ℕ) → Bool
elem key [] = false
elem key (k ∷ ks) = eq_bytes key k || elem key ks

pub eq_bytes-eq : (xs ys : List ℕ) → eq_bytes xs ys ≡ true → xs ≡ ys
eq_bytes-eq [] [] h = refl
eq_bytes-eq [] (y ∷ ys) h = absurd (ground (arith, h))
eq_bytes-eq (x ∷ xs) [] h = absurd (ground (arith, h))
eq_bytes-eq (x ∷ xs) (y ∷ ys) h =
    let head : x ≡ y = ground (arith, h) in
    let tail : eq_bytes xs ys ≡ true = ground (arith, h) in rw (head, eq_bytes-eq xs ys tail) refl

pub eq_bytes_self : (xs : List ℕ) → eq_bytes xs xs ≡ true
eq_bytes_self [] = refl
eq_bytes_self (x ∷ xs) = ground (arith, eq_bytes_self xs)

-- `int(value)` of a byte string, less the interpreter's limit on the number of digits.
abbrev is_space : ℕ → Bool
is_space c = (leb 9 c && leb c 13) || (c == 0x20)

abbrev pub is_digit : ℕ → Bool
is_digit c = leb 0x30 c && leb c 0x39

unfoldable pub strip_front : List ℕ → List ℕ
strip_front [] = []
strip_front (c ∷ cs) = let rest = strip_front cs in if is_space c then rest else c ∷ cs

-- What is left without the spaces at the end.
unfoldable pub strip_back : List ℕ → List ℕ
strip_back [] = []
strip_back (c ∷ cs) = elim (strip_back cs) [
  | [] ↦ if is_space c then [] else c ∷ []
  | d ∷ ds ↦ c ∷ d ∷ ds
]

-- The digits, with single underscores between them; `digit` says that one was just read.
unfoldable pub int_digits : Bool → ℕ → List ℕ → Result ℕ
int_digits digit n [] = if digit then ok n else raise value_error
int_digits digit n (c ∷ cs) =
    let rest = int_digits (is_digit c) (if is_digit c then n * 10 + (c - 0x30) else n) cs in
    if is_digit c || (digit && (c == 0x5F)) then rest else raise value_error

-- The sign, and whether the number is negative: -0 is not.
unfoldable pub int_signed : List ℕ → Result (Bool × ℕ)
int_signed [] = raise value_error
int_signed (c ∷ cs) =
    if c == 0x2D
    then (int_digits false 0 cs >>= λ n. ok (not_zero n, n))
    else (int_digits false 0 (if c == 0x2B then cs else c ∷ cs) >>= λ n. ok (false, n))
  where
    not_zero : ℕ → Bool
    not_zero zero = false
    not_zero (suc n) = true

unfoldable pub int : List ℕ → Result (Bool × ℕ)
int value = int_signed (strip_back (strip_front value))
