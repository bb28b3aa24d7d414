-- ===== src/Buffer.antt =====
-- aioquic.buffer (src/aioquic/_buffer.c and src/aioquic/buffer.py). The memory between `base` and
-- `end` is a list of bytes, and `pos` is counted from `base`. `>>` and `&` are `/` and `%` by powers
-- of two, and `|` is `+` where the operands have no bit in common, as everywhere here. A call that
-- fails leaves the buffer as it was; so a result is the buffer afterwards, or the exception.
pub mod Pulls
pub mod Codes
pub mod Varint
pub mod Moves
mod Examples
use aioquic.Base.{
  ℕ, zero, suc, ◌-◌, ◌+◌, ◌*◌, ◌/◌, ◌%◌, ◌^◌, Bool, true, false, ◌&&◌, List, [], ◌∷◌, ◌++◌, ltb,
  leb, ◌==◌, if◌then◌else◌, length, take, drop, get_or,
}
use aioquic.Base.Exception.{
  Result, ok, raise, ◌>>=◌, value_error, buffer_read_error, buffer_write_error,
}

pub record Buffer : Type 0 where
  pub memory : List ℕ
  pub pos : ℕ

-- `Buffer(data=memory)`. For `Buffer(capacity=n)` the memory is the n bytes that `malloc` returns.
abbrev pub new : List ℕ → Buffer
new memory = record { memory = memory; pos = 0 }

abbrev pub capacity : Buffer → ℕ
capacity b = length b.memory

-- The property `data`.
abbrev pub written : Buffer → List ℕ
written b = take b.pos b.memory

abbrev pub eof : Buffer → Bool
eof b = b.pos == length b.memory

abbrev pub tell : Buffer → ℕ
tell b = b.pos

abbrev pub advance : Buffer → ℕ → Buffer
advance b n = record b { pos = b.pos + n }

-- `*(pos + i)`, which is read after the bounds check only.
abbrev pub byte : Buffer → ℕ → ℕ
byte b i = get_or b.memory (b.pos + i) 0

-- `CHECK_READ_BOUNDS` before what is read.
abbrev pub checked {ℓ} : {A : Type ℓ} → Buffer → ℕ → Result A → Result A
checked b n result = if leb (b.pos + n) (length b.memory) then result else raise buffer_read_error

unfoldable pub seek : Buffer → ℕ → Result Buffer
seek b pos =
    if leb pos (length b.memory) then ok (record b { pos = pos }) else raise buffer_read_error

pub data_slice : Buffer → ℕ → ℕ → Result (List ℕ)
data_slice b start stop =
    if leb start (length b.memory) && (leb stop (length b.memory) && leb start stop)
    then ok (take (stop - start) (drop start b.memory))
    else raise buffer_read_error

unfoldable pub pull_bytes : Buffer → ℕ → Result (List ℕ × Buffer)
pull_bytes b n = checked b n (ok (take n (drop b.pos b.memory), advance b n))

unfoldable pub pull_uint8 : Buffer → Result (ℕ × Buffer)
pull_uint8 b = checked b 1 (ok (byte b 0, advance b 1))

pub pull_uint16 : Buffer → Result (ℕ × Buffer)
pull_uint16 b = checked b 2 (ok (byte b 0 * 2 ^ 8 + byte b 1, advance b 2))

unfoldable pub pull_uint32 : Buffer → Result (ℕ × Buffer)
pull_uint32 b =
    checked b 4
      (ok (byte b 0 * 2 ^ 24 + byte b 1 * 2 ^ 16 + byte b 2 * 2 ^ 8 + byte b 3, advance b 4))

-- The value of the eight bytes that start with `first`.
abbrev uint64_from : Buffer → ℕ → ℕ
uint64_from b first =
    first * 2 ^ 56
    + byte b 1 * 2 ^ 48
    + byte b 2 * 2 ^ 40
    + byte b 3 * 2 ^ 32
    + byte b 4 * 2 ^ 24
    + byte b 5 * 2 ^ 16
    + byte b 6 * 2 ^ 8
    + byte b 7

abbrev pub pull_uint64 : Buffer → Result (ℕ × Buffer)
pull_uint64 b = checked b 8 (ok (uint64_from b (byte b 0), advance b 8))

-- The `switch` on the two high bits of the first byte.
abbrev pull_by_prefix : Buffer → ℕ → Result (ℕ × Buffer)
pull_by_prefix b zero = ok (byte b 0 % 64, advance b 1)
pull_by_prefix b (suc zero) = checked b 2 (ok (byte b 0 % 64 * 2 ^ 8 + byte b 1, advance b 2))
pull_by_prefix b (suc (suc zero)) =
    checked b 4
      (ok (byte b 0 % 64 * 2 ^ 24 + byte b 1 * 2 ^ 16 + byte b 2 * 2 ^ 8 + byte b 3, advance b 4))
pull_by_prefix b (suc (suc (suc n))) = checked b 8 (ok (uint64_from b (byte b 0 % 64), advance b 8))

unfoldable pub pull_uint_var : Buffer → Result (ℕ × Buffer)
pull_uint_var b = checked b 1 (pull_by_prefix b (byte b 0 / 64))

-- The bytes of the memory from `pos` on are overwritten.
abbrev pub put : Buffer → List ℕ → Buffer
put b bytes = record {
  memory = take b.pos b.memory ++ (bytes ++ drop (b.pos + length bytes) b.memory);
  pos = b.pos + length bytes;
}

-- `CHECK_WRITE_BOUNDS`, then the writes.
unfoldable pub push_bytes : Buffer → List ℕ → Result Buffer
push_bytes b bytes =
    if leb (b.pos + length bytes) (length b.memory)
    then ok (put b bytes)
    else raise buffer_write_error

-- The bytes that are written for an integer of a width: a larger argument is truncated when it is
-- parsed (the formats B, H, I and K check no overflow).
abbrev pub uint8_bytes : ℕ → List ℕ
uint8_bytes v = v % 2 ^ 8 ∷ []

abbrev pub uint16_bytes : ℕ → List ℕ
uint16_bytes v = v % 2 ^ 16 / 2 ^ 8 ∷ v % 2 ^ 8 ∷ []

abbrev pub uint32_bytes : ℕ → List ℕ
uint32_bytes v = v % 2 ^ 32 / 2 ^ 24 ∷ v / 2 ^ 16 % 2 ^ 8 ∷ v / 2 ^ 8 % 2 ^ 8 ∷ v % 2 ^ 8 ∷ []

abbrev pub uint64_bytes : ℕ → List ℕ
uint64_bytes v =
    v % 2 ^ 64 / 2 ^ 56
    ∷ v / 2 ^ 48 % 2 ^ 8
    ∷ v / 2 ^ 40 % 2 ^ 8
    ∷ v / 2 ^ 32 % 2 ^ 8
    ∷ v / 2 ^ 24 % 2 ^ 8
    ∷ v / 2 ^ 16 % 2 ^ 8
    ∷ v / 2 ^ 8 % 2 ^ 8
    ∷ v % 2 ^ 8
    ∷ []

unfoldable pub push_uint8 : Buffer → ℕ → Result Buffer
push_uint8 b v = push_bytes b (uint8_bytes v)

unfoldable pub push_uint16 : Buffer → ℕ → Result Buffer
push_uint16 b v = push_bytes b (uint16_bytes v)

unfoldable pub push_uint32 : Buffer → ℕ → Result Buffer
push_uint32 b v = push_bytes b (uint32_bytes v)

abbrev pub push_uint64 : Buffer → ℕ → Result Buffer
push_uint64 b v = push_bytes b (uint64_bytes v)

-- The branches of `Buffer_push_uint_var`, on the 64-bit value.
abbrev pub uint_var_bytes : ℕ → Result (List ℕ)
uint_var_bytes v =
    if leb v 0x3F
    then ok (v ∷ [])
    else if leb v 0x3FFF
    then ok ((v / 2 ^ 8 + 0x40) ∷ v % 2 ^ 8 ∷ [])
    else if leb v 0x3FFFFFFF
    then ok ((v / 2 ^ 24 + 0x80) ∷ v / 2 ^ 16 % 2 ^ 8 ∷ v / 2 ^ 8 % 2 ^ 8 ∷ v % 2 ^ 8 ∷ [])
    else if leb v 0x3FFFFFFFFFFFFFFF
    then ok (
        (v / 2 ^ 56 + 0xC0)
        ∷ v / 2 ^ 48 % 2 ^ 8
        ∷ v / 2 ^ 40 % 2 ^ 8
        ∷ v / 2 ^ 32 % 2 ^ 8
        ∷ v / 2 ^ 24 % 2 ^ 8
        ∷ v / 2 ^ 16 % 2 ^ 8
        ∷ v / 2 ^ 8 % 2 ^ 8
        ∷ v % 2 ^ 8
        ∷ [])
    else raise value_error

unfoldable pub push_uint_var : Buffer → ℕ → Result Buffer
push_uint_var b v = uint_var_bytes (v % 2 ^ 64) >>= λ bytes. push_bytes b bytes

-- `encode_uint_var`, with the memory of its buffer of `UINT_VAR_MAX_SIZE` bytes.
unfoldable pub encode_uint_var : List ℕ → ℕ → Result (List ℕ)
encode_uint_var memory value = push_uint_var (new memory) value >>= λ b. ok (written b)

pub size_uint_var : ℕ → Result ℕ
size_uint_var value =
    if leb value 0x3F
    then ok 1
    else if leb value 0x3FFF
    then ok 2
    else if leb value 0x3FFFFFFF
    then ok 4
    else if leb value 0x3FFFFFFFFFFFFFFF
    then ok 8
    else raise value_error
