-- ===== src/RangeSet.antt =====
-- src/aioquic/quic/rangeset.py: a set of integers kept as a list of ranges, in increasing order,
-- no two of which touch. The integers are stream offsets and packet numbers, so natural numbers.
pub mod Shape
pub mod Members
pub mod Canonical
pub mod Laws
mod Examples
use aioquic.Base.{
  ℕ, ◌<◌, Bool, true, false, ◌&&◌, ◌||◌, List, [], ◌∷◌, Option, none, some, ltb, leb, min, max,
  if◌then◌else◌, length, get_elem?,
}
use aioquic.Base.Exception.{Result, ok, raise, assertion_error, index_error, ◌>>=◌, ◌>>◌, ensure}

-- Python's `range(start, stop)`.
pub record Range : Type 0 where
  pub start : ℕ
  pub stop : ℕ

abbrev pub range : ℕ → ℕ → Range
range a b = record { start = a; stop = b }

-- `self.__ranges`
abbrev pub RangeSet : Type 0
RangeSet = List Range

-- The `while` loop of `add`: the ranges that the merged range reaches are popped into it.
unfoldable pub merge_following : RangeSet → ℕ → ℕ → RangeSet
merge_following [] start stop = range start stop ∷ []
merge_following (r ∷ rs) start stop = elim (leb r.start stop) [
  | true ↦ merge_following rs start (max r.stop stop)
  | false ↦ range start stop ∷ r ∷ rs
]

-- The `for` loop of `add`.
unfoldable pub add_loop : RangeSet → ℕ → ℕ → RangeSet
add_loop [] start stop = range start stop ∷ []
add_loop (r ∷ rs) start stop =
    if ltb stop r.start
    then range start stop ∷ r ∷ rs
    else if ltb r.stop start
    then r ∷ add_loop rs start stop
    else merge_following rs (min start r.start) (max stop r.stop)

unfoldable pub add : RangeSet → ℕ → ℕ → Result RangeSet
add s start stop = do ensure (ltb start stop) assertion_error; ok (add_loop s start stop)

-- The `while` loop of `subtract`. Where a range is split, the next round meets the inserted upper
-- part, which starts at `stop`, and returns.
unfoldable pub subtract_loop : RangeSet → ℕ → ℕ → RangeSet
subtract_loop [] start stop = []
subtract_loop (r ∷ rs) start stop =
    let rest = subtract_loop rs start stop in
    if leb stop r.start
    then r ∷ rs
    else if leb r.stop start
    then r ∷ rest
    else if leb start r.start && leb r.stop stop
    then rest
    else if ltb r.start start
    then (if ltb stop r.stop
        then range r.start start ∷ range stop r.stop ∷ rs
        else range r.start start ∷ rest)
    else range stop r.stop ∷ rest

unfoldable pub subtract : RangeSet → ℕ → ℕ → Result RangeSet
subtract s start stop = do ensure (ltb start stop) assertion_error; ok (subtract_loop s start stop)

-- `__getitem__` at an index that is not negative.
unfoldable pub get_item : RangeSet → ℕ → Result Range
get_item s key = elim (get_elem? s key) [ none ↦ raise index_error | some r ↦ ok r ]

last : Range → RangeSet → Range
last r [] = r
last r (q ∷ rs) = last q rs

pub bounds : RangeSet → Result Range
bounds [] = raise index_error
bounds (r ∷ rs) = ok (range r.start (last r rs).stop)

-- `self.__ranges.pop(0)`: the range, and the set that is left.
unfoldable pub shift : RangeSet → Result (Range × RangeSet)
shift [] = raise index_error
shift (r ∷ rs) = ok (r, rs)

-- `val in r`
abbrev pub in_range : ℕ → Range → Bool
in_range val r = leb r.start val && ltb val r.stop

-- `__contains__`
unfoldable pub contains : RangeSet → ℕ → Bool
contains [] val = false
contains (r ∷ rs) val = in_range val r || contains rs val

-- `__len__`
abbrev pub len : RangeSet → ℕ
len s = length s
