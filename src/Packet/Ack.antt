-- ===== src/Packet/Ack.antt =====
-- `pull_ack_frame` and `push_ack_frame` of src/aioquic/quic/packet.py. The packet numbers of a
-- frame are in decreasing order, each range as its distance from the one before.
pub mod Ranges
pub mod RoundTrip
use aioquic.Base.{
  ℕ, Option, none, some, zero, suc, ◌+◌, ◌-◌, ◌≤◌, ◌<◌, ◌≡◌, arith, Bool, true, false, List, [],
  ◌∷◌, ◌++◌, ltb, leb, if◌then◌else◌,
}
use aioquic.Base.Exception.{Result, ok, raise, ◌>>=◌}
use aioquic.RangeSet.{Range, RangeSet, range, add, get_item, len}
use aioquic.Buffer.{Buffer, pull_uint_var, push_uint_var}

-- What `pull_ack_frame` makes of a frame. Where a packet number is negative Python goes on with
-- negative numbers; the range sets here hold natural numbers, so `below_zero` says that it happened,
-- and the frame is read no further.
pub data AckFrame : Type 0 where
  acks : RangeSet → ℕ → AckFrame
  below_zero : AckFrame

-- One range, down from `end`: the set with it, and the number below it.
unfoldable pub add_range : RangeSet → ℕ → ℕ → Result (Option (RangeSet × ℕ))
add_range rangeset end ack_count =
    if leb ack_count end
    then (add rangeset (end - ack_count) (end + 1) >>= λ s. ok (some (s, end - ack_count)))
    else ok none

-- The same after a gap.
unfoldable pub next_range : RangeSet → ℕ → ℕ → ℕ → Result (Option (RangeSet × ℕ))
next_range rangeset end gap ack_count =
    if leb (gap + 2) end then add_range rangeset (end - (gap + 2)) ack_count else ok none

-- The `for` loop.
unfoldable pub pull_ranges : Buffer → ℕ → ℕ → Option (RangeSet × ℕ) → Result (AckFrame × Buffer)
pull_ranges b delay count none = ok (below_zero, b)
pull_ranges b delay zero (some (rangeset, end)) = ok (acks rangeset delay, b)
pull_ranges b delay (suc count) (some (rangeset, end)) = do
  (gap, b) ← pull_uint_var b
  (ack_count, b) ← pull_uint_var b
  next ← next_range rangeset end gap ack_count
  pull_ranges b delay count next

unfoldable pub pull_ack_frame : Buffer → Result (AckFrame × Buffer)
pull_ack_frame b = do
  (end, b) ← pull_uint_var b
  (delay, b) ← pull_uint_var b
  (ack_range_count, b) ← pull_uint_var b
  (ack_count, b) ← pull_uint_var b
  first ← add_range [] end ack_count
  pull_ranges b delay ack_range_count first

-- The `while` loop.
unfoldable pub push_ranges : Buffer → RangeSet → ℕ → ℕ → Result Buffer
push_ranges b rangeset zero start = ok b
push_ranges b rangeset (suc index) start = do
  r ← get_item rangeset index
  b ← push_uint_var b (start - r.stop - 1)
  b ← push_uint_var b (r.stop - r.start - 1)
  push_ranges b rangeset index r.start

unfoldable pub push_ack_frame : Buffer → RangeSet → ℕ → Result (ℕ × Buffer)
push_ack_frame b rangeset delay = do
  let ranges = len rangeset
  let index = ranges - 1
  r ← get_item rangeset index
  b ← push_uint_var b (r.stop - 1)
  b ← push_uint_var b delay
  b ← push_uint_var b index
  b ← push_uint_var b (r.stop - 1 - r.start)
  b ← push_ranges b rangeset index r.start
  ok (ranges, b)
