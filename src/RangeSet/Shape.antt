-- ===== src/RangeSet/Shape.antt =====
-- The invariant of a RangeSet: ranges that are not empty, in increasing order, with a gap between
-- each and the next. Every operation keeps it.
use aioquic.Base.{ℕ, suc, ◌≤◌, ◌<◌, [], ◌∷◌, arith, min, max}
use aioquic.RangeSet.{RangeSet, merge_following, add_loop, subtract_loop}

-- The ranges are separated, and the first starts at `lo` or later.
abbrev pub IsSeparated : ℕ → RangeSet → Type 0
IsSeparated lo [] = Unit
IsSeparated lo (r ∷ rs) = (lo ≤ r.start) × (r.start < r.stop) × IsSeparated (suc r.stop) rs

pub IsSeparated-weaken : (s : RangeSet) {lo hi : ℕ} → lo ≤ hi → IsSeparated hi s → IsSeparated lo s
IsSeparated-weaken [] h w = tt
IsSeparated-weaken (r ∷ rs) h w = (omega arith, w.1, w.2)

pub merge_following-IsSeparated :
    (s : RangeSet) (lo start stop : ℕ)
    → lo ≤ start
    → start < stop
    → IsSeparated (suc start) s
    → IsSeparated lo (merge_following s start stop)
unfolding merge_following
merge_following-IsSeparated [] lo start stop a b w = omega arith
merge_following-IsSeparated (r ∷ rs) lo start stop a b w = ground (
  arith,
  merge_following-IsSeparated rs lo start (max r.stop stop),
  IsSeparated-weaken rs {lo = suc start} {hi = suc r.stop},
)

pub add_loop-IsSeparated :
    (s : RangeSet) (lo start stop : ℕ)
    → lo ≤ start
    → start < stop
    → IsSeparated lo s
    → IsSeparated lo (add_loop s start stop)
unfolding add_loop
add_loop-IsSeparated [] lo start stop a b w = omega arith
add_loop-IsSeparated (r ∷ rs) lo start stop a b w = ground (
  arith,
  add_loop-IsSeparated rs (suc r.stop) start stop,
  merge_following-IsSeparated rs lo (min start r.start) (max stop r.stop),
  IsSeparated-weaken rs {lo = suc (min start r.start)} {hi = suc r.stop},
)

pub subtract_loop-IsSeparated :
    (s : RangeSet) (lo start stop : ℕ)
    → start < stop
    → IsSeparated lo s
    → IsSeparated lo (subtract_loop s start stop)
unfolding subtract_loop
subtract_loop-IsSeparated [] lo start stop b w = tt
subtract_loop-IsSeparated (r ∷ rs) lo start stop b w = ground (
  arith,
  subtract_loop-IsSeparated rs (suc r.stop) start stop,
  IsSeparated-weaken (subtract_loop rs start stop) {lo = lo} {hi = suc r.stop},
  IsSeparated-weaken (subtract_loop rs start stop) {lo = suc start} {hi = suc r.stop},
)
