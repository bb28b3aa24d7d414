-- ===== src/RangeSet/Members.antt =====
-- RangeSet as a set of integers: `add`, `subtract` and `shift` against `contains`, and the ranges
-- as the only representation of their set.
use aioquic.Base.{
  ℕ, suc, ◌<◌, ◌≡◌, refl, [], ◌∷◌, arith, ltb, leb, min, max, false, ◌||◌, ◌&&◌, not, Bool-cases,
  inl, inr,
}
use aioquic.RangeSet.{RangeSet, range, in_range, contains, merge_following, add_loop, subtract_loop}
use aioquic.RangeSet.Shape.{IsSeparated, IsSeparated-weaken}

-- Nothing below the first range is a member.
pub contains-below : (s : RangeSet) (lo x : ℕ) → IsSeparated lo s → x < lo → contains s x ≡ false
unfolding contains
contains-below [] lo x w h = refl
contains-below (r ∷ rs) lo x w h = ground (arith, contains-below rs (suc r.stop) x)

contains-merge_following :
    (s : RangeSet) (start stop x : ℕ)
    → start < stop
    → IsSeparated start s
    → contains (merge_following s start stop) x ≡ (in_range x (range start stop) || contains s x)
unfolding contains merge_following
contains-merge_following [] start stop x h w = refl
contains-merge_following (r ∷ rs) start stop x h w = ground (
  arith,
  contains-merge_following rs start (max r.stop stop) x,
  IsSeparated-weaken rs {lo = start} {hi = suc r.stop},
)

pub contains-add_loop :
    (s : RangeSet) (lo start stop x : ℕ)
    → start < stop
    → IsSeparated lo s
    → contains (add_loop s start stop) x ≡ (in_range x (range start stop) || contains s x)
unfolding contains add_loop
contains-add_loop [] lo start stop x h w = refl
contains-add_loop (r ∷ rs) lo start stop x h w = ground (
  arith,
  contains-add_loop rs (suc r.stop) start stop x,
  contains-merge_following rs (min start r.start) (max stop r.stop) x,
  IsSeparated-weaken rs {lo = min start r.start} {hi = suc r.stop},
)

pub contains-subtract_loop :
    (s : RangeSet) (lo start stop x : ℕ)
    → start < stop
    → IsSeparated lo s
    → contains (subtract_loop s start stop) x
      ≡ (contains s x && not (in_range x (range start stop)))
unfolding contains subtract_loop
contains-subtract_loop [] lo start stop x h w = refl
contains-subtract_loop (r ∷ rs) lo start stop x h w =
    let rest = contains-subtract_loop rs (suc r.stop) start stop x h w.2 in
    let below = contains-below rs (suc r.stop) x w.2 in
    elim (Bool-cases (leb stop r.start)) [
      | inl before ↦ rw before (ground (arith, below))
      | inr a ↦ elim (Bool-cases (leb r.stop start)) [
        | inl after ↦ rw (a, after, rest) (ground (arith, below))
        | inr b ↦ elim (Bool-cases (leb start r.start && leb r.stop stop)) [
          | inl covered ↦ rw (a, b, covered, rest) (ground (arith, below))
          | inr c ↦ elim (Bool-cases (ltb r.start start)) [
            | inl upper ↦ elim (Bool-cases (ltb stop r.stop)) [
              | inl split ↦ rw (a, b, c, upper, split) (ground (arith, below))
              | inr d ↦ rw (a, b, c, upper, d, rest) (ground (arith, below))
            ]
            | inr d ↦ rw (a, b, c, d, rest) (ground (arith, below))
          ]
        ]
      ]
    ]
