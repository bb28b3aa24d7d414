-- ===== src/RangeSet/Laws.antt =====
-- What the methods of RangeSet promise: the set that each leaves, and the errors.
use aioquic.Base.{
  ℕ, suc, ◌+◌, ◌-◌, ◌≤◌, ◌<◌, ◌≡◌, [], ◌∷◌, arith, Bool, true, false, ◌||◌, ◌&&◌, not, ltb, min,
  max, length, ltb→lt, lt→ltb, Bool-cases, inl, inr,
}
use aioquic.Base.Exception.{Result, ok, ◌>>=◌}
use aioquic.RangeSet.{
  Range, RangeSet, range, in_range, contains, add_loop, merge_following, add, subtract_loop,
  subtract, shift, last, bounds, len,
}
use aioquic.RangeSet.Shape.{IsSeparated, add_loop-IsSeparated, subtract_loop-IsSeparated}
use aioquic.RangeSet.Members.{contains-below, contains-add_loop, contains-subtract_loop}
use aioquic.RangeSet.Canonical.{add_loop_comm}

-- A call that does not fail leaves a set with the invariant, whose members are as told.
pub record Leaves (r : Result RangeSet) (members : ℕ → Bool) : Type 0 where
  pub left : RangeSet
  pub returns : r ≡ ok left
  pub separated : IsSeparated 0 left
  pub same : (x : ℕ) → contains left x ≡ members x

-- `add` of a range that is not empty returns normally; the set that it leaves has the invariant,
-- and its members are the old ones and those of the range.
pub add_lem :
    (s : RangeSet) (start stop : ℕ)
    → IsSeparated 0 s
    → start < stop
    → Leaves (add s start stop) (λ x. in_range x (range start stop) || contains s x)
unfolding add
add_lem s start stop w h = record {
  left = add_loop s start stop;
  returns = rw (lt→ltb start stop h);
  separated = add_loop-IsSeparated s 0 start stop (omega arith) h w;
  same = λ x. contains-add_loop s 0 start stop x h w;
}

-- `subtract` of a range that is not empty returns normally; the set that it leaves has the
-- invariant, and its members are the old ones outside the range.
pub subtract_lem :
    (s : RangeSet) (start stop : ℕ)
    → IsSeparated 0 s
    → start < stop
    → Leaves (subtract s start stop) (λ x. contains s x && not (in_range x (range start stop)))
unfolding subtract
subtract_lem s start stop w h = record {
  left = subtract_loop s start stop;
  returns = rw (lt→ltb start stop h);
  separated = subtract_loop-IsSeparated s 0 start stop h w;
  same = λ x. contains-subtract_loop s 0 start stop x h w;
}

-- Two `add` calls leave the same list of ranges, or raise the same error, in either order.
add_comm :
    (s : RangeSet) (a b c d : ℕ)
    → IsSeparated 0 s
    → (add s a b >>= λ t. add t c d) ≡ (add s c d >>= λ t. add t a b)
unfolding add
add_comm s a b c d w = elim (Bool-cases (ltb a b)) [
  | inl h ↦ elim (Bool-cases (ltb c d)) [
    | inl k ↦ rw (h, k) (ap_ok (add_loop_comm s a b c d (ltb→lt a b h) (ltb→lt c d k) w))
    | inr k ↦ rw (h, k)
  ]
  | inr h ↦ elim (Bool-cases (ltb c d)) [ inl k ↦ rw (h, k) | inr k ↦ rw (h, k) ]
]
  where
    ap_ok : {t u : RangeSet} → t ≡ u → ok t ≡ ok u
    ap_ok e = cc

length-merge_following :
    (s : RangeSet) (start stop : ℕ) → length (merge_following s start stop) ≤ length s + 1
unfolding merge_following
length-merge_following [] start stop = omega arith
length-merge_following (r ∷ rs) start stop =
    ground (arith, length-merge_following rs start (max r.stop stop))

length-add_loop : (s : RangeSet) (start stop : ℕ) → length (add_loop s start stop) ≤ length s + 1
unfolding add_loop
length-add_loop [] start stop = omega arith
length-add_loop (r ∷ rs) start stop = ground (
  arith,
  length-add_loop rs start stop,
  length-merge_following rs (min start r.start) (max stop r.stop),
)

-- `add` makes a set one range longer at most.
pub len-add : (s t : RangeSet) (start stop : ℕ) → add s start stop ≡ ok t → len t ≤ len s + 1
unfolding add
len-add s t start stop e = ground (arith, length-add_loop s start stop)

-- `shift` takes the lowest range off a set with the invariant: the range is not empty, the set
-- that is left lies above it with a gap, and the members are shared out between the two.
pub shift_lem :
    (s t : RangeSet) (r : Range)
    → IsSeparated 0 s
    → shift s ≡ ok (r, t)
    → IsSeparated (suc r.stop) t
      × (r.start < r.stop)
      × ((x : ℕ) → contains s x ≡ (in_range x r || contains t x))
unfolding shift contains
shift_lem [] t r w e = cc
shift_lem (q ∷ qs) t r w e =
    let same : (q ≡ r) × (qs ≡ t) = ground arith in
    (subst₂ same.0 same.1 w.2, ground arith, λ x. ground arith)
  where
    subst₂ : q ≡ r → qs ≡ t → IsSeparated (suc q.stop) qs → IsSeparated (suc r.stop) t
    subst₂ e f = rw (e, f) (λ v. v)

last-stop-le :
    (r : Range) (rs : RangeSet)
    → r.start < r.stop
    → IsSeparated (suc r.stop) rs
    → r.stop ≤ (last r rs).stop
unfolding last
last-stop-le r [] h w = omega arith
last-stop-le r (q ∷ qs) h w = omega (arith, last-stop-le q qs w.1 w.2)

contains-last :
    (r : Range) (rs : RangeSet)
    → r.start < r.stop
    → IsSeparated (suc r.stop) rs
    → contains (r ∷ rs) ((last r rs).stop - 1) ≡ true
unfolding contains last
contains-last r [] h w = ground arith
contains-last r (q ∷ qs) h w = ground (arith, contains-last q qs w.1 w.2)

contains-above :
    (r : Range) (rs : RangeSet) (x : ℕ)
    → r.start < r.stop
    → IsSeparated (suc r.stop) rs
    → (last r rs).stop ≤ x
    → contains (r ∷ rs) x ≡ false
unfolding contains last
contains-above r [] x h w k = ground arith
contains-above r (q ∷ qs) x h w k =
    ground (arith, contains-above q qs x w.1 w.2 k, last-stop-le q qs w.1 w.2)

-- `bounds` of a set with the invariant is the smallest range around it: its first and its last
-- integer are members, and no other integer outside is one.
pub bounds_lem :
    (s : RangeSet) (b : Range)
    → IsSeparated 0 s
    → bounds s ≡ ok b
    → (contains s b.start ≡ true)
      × (contains s (b.stop - 1) ≡ true)
      × ((x : ℕ) → in_range x b ≡ false → contains s x ≡ false)
bounds_lem [] b w e = unfold bounds in cc
bounds_lem (r ∷ rs) b w e =
    let first : contains (r ∷ rs) r.start ≡ true = unfold contains in ground arith in
    let end = contains-last r rs w.1 w.2 in
    (
      ground (arith, first, ends),
      ground (arith, end, ends),
      λ x out. elim (Bool-cases (ltb x r.start)) [
        | inl h ↦ contains-below (r ∷ rs) r.start x (omega arith, w.1, w.2) (ltb→lt x r.start h)
        | inr h ↦ contains-above r rs x w.1 w.2 (ground (arith, ends))
      ],
    )
  where
    ends : b ≡ range r.start (last r rs).stop
    ends = unfold bounds in cc
