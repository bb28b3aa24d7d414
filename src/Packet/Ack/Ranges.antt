-- ===== src/Packet/Ack/Ranges.antt =====
-- The ranges of an ACK frame: their bytes, written and read (src/aioquic/quic/packet.py).
use aioquic.Base.{
  ℕ, zero, suc, ◌+◌, ◌-◌, ◌≤◌, ◌<◌, ◌^◌, ◌≡◌, refl, sym, ap, ◌∙◌, arith, true, List, [], ◌∷◌, ◌++◌,
  leb, some, length, drop,
}
use mathlib.Core.Path.{subst}
use aioquic.Base.Exception.{ok, raise, ◌>>=◌}
use aioquic.RangeSet.{Range, RangeSet, add, add_loop, get_item}
use aioquic.RangeSet.Shape.{IsSeparated, IsSeparated-weaken}
use aioquic.Buffer.{pull_uint_var, push_uint_var}
use aioquic.Buffer.Codes.{Pushes-then, put-nil}
use aioquic.Buffer.Pulls.{Pulls, Pushes, Pulls-then}
use aioquic.Buffer.Varint.{uint_var, pull_uint_var_lem, push_uint_var_lem}
use aioquic.Packet.Ack.{acks, add_range, next_range, pull_ranges, push_ranges}

-- The range at an index that is in range, and what the set is from there on.
pub record At (s : RangeSet) (i : ℕ) : Type 0 where
  pub r : Range
  pub item : get_item s i ≡ ok r
  pub split : drop i s ≡ r ∷ drop (suc i) s

pub get_item-At : (s : RangeSet) (i : ℕ) → i < length s → At s i
unfolding get_item
get_item-At [] i h = absurd (omega arith)
get_item-At (q ∷ s) zero h = record { r = q; item = refl; split = refl }
get_item-At (q ∷ s) (suc i) h =
    let a = get_item-At s i (omega arith) in record { r = a.r; item = a.item; split = a.split }

-- The bytes of the ranges below an index, in decreasing order.
unfoldable pub range_bytes : RangeSet → ℕ → ℕ → List ℕ
range_bytes s zero start = []
range_bytes s (suc i) start = elim (get_item s i) [
  | raise e ↦ []
  | ok r ↦
      uint_var (start - r.stop - 1) ++ (uint_var (r.stop - r.start - 1) ++ range_bytes s i r.start)
]

pub drop-IsSeparated : (s : RangeSet) (lo i : ℕ) → IsSeparated lo s → IsSeparated 0 (drop i s)
drop-IsSeparated s lo zero w = IsSeparated-weaken s (omega arith) w
drop-IsSeparated [] lo (suc i) w = tt
drop-IsSeparated (r ∷ s) lo (suc i) w = drop-IsSeparated s (suc r.stop) i w.2

-- The packet numbers are below 2^62.
abbrev pub AllFit : RangeSet → Type 0
AllFit [] = Unit
AllFit (r ∷ s) = (r.stop ≤ 2 ^ 62) × AllFit s

pub drop-AllFit : (s : RangeSet) (i : ℕ) → AllFit s → AllFit (drop i s)
drop-AllFit s zero f = f
drop-AllFit [] (suc i) f = tt
drop-AllFit (r ∷ s) (suc i) f = drop-AllFit s i f.1

-- A range below all others becomes the first.
add-front :
    (r q : Range) (s : RangeSet)
    → r.start < r.stop
    → r.stop < q.start
    → add (q ∷ s) r.start r.stop ≡ ok (r ∷ q ∷ s)
unfolding add add_loop
add-front r q s h k = ground arith

-- A range of a set, and the one below it.
record Neighbours (s : RangeSet) (i : ℕ) (r : Range) : Type 0 where
  pub q : Range
  pub item : get_item s i ≡ ok q
  pub split : drop i s ≡ q ∷ drop (suc i) s
  pub filled : q.start < q.stop
  pub apart : q.stop < r.start
  pub fits : r.start ≤ 2 ^ 62
  pub added : add (drop (suc i) s) q.start q.stop ≡ ok (drop i s)

neighbours :
    (s : RangeSet) (i : ℕ) (r : Range)
    → IsSeparated 0 s
    → AllFit s
    → suc i < length s
    → get_item s (suc i) ≡ ok r
    → Neighbours s i r
neighbours s i r w f h e =
    let a = get_item-At s i (omega arith) in
    let c = get_item-At s (suc i) h in
    let same : c.r ≡ r = ground (arith, c.item) in
    let split : drop (suc i) s ≡ r ∷ drop (suc (suc i)) s =
      c.split ∙ ap (λ t. t ∷ drop (suc (suc i)) s) same in
    let both : drop i s ≡ a.r ∷ r ∷ drop (suc (suc i)) s = a.split ∙ ap (λ t. a.r ∷ t) split in
    let seps = subst (IsSeparated 0) both (drop-IsSeparated s 0 i w) in
    let fits = subst AllFit both (drop-AllFit s i f) in
    record {
      q = a.r;
      item = a.item;
      split = a.split;
      filled = seps.1;
      apart = seps.2.0;
      fits = omega arith;
      added = rw split (add-front a.r r (drop (suc (suc i)) s) seps.1 seps.2.0) ∙ ap ok (sym both);
    }

next_range_lem :
    (s : RangeSet) (i : ℕ) (r : Range) (n : Neighbours s i r)
    → next_range (drop (suc i) s) r.start (r.start - n.q.stop - 1) (n.q.stop - n.q.start - 1)
      ≡ ok (some (drop i s, n.q.start))
unfolding next_range add_range
next_range_lem s i r n =
    let enough : leb (r.start - n.q.stop - 1 + 2) r.start ≡ true =
      ground (arith, n.apart, n.filled) in
    let end : r.start - (r.start - n.q.stop - 1 + 2) ≡ n.q.stop - 1 =
      omega (arith, n.apart, n.filled) in
    let some_left : leb (n.q.stop - n.q.start - 1) (n.q.stop - 1) ≡ true =
      ground (arith, n.filled) in
    let start : n.q.stop - 1 - (n.q.stop - n.q.start - 1) ≡ n.q.start = omega (arith, n.filled) in
    let stop : n.q.stop - 1 + 1 ≡ n.q.stop = omega (arith, n.filled) in
    rw (enough, end, some_left, start, stop, n.added) refl

pub pull_ranges_lem :
    (s : RangeSet) (i delay : ℕ) (r : Range)
    → IsSeparated 0 s
    → AllFit s
    → i < length s
    → get_item s i ≡ ok r
    → Pulls
        (λ b. pull_ranges b delay i (some (drop i s, r.start)))
        (range_bytes s i r.start)
        (acks s delay)
unfolding pull_ranges range_bytes
pull_ranges_lem s zero delay r w f h e =
    λ b after j x. ap (λ n. ok (acks s delay, record b { pos = n })) (omega arith)
pull_ranges_lem s (suc i) delay r w f h e =
    let n = neighbours s i r w f h e in
    rw (range_bytes, n.item)
      (Pulls-then pull_uint_var
        (λ gap b. pull_uint_var b >>= λ (ack_count, b').
          (next_range (drop (suc i) s) r.start gap ack_count >>= λ next.
          pull_ranges b' delay i next))
        (uint_var (r.start - n.q.stop - 1)) _ (r.start - n.q.stop - 1) (acks s delay)
        (pull_uint_var_lem (r.start - n.q.stop - 1) (omega (arith, n.fits)))
        (Pulls-then pull_uint_var
          (λ ack_count b.
            next_range (drop (suc i) s) r.start (r.start - n.q.stop - 1) ack_count >>= λ next.
            pull_ranges b delay i next)
          (uint_var (n.q.stop - n.q.start - 1)) _ (n.q.stop - n.q.start - 1) (acks s delay)
          (pull_uint_var_lem (n.q.stop - n.q.start - 1) (omega (arith, n.fits, n.apart)))
          (λ b after j x.
            rw (next_range_lem s i r n)
              (pull_ranges_lem s i delay n.q w f (omega arith) n.item b after j x))))

pub push_ranges_lem :
    (s : RangeSet) (i : ℕ) (r : Range)
    → IsSeparated 0 s
    → AllFit s
    → i < length s
    → get_item s i ≡ ok r
    → Pushes (λ b. push_ranges b s i r.start) (range_bytes s i r.start)
unfolding push_ranges range_bytes
push_ranges_lem s zero r w f h e = λ b room. ap ok (sym (put-nil b))
push_ranges_lem s (suc i) r w f h e =
    let n = neighbours s i r w f h e in
    rw (range_bytes, push_ranges, n.item)
      (Pushes-then (λ b. push_uint_var b (r.start - n.q.stop - 1))
        (λ b. push_uint_var b (n.q.stop - n.q.start - 1) >>= λ b'. push_ranges b' s i n.q.start)
        (uint_var (r.start - n.q.stop - 1)) _
        (push_uint_var_lem (r.start - n.q.stop - 1) (omega (arith, n.fits)))
        (Pushes-then (λ b. push_uint_var b (n.q.stop - n.q.start - 1))
          (λ b. push_ranges b s i n.q.start) (uint_var (n.q.stop - n.q.start - 1)) _
          (push_uint_var_lem (n.q.stop - n.q.start - 1) (omega (arith, n.fits, n.apart)))
          (push_ranges_lem s i n.q w f (omega arith) n.item)))
