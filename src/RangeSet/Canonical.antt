-- ===== src/RangeSet/Canonical.antt =====
-- A RangeSet has one list of ranges for each set of integers, so `__eq__`, which compares the
-- lists, decides whether two sets have the same members.
use aioquic.Base.{ℕ, suc, ◌≤◌, ◌<◌, ◌≡◌, refl, sym, [], ◌∷◌, arith, true}
use aioquic.RangeSet.{Range, RangeSet, contains, add_loop}
use aioquic.RangeSet.Shape.{IsSeparated, add_loop-IsSeparated}
use aioquic.RangeSet.Members.{contains-below, contains-add_loop}

abbrev SameMembers : RangeSet → RangeSet → Type 0
SameMembers s t = (x : ℕ) → contains s x ≡ contains t x

contains-first : (r : Range) (rs : RangeSet) → r.start < r.stop → contains (r ∷ rs) r.start ≡ true
unfolding contains
contains-first r rs h = ground arith

-- The first range of one set starts no later than that of the other.
start_le :
    (r q : Range) (rs qs : RangeSet)
    → r.start < r.stop
    → IsSeparated q.start (q ∷ qs)
    → SameMembers (r ∷ rs) (q ∷ qs)
    → q.start ≤ r.start
start_le r q rs qs h w same =
    ground (arith, contains-first r rs h, same r.start, contains-below (q ∷ qs) q.start r.start w)

-- It ends no later either.
stop_le :
    (r q : Range) (rs qs : RangeSet)
    → r.start ≡ q.start
    → r.start < r.stop
    → IsSeparated (suc r.stop) rs
    → SameMembers (r ∷ rs) (q ∷ qs)
    → q.stop ≤ r.stop
unfolding contains
stop_le r q rs qs e h w same = ground (arith, same r.stop, contains-below rs (suc r.stop) r.stop w)

tail_same :
    (r q : Range) (rs qs : RangeSet) (x : ℕ)
    → r.start ≡ q.start
    → r.stop ≡ q.stop
    → IsSeparated (suc r.stop) rs
    → IsSeparated (suc q.stop) qs
    → contains (r ∷ rs) x ≡ contains (q ∷ qs) x
    → contains rs x ≡ contains qs x
unfolding contains
tail_same r q rs qs x e f w v same =
    ground (arith, contains-below rs (suc r.stop) x w, contains-below qs (suc q.stop) x v)

Range-eq : (r q : Range) → r.start ≡ q.start → r.stop ≡ q.stop → r ≡ q
Range-eq r q e f = λ i. record { start = e i; stop = f i }

-- Two sets with the invariant and the same members are the same list of ranges.
contains-injective :
    (s t : RangeSet) (lo : ℕ) → IsSeparated lo s → IsSeparated lo t → SameMembers s t → s ≡ t
contains-injective [] [] lo w v same = refl
contains-injective [] (q ∷ qs) lo w v same =
    unfold contains in cc (same q.start, contains-first q qs v.1)
contains-injective (r ∷ rs) [] lo w v same =
    unfold contains in cc (same r.start, contains-first r rs w.1)
contains-injective (r ∷ rs) (q ∷ qs) lo w v same =
    let back : SameMembers (q ∷ qs) (r ∷ rs) = λ x. sym (same x) in
    let le : q.start ≤ r.start = start_le r q rs qs w.1 (omega arith, v.1, v.2) same in
    let ge : r.start ≤ q.start = start_le q r qs rs v.1 (omega arith, w.1, w.2) back in
    let e : r.start ≡ q.start = omega arith in
    let f : q.stop ≤ r.stop = stop_le r q rs qs e w.1 w.2 same in
    let g : r.stop ≤ q.stop = stop_le q r qs rs (sym e) v.1 v.2 back in
    let k : r.stop ≡ q.stop = omega arith in
    let tails : rs ≡ qs =
      contains-injective rs qs (suc r.stop) w.2 (rw k v.2)
        (λ x. tail_same r q rs qs x e k w.2 v.2 (same x)) in
    λ i. Range-eq r q e k i ∷ tails i

-- Two ranges added to a set in either order leave the same list of ranges.
pub add_loop_comm :
    (s : RangeSet) (a b c d : ℕ)
    → a < b
    → c < d
    → IsSeparated 0 s
    → add_loop (add_loop s a b) c d ≡ add_loop (add_loop s c d) a b
add_loop_comm s a b c d h k w =
    let s1 = add_loop-IsSeparated s 0 a b (omega arith) h w in
    let s2 = add_loop-IsSeparated s 0 c d (omega arith) k w in
    contains-injective (add_loop (add_loop s a b) c d) (add_loop (add_loop s c d) a b) 0
      (add_loop-IsSeparated (add_loop s a b) 0 c d (omega arith) k s1)
      (add_loop-IsSeparated (add_loop s c d) 0 a b (omega arith) h s2)
      λ x. ground (
        arith,
        contains-add_loop (add_loop s a b) 0 c d x k s1,
        contains-add_loop (add_loop s c d) 0 a b x h s2,
        contains-add_loop s 0 a b x h w,
        contains-add_loop s 0 c d x k w,
      )
