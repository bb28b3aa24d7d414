-- ===== src/RangeSet/Examples.antt =====
-- Runs of RangeSet, after tests/test_rangeset.py, and the theorems at concrete sets.
use aioquic.Base.{◌≡◌, refl, [], ◌∷◌, arith, ◌||◌, ◌&&◌, not}
use aioquic.Base.Exception.{ok, raise, assertion_error, index_error}
use aioquic.RangeSet.{
  RangeSet, range, in_range, contains, add, add_loop, merge_following, subtract, subtract_loop,
  shift, bounds, last,
}
use aioquic.RangeSet.Laws.{Leaves, add_lem, subtract_lem}

abbrev pub three : RangeSet
three = range 0 10 ∷ range 20 30 ∷ range 40 50 ∷ []

add_between : add three 12 18 ≡ ok (range 0 10 ∷ range 12 18 ∷ range 20 30 ∷ range 40 50 ∷ [])
unfolding add add_loop
add_between = refl

add_over_all : add three 5 45 ≡ ok (range 0 50 ∷ [])
unfolding add add_loop merge_following
add_over_all = refl

add_touching : add (range 0 10 ∷ range 20 30 ∷ []) 10 20 ≡ ok (range 0 30 ∷ [])
unfolding add add_loop merge_following
add_touching = refl

add_empty : add three 5 5 ≡ raise assertion_error
unfolding add
add_empty = refl

subtract_split : subtract (range 0 10 ∷ []) 2 5 ≡ ok (range 0 2 ∷ range 5 10 ∷ [])
unfolding subtract subtract_loop
subtract_split = refl

subtract_several : subtract three 5 45 ≡ ok (range 0 5 ∷ range 45 50 ∷ [])
unfolding subtract subtract_loop
subtract_several = refl

bounds_empty : bounds [] ≡ raise index_error
unfolding bounds
bounds_empty = refl

add_lem_example : Leaves (add three 12 18) (λ x. in_range x (range 12 18) || contains three x)
add_lem_example = add_lem three 12 18 (omega arith) (omega arith)

subtract_lem_example :
    Leaves (subtract three 5 45) (λ x. contains three x && not (in_range x (range 5 45)))
subtract_lem_example = subtract_lem three 5 45 (omega arith) (omega arith)

shift-three : shift three ≡ ok (range 0 10, range 20 30 ∷ range 40 50 ∷ [])
unfolding shift
shift-three = refl

bounds-three : bounds three ≡ ok (range 0 50)
unfolding bounds last
bounds-three = refl
