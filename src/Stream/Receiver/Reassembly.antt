-- ===== src/Stream/Receiver/Reassembly.antt =====
-- What QuicStreamReceiver delivers, against the content of the stream that the peer sends.
use aioquic.Base.{
  ℕ, suc, ◌+◌, ◌-◌, ◌≤◌, ◌<◌, ◌≡◌, refl, sym, ap, arith, Bool, true, ◌||◌, List, [], ◌∷◌, some, ltb,
  ◌==◌, Bool-cases, inl, inr, get_elem?, take, drop,
}
use mathlib.Core.Path.{subst}
use aioquic.Base.Slices.{segment, get_elem?-drop, take-eq-segment}
use aioquic.RangeSet.{Range, RangeSet, contains}
use aioquic.RangeSet.Shape.{IsSeparated}
use aioquic.RangeSet.Members.{contains-below}
use aioquic.Stream.Receiver.{QuicStreamReceiver, pull_front}

-- The bytes at the received offsets are in the buffer.
abbrev pub IsStored : (ℕ → ℕ) → RangeSet → List ℕ → ℕ → Type 0
IsStored content ranges buffer start =
    (x : ℕ) → contains ranges x ≡ true → get_elem? buffer (x - start) ≡ some (content x)

-- The offsets that were received: delivered, or in a range.
abbrev pub received : QuicStreamReceiver → ℕ → Bool
received r x = ltb x r.buffer_start || contains r.ranges x

-- The receiver between two calls: the offset `buffer_start` is missing.
pub record Holds (content : ℕ → ℕ) (r : QuicStreamReceiver) : Type 0 where
  pub separated : IsSeparated (suc r.buffer_start) r.ranges
  pub stored : IsStored content r.ranges r.buffer r.buffer_start

-- `_pull_data` returns the content from the old to the new start of the buffer.
pub record Pulled (content : ℕ → ℕ) (r : QuicStreamReceiver) (bytes : List ℕ)
    (r' : QuicStreamReceiver) : Type 0 where
  pub holds : Holds content r'
  pub forward : r.buffer_start ≤ r'.buffer_start
  pub delivered : bytes ≡ segment content r.buffer_start (r'.buffer_start - r.buffer_start)
  pub same : (x : ℕ) → received r' x ≡ received r x

front_bytes :
    (c : ℕ → ℕ) (q : Range) (qs : RangeSet) (buffer : List ℕ)
    → q.start < q.stop
    → IsStored c (q ∷ qs) buffer q.start
    → take (q.stop - q.start) buffer ≡ segment c q.start (q.stop - q.start)
unfolding contains
front_bytes c q qs buffer h stored =
    take-eq-segment c q.start (q.stop - q.start) buffer λ i k. ground (arith, stored (q.start + i))

rest-IsStored :
    (c : ℕ → ℕ) (q : Range) (qs : RangeSet) (buffer : List ℕ)
    → q.start < q.stop
    → IsSeparated (suc q.stop) qs
    → IsStored c (q ∷ qs) buffer q.start
    → IsStored c qs (drop (q.stop - q.start) buffer) q.stop
unfolding contains
rest-IsStored c q qs buffer h w stored x m = ground (
  arith,
  contains-below qs (suc q.stop) x w,
  stored x,
  get_elem?-drop (q.stop - q.start) buffer (x - q.stop),
)

pub pull_front_lem :
    (c : ℕ → ℕ) (s : RangeSet) (r : QuicStreamReceiver)
    → r.ranges ≡ s
    → IsSeparated r.buffer_start s
    → IsStored c s r.buffer r.buffer_start
    → Pulled c r (pull_front s r).0 (pull_front s r).1
pull_front_lem c [] r e w stored = record {
  holds = record {
    separated = subst (IsSeparated (suc r.buffer_start)) (sym e) tt;
    stored = subst (λ s. IsStored c s r.buffer r.buffer_start) (sym e) stored;
  };
  forward = omega arith;
  delivered = unfold segment in ground arith;
  same = λ x. refl;
}
pull_front_lem c (q ∷ qs) r e w stored = elim (Bool-cases (q.start == r.buffer_start)) [
  | inl h ↦
      let eq : r.buffer_start ≡ q.start = ground arith in
      let at_start : IsStored c (q ∷ qs) r.buffer q.start =
        subst (IsStored c (q ∷ qs) r.buffer) eq stored in
      rw h (record {
        holds = record { separated = w.2; stored = rest-IsStored c q qs r.buffer w.1 w.2 at_start };
        forward = omega arith;
        delivered = rw eq (front_bytes c q qs r.buffer w.1 at_start);
        same = λ x.
            unfold contains in
            ground (arith, ap (λ s. contains s x) e, contains-below qs (suc q.stop) x w.2);
      })
  | inr h ↦ rw h (record {
    holds = record {
      separated = subst (IsSeparated (suc r.buffer_start)) (sym e) (ground arith, w.1, w.2);
      stored = subst (λ s. IsStored c s r.buffer r.buffer_start) (sym e) stored;
    };
    forward = omega arith;
    delivered = unfold segment in ground arith;
    same = λ x. refl;
  })
]
