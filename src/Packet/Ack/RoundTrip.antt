-- ===== src/Packet/Ack/RoundTrip.antt =====
-- The round trip of ACK frames (`push_ack_frame` and `pull_ack_frame` of
-- src/aioquic/quic/packet.py).
use aioquic.Base.{
  ℕ, suc, ◌+◌, ◌-◌, ◌≤◌, ◌<◌, ◌^◌, ◌≡◌, refl, ap, ◌∙◌, arith, true, List, [], ◌∷◌, ◌++◌, ltb, leb,
  some, length, drop,
}
use mathlib.Core.Path.{subst}
use aioquic.Base.Exception.{ok, raise, ◌>>=◌}
use aioquic.RangeSet.{Range, RangeSet, add, add_loop, get_item, len}
use aioquic.RangeSet.Shape.{IsSeparated}
use aioquic.Buffer.{Buffer, pull_uint_var, push_uint_var, put, written}
use aioquic.Buffer.Codes.{Writes, Writes-then, written-put}
use aioquic.Buffer.Pulls.{Pulls, Pulls-then}
use aioquic.Buffer.Varint.{Fits, uint_var, pull_uint_var_lem, push_uint_var_lem}
use aioquic.Packet.Ack.{acks, add_range, pull_ranges, pull_ack_frame, push_ranges, push_ack_frame}
use aioquic.Packet.Ack.Ranges.{
  get_item-At, range_bytes, drop-IsSeparated, AllFit, drop-AllFit, pull_ranges_lem, push_ranges_lem,
}

-- There are no more ranges than packet numbers.
length-AllFit :
    (r : Range) (s : RangeSet) (lo : ℕ)
    → IsSeparated lo (r ∷ s)
    → AllFit (r ∷ s)
    → lo + length (r ∷ s) ≤ 2 ^ 62
length-AllFit r [] lo w f = omega (arith, w, f)
length-AllFit r (q ∷ s) lo w f = omega (arith, w, f, length-AllFit q s (suc r.stop) w.2 f.1)

drop-length {ℓ} : {A : Type ℓ} (s : List A) → drop (length s) s ≡ []
drop-length [] = refl
drop-length (x ∷ s) = drop-length s

-- The last range of a set that is not empty.
record Top (s : RangeSet) : Type 0 where
  r : Range
  item : get_item s (len s - 1) ≡ ok r
  alone : drop (len s - 1) s ≡ r ∷ []
  filled : r.start < r.stop
  fits : r.stop ≤ 2 ^ 62
  few : len s ≤ 2 ^ 62

top : (s : RangeSet) → IsSeparated 0 s → AllFit s → 0 < len s → Top s
top [] w f h = absurd (omega arith)
top (q ∷ s) w f h =
    let a = get_item-At (q ∷ s) (length s) (omega arith) in
    let index : len (q ∷ s) - 1 ≡ length s = omega arith in
    let alone : drop (length s) (q ∷ s) ≡ a.r ∷ [] = a.split ∙ ap (λ t. a.r ∷ t) (drop-length s) in
    let seps = subst (IsSeparated 0) a.split (drop-IsSeparated (q ∷ s) 0 (length s) w) in
    let fits = subst AllFit a.split (drop-AllFit (q ∷ s) (length s) f) in
    record {
      r = a.r;
      item = rw index a.item;
      alone = rw index alone;
      filled = seps.1;
      fits = fits.0;
      few = omega (arith, length-AllFit q s 0 w f);
    }

-- The bytes of an ACK frame.
unfoldable pub ack_bytes : RangeSet → ℕ → List ℕ
ack_bytes s delay = elim (get_item s (len s - 1)) [
  | raise e ↦ []
  | ok r ↦
      uint_var (r.stop - 1)
      ++ (uint_var delay
          ++ (uint_var (len s - 1)
              ++ (uint_var (r.stop - 1 - r.start) ++ range_bytes s (len s - 1) r.start)))
]

first_range_lem :
    (s : RangeSet) (t : Top s)
    → add_range [] (t.r.stop - 1) (t.r.stop - 1 - t.r.start)
      ≡ ok (some (drop (len s - 1) s, t.r.start))
unfolding add_range add add_loop
first_range_lem s t =
    let some_left : leb (t.r.stop - 1 - t.r.start) (t.r.stop - 1) ≡ true = ground arith in
    let start : t.r.stop - 1 - (t.r.stop - 1 - t.r.start) ≡ t.r.start = omega (arith, t.filled) in
    let stop : t.r.stop - 1 + 1 ≡ t.r.stop = omega (arith, t.filled) in
    let filled : ltb t.r.start t.r.stop ≡ true = ground (arith, t.filled) in
    rw (some_left, start, stop, filled, t.alone) refl

pull_ack_frame_lem :
    (s : RangeSet) (delay : ℕ)
    → IsSeparated 0 s
    → AllFit s
    → 0 < len s
    → Fits delay
    → Pulls pull_ack_frame (ack_bytes s delay) (acks s delay)
unfolding pull_ack_frame ack_bytes
pull_ack_frame_lem s delay w f h d =
    let t = top s w f h in
    let end = t.r.stop - 1 in
    let index = len s - 1 in
    let count = t.r.stop - 1 - t.r.start in
    rw (ack_bytes, t.item)
      (Pulls-then pull_uint_var
        (λ end b. do
          (delay, b) ← pull_uint_var b
          (n, b) ← pull_uint_var b
          (count, b) ← pull_uint_var b
          first ← add_range [] end count
          pull_ranges b delay n first)
        (uint_var end) _ end (acks s delay) (pull_uint_var_lem end (omega (arith, t.fits)))
        (Pulls-then pull_uint_var
          (λ delay b. do
            (n, b) ← pull_uint_var b
            (count, b) ← pull_uint_var b
            first ← add_range [] end count
            pull_ranges b delay n first)
          (uint_var delay) _ delay (acks s delay) (pull_uint_var_lem delay d)
          (Pulls-then pull_uint_var
            (λ n b. do
              (count, b) ← pull_uint_var b
              first ← add_range [] end count
              pull_ranges b delay n first)
            (uint_var index) _ index (acks s delay)
            (pull_uint_var_lem index (omega (arith, t.few, h)))
            (Pulls-then pull_uint_var
              (λ count b. do first ← add_range [] end count; pull_ranges b delay index first)
              (uint_var count) _ count (acks s delay)
              (pull_uint_var_lem count (omega (arith, t.fits, t.filled)))
              (λ b after j x.
                rw (first_range_lem s t)
                  (pull_ranges_lem s index delay t.r w f (omega (arith, h)) t.item b after j x))))))

push_ack_frame_lem :
    (s : RangeSet) (delay : ℕ)
    → IsSeparated 0 s
    → AllFit s
    → 0 < len s
    → Fits delay
    → Writes (λ b. push_ack_frame b s delay) (ack_bytes s delay) (λ b. (len s, b))
unfolding push_ack_frame ack_bytes
push_ack_frame_lem s delay w f h d =
    let t = top s w f h in
    let end = t.r.stop - 1 in
    let index = len s - 1 in
    let count = t.r.stop - 1 - t.r.start in
    let out : Buffer → ℕ × Buffer = λ b. (len s, b) in
    rw (ack_bytes, push_ack_frame, t.item)
      (Writes-then (λ b. push_uint_var b end)
        (λ b. do
          b ← push_uint_var b delay
          b ← push_uint_var b index
          b ← push_uint_var b count
          b ← push_ranges b s index t.r.start
          ok (len s, b))
        (uint_var end) _ out (push_uint_var_lem end (omega (arith, t.fits)))
        (Writes-then (λ b. push_uint_var b delay)
          (λ b. do
            b ← push_uint_var b index
            b ← push_uint_var b count
            b ← push_ranges b s index t.r.start
            ok (len s, b))
          (uint_var delay) _ out (push_uint_var_lem delay d)
          (Writes-then (λ b. push_uint_var b index)
            (λ b. do b ← push_uint_var b count; b ← push_ranges b s index t.r.start; ok (len s, b))
            (uint_var index) _ out (push_uint_var_lem index (omega (arith, t.few, h)))
            (Writes-then (λ b. push_uint_var b count)
              (λ b. do b ← push_ranges b s index t.r.start; ok (len s, b)) (uint_var count) _ out
              (push_uint_var_lem count (omega (arith, t.fits, t.filled)))
              (λ b room.
                rw (push_ranges_lem s index t.r w f (omega (arith, h)) t.item b room) refl)))))

-- A set of packet numbers below 2^62 that is not empty is written as an ACK frame where there is
-- room for it, `len` says how many ranges were written, and the frame is read back as the same set
-- and the same delay, wherever its bytes stand.
pub ack_frame_lem :
    (s : RangeSet) (delay : ℕ) (b : Buffer)
    → IsSeparated 0 s
    → AllFit s
    → 0 < len s
    → Fits delay
    → b.pos + length (ack_bytes s delay) ≤ length b.memory
    → (b' : Buffer) × (push_ack_frame b s delay ≡ ok (len s, b'))
      × (written b' ≡ written b ++ ack_bytes s delay)
      × Pulls pull_ack_frame (ack_bytes s delay) (acks s delay)
ack_frame_lem s delay b w f h d room = (
  put b (ack_bytes s delay),
  push_ack_frame_lem s delay w f h d b room,
  written-put b (ack_bytes s delay) room,
  pull_ack_frame_lem s delay w f h d,
)
