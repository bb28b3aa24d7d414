-- ===== src/Stream/Receiver/Sizes.antt =====
-- The ranges and the final size of a QuicStreamReceiver (src/aioquic/quic/stream.py).
use aioquic.Base.{
  ℕ, ◌+◌, ◌-◌, ◌≤◌, ◌≡◌, refl, arith, true, ◌||◌, List, [], ◌∷◌, Option, some, none, ◌==◌, eq_some,
  Bool-cases, inl, inr, length, drop, length-drop, min, max,
}
use mathlib.Core.Path.{subst}
use aioquic.RangeSet.{RangeSet, add_loop, merge_following}
use aioquic.RangeSet.Shape.{IsSeparated}
use aioquic.Stream.Receiver.{QuicStreamReceiver, pull_front, pull_data, deliver}

-- All ranges end at `n` or below.
abbrev EndsBy : ℕ → RangeSet → Type 0
EndsBy n [] = Unit
EndsBy n (r ∷ rs) = (r.stop ≤ n) × EndsBy n rs

pub EndsBy-weaken : (s : RangeSet) (m n : ℕ) → m ≤ n → EndsBy m s → EndsBy n s
EndsBy-weaken [] m n h e = tt
EndsBy-weaken (r ∷ rs) m n h e = (omega arith, EndsBy-weaken rs m n h e.1)

merge_following-EndsBy :
    (s : RangeSet) (start stop n : ℕ)
    → EndsBy n s
    → stop ≤ n
    → EndsBy n (merge_following s start stop)
unfolding merge_following
merge_following-EndsBy [] start stop n e h = omega arith
merge_following-EndsBy (r ∷ rs) start stop n e h =
    ground (arith, merge_following-EndsBy rs start (max r.stop stop) n)

pub add_loop-EndsBy :
    (s : RangeSet) (start stop n : ℕ) → EndsBy n s → stop ≤ n → EndsBy n (add_loop s start stop)
unfolding add_loop
add_loop-EndsBy [] start stop n e h = omega arith
add_loop-EndsBy (r ∷ rs) start stop n e h = ground (
  arith,
  add_loop-EndsBy rs start stop n,
  merge_following-EndsBy rs (min start r.start) (max stop r.stop) n,
)

-- A known final size is not below what was received, and the buffer reaches up to it.
abbrev pub Fits : Option ℕ → ℕ → ℕ → Type 0
Fits none highest reach = Unit
Fits (some n) highest reach = (highest ≤ n) × (n ≤ reach)

-- The receiver before any reset. It is finished exactly when all bytes up to the final size were
-- handed over.
pub record IsSized (r : QuicStreamReceiver) : Type 0 where
  pub start : r.buffer_start ≤ r.highest_offset
  pub ends : EndsBy r.highest_offset r.ranges
  pub fits : Fits r.final_size r.highest_offset (r.buffer_start + length r.buffer)
  pub finished : r.is_finished ≡ eq_some r.final_size r.buffer_start

-- What `deliver` needs: `is_finished` may lag behind.
pub record MayFinish (r : QuicStreamReceiver) : Type 0 where
  pub start : r.buffer_start ≤ r.highest_offset
  pub ends : EndsBy r.highest_offset r.ranges
  pub fits : Fits r.final_size r.highest_offset (r.buffer_start + length r.buffer)
  pub finished : r.is_finished ≡ true → eq_some r.final_size r.buffer_start ≡ true

Fits-drop :
    (size : Option ℕ) (highest start : ℕ) (k : ℕ) (buffer : List ℕ)
    → Fits size highest (start + length buffer)
    → Fits size highest (start + k + length (drop k buffer))
Fits-drop none highest start k buffer f = tt
Fits-drop (some n) highest start k buffer f = omega (arith, length-drop k buffer)

pub deliver-IsSized :
    (r : QuicStreamReceiver)
    → MayFinish r
    → IsSeparated r.buffer_start r.ranges
    → IsSized (deliver r).1
unfolding deliver pull_data
deliver-IsSized r m w = go r.ranges refl w m.ends
  where
    stay :
        (eq_some r.final_size r.buffer_start || r.is_finished) ≡ eq_some r.final_size r.buffer_start
    stay = elim (Bool-cases r.is_finished) [
      | inl f ↦ ground (arith, m.finished f)
      | inr f ↦ ground arith
    ]

    move :
        (stop : ℕ)
        → r.buffer_start ≤ stop
        → stop ≤ r.highest_offset
        → (eq_some r.final_size stop || r.is_finished) ≡ eq_some r.final_size stop
    move stop a b = elim (Bool-cases r.is_finished) [
      | inl f ↦ ground (arith, m.finished f, m.fits)
      | inr f ↦ ground arith
    ]

    go :
        (s : RangeSet)
        → r.ranges ≡ s
        → IsSeparated r.buffer_start s
        → EndsBy r.highest_offset s
        → IsSized (record (pull_front s r).1 {
          is_finished =
              eq_some (pull_front s r).1.final_size (pull_front s r).1.buffer_start
              || (pull_front s r).1.is_finished;
        })
    go [] e w' n = record { start = m.start; ends = m.ends; fits = m.fits; finished = stay }
    go (q ∷ qs) e w' n = elim (Bool-cases (q.start == r.buffer_start)) [
      | inl h ↦
          let k : r.buffer_start + (q.stop - q.start) ≡ q.stop = ground arith in
          rw h (record {
            start = n.0;
            ends = n.1;
            fits =
                subst
                  (λ b.
                    Fits r.final_size r.highest_offset
                      (b + length (drop (q.stop - q.start) r.buffer)))
                  k
                  (Fits-drop r.final_size r.highest_offset r.buffer_start (q.stop - q.start)
                    r.buffer m.fits);
            finished = move q.stop (omega arith) n.0;
          })
      | inr h ↦ rw h (record { start = m.start; ends = m.ends; fits = m.fits; finished = stay })
    ]
