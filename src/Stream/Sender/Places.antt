-- ===== src/Stream/Sender/Places.antt =====
-- Where each written byte is: waiting to be sent, in flight, or acknowledged.
use aioquic.Base.{
  ℕ, suc, ◌+◌, ◌-◌, ◌≤◌, ◌<◌, ◌≡◌, refl, ◌∙◌, arith, Bool, true, false, ◌||◌, ◌&&◌, List, [], ◌∷◌,
  ◌++◌, Option, none, some, length, ltb, is_none, Bool-cases, inl, inr, lt→ltb,
}
use mathlib.Core.Path.{ap₂}
use aioquic.Base.Exception.{Result, ok, raise}
use aioquic.Base.Slices.{segment, segment-append}
use aioquic.RangeSet.{RangeSet, range, in_range, contains, add_loop, subtract_loop, add, subtract}
use aioquic.RangeSet.Shape.{IsSeparated, add_loop-IsSeparated}
use aioquic.RangeSet.Members.{contains-add_loop}
use aioquic.Stream.{QuicStreamFrame}
use aioquic.Stream.Sender.{QuicStreamSender, write, write_bytes, write_end}
use aioquic.Stream.Sender.System.{Flight, flight_of}

abbrev pub count : Bool → ℕ
count true = 1
count false = 0

abbrev pub in_flight_at : List Flight → ℕ → ℕ
in_flight_at [] x = 0
in_flight_at (f ∷ fs) x = count (in_range x (range f.start f.stop)) + in_flight_at fs x

-- The number of places where the byte at offset `x` is.
abbrev pub places : QuicStreamSender → List Flight → ℕ → ℕ
places s fs x =
    count (contains s.pending x)
    + in_flight_at fs x
    + count (ltb x s.buffer_start || contains s.acked_ranges x)

-- A known end of the stream is the end of what was written.
abbrev pub EndsAt : Option ℕ → ℕ → Type 0
EndsAt none stop = Unit
EndsAt (some fin) stop = fin ≡ stop

-- A sender that was not reset. Each byte below `buffer_stop` is in one place, and no other offset
-- is in any; the buffer holds the content that is not acknowledged up to `buffer_start`.
pub record IsPlaced (content : ℕ → ℕ) (s : QuicStreamSender) (fs : List Flight) : Type 0 where
  pub open_still : s.reset_error_code ≡ none
  pub pending : IsSeparated 0 s.pending
  pub acked : IsSeparated (suc s.buffer_start) s.acked_ranges
  pub one : (x : ℕ) → places s fs x ≡ count (ltb x s.buffer_stop)
  pub start : s.buffer_start ≤ s.buffer_stop
  pub fin : EndsAt s.buffer_fin s.buffer_stop
  pub eof : (s.pending_eof && is_none s.buffer_fin) ≡ false
  pub bytes : s.buffer ≡ segment content s.buffer_start (s.buffer_stop - s.buffer_start)

pub in_flight_at-append :
    (fs gs : List Flight) (x : ℕ)
    → in_flight_at (fs ++ gs) x ≡ in_flight_at fs x + in_flight_at gs x
in_flight_at-append [] gs x = omega arith
in_flight_at-append (f ∷ fs) gs x = omega (arith, in_flight_at-append fs gs x)

-- The flights after a call of `get_frame`.
abbrev pub launched : Result (Option QuicStreamFrame) → List Flight → List Flight
launched (raise e) fs = fs
launched (ok none) fs = fs
launched (ok (some frame)) fs = flight_of frame ∷ fs

pub add_ok :
    (s : RangeSet) (start stop : ℕ) → start < stop → add s start stop ≡ ok (add_loop s start stop)
unfolding add
add_ok s start stop h = rw (lt→ltb start stop h)

pub subtract_ok :
    (s : RangeSet) (start stop : ℕ)
    → start < stop
    → subtract s start stop ≡ ok (subtract_loop s start stop)
unfolding subtract
subtract_ok s start stop h = rw (lt→ltb start stop h)

buffer-append :
    (c : ℕ → ℕ) (buffer bytes : List ℕ) (start stop : ℕ)
    → start ≤ stop
    → buffer ≡ segment c start (stop - start)
    → bytes ≡ segment c stop (length bytes)
    → buffer ++ bytes ≡ segment c start (stop + length bytes - start)
buffer-append c buffer bytes start stop h e f =
    let at : start + (stop - start) ≡ stop = omega arith in
    let size : (stop - start) + length bytes ≡ stop + length bytes - start = omega arith in
    ap₂ (λ s t. s ++ t) e f
    ∙ rw (at, size) at (segment-append c start (stop - start) (length bytes))

module _ (c : ℕ → ℕ) where
  write_bytes-IsPlaced :
      (s : QuicStreamSender) (fs : List Flight) (bytes : List ℕ)
      → bytes ≡ segment c s.buffer_stop (length bytes)
      → is_none s.buffer_fin ≡ true
      → IsPlaced c s fs
      → IsPlaced c (write_bytes s bytes).1 fs
  write_bytes-IsPlaced s fs [] e o p = p
  write_bytes-IsPlaced s fs (x ∷ xs) e o p =
      let stop = s.buffer_stop + length (x ∷ xs) in
      let wider : s.buffer_stop < stop = omega arith in
      rw (add_ok s.pending s.buffer_stop stop wider) (record {
        open_still = p.open_still;
        pending = add_loop-IsSeparated s.pending 0 s.buffer_stop stop (omega arith) wider p.pending;
        acked = p.acked;
        one = λ y.
            ground
              (arith, p.one y, contains-add_loop s.pending 0 s.buffer_stop stop y wider p.pending);
        start = omega (arith, p.start);
        fin = ground arith;
        eof = p.eof;
        bytes = buffer-append c s.buffer (x ∷ xs) s.buffer_start s.buffer_stop p.start p.bytes e;
      })

  write_end-IsPlaced :
      (out : Result (Unit {0}) × QuicStreamSender) (fs : List Flight) (e : Bool)
      → IsPlaced c out.1 fs
      → IsPlaced c (write_end out e).1 fs
  write_end-IsPlaced (raise x, s) fs e p = p
  write_end-IsPlaced (ok u, s) fs false p = p
  write_end-IsPlaced (ok u, s) fs true p = record {
    open_still = p.open_still;
    pending = p.pending;
    acked = p.acked;
    one = p.one;
    start = p.start;
    fin = refl;
    eof = refl;
    bytes = p.bytes;
  }

  pub write-IsPlaced :
      (s : QuicStreamSender) (fs : List Flight) (bytes : List ℕ) (e : Bool)
      → bytes ≡ segment c s.buffer_stop (length bytes)
      → IsPlaced c s fs
      → IsPlaced c (write s bytes e).1 fs
  unfolding write
  write-IsPlaced s fs bytes e eb p =
      elim (Bool-cases (is_none s.buffer_fin && is_none s.reset_error_code)) [
        | inl h ↦ rw h (
            write_end-IsPlaced (write_bytes s bytes) fs e
              (write_bytes-IsPlaced s fs bytes eb (ground arith) p))
        | inr h ↦ rw h p
      ]
