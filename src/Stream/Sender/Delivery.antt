-- ===== src/Stream/Sender/Delivery.antt =====
-- `on_data_delivery` of QuicStreamSender: an acknowledged or a lost frame moves its bytes on, and
-- over any run of the system each written byte is in one place.
use aioquic.Base.{
  ℕ, suc, ◌+◌, ◌-◌, ◌≤◌, ◌<◌, ◌≡◌, sym, ap, ◌∙◌, arith, Bool, false, not, ◌||◌, ◌&&◌, List, [], ◌∷◌,
  ◌++◌, drop, ltb, ltb→lt, eq_some, is_none, Bool-cases, inl, inr, if◌then◌else◌, ◌==◌,
}
use mathlib.Core.Path.{subst}
use aioquic.Base.Exception.{ok}
use aioquic.Base.Slices.{segment, drop-segment}
use aioquic.RangeSet.{RangeSet, range, in_range, contains, add_loop}
use aioquic.RangeSet.Shape.{IsSeparated, IsSeparated-weaken, add_loop-IsSeparated}
use aioquic.RangeSet.Members.{contains-below, contains-add_loop}
use aioquic.Stream.{QuicDeliveryState, acked, lost}
use aioquic.Stream.Sender.{QuicStreamSender, on_data_delivery, deliver_data, discard, finish_acked}
use aioquic.Stream.Sender.System.{Flight}
use aioquic.Stream.Sender.Places.{count, in_flight_at, in_flight_at-append, IsPlaced, add_ok}

finish-IsPlaced :
    (c : ℕ → ℕ) (s : QuicStreamSender) (fs : List Flight) (fin : Bool)
    → IsPlaced c s fs
    → IsPlaced c (finish_acked s fin) fs
finish-IsPlaced c s fs fin p = record {
  open_still = p.open_still;
  pending = p.pending;
  acked = p.acked;
  one = p.one;
  start = p.start;
  fin = p.fin;
  eof = p.eof;
  bytes = p.bytes;
}

-- The acknowledged ranges may touch the start of the buffer before `discard`.
discard-IsPlaced :
    (c : ℕ → ℕ) (s : QuicStreamSender) (gs fs : List Flight) (ranges : RangeSet)
    → IsPlaced c s gs
    → IsSeparated s.buffer_start ranges
    → ((x : ℕ)
        → count (contains s.pending x)
            + in_flight_at fs x
            + count (ltb x s.buffer_start || contains ranges x)
          ≡ count (ltb x s.buffer_stop))
    → IsPlaced c (discard ranges s) fs
discard-IsPlaced c s gs fs [] p w one = record {
  open_still = p.open_still;
  pending = p.pending;
  acked = tt;
  one = one;
  start = p.start;
  fin = p.fin;
  eof = p.eof;
  bytes = p.bytes;
}
discard-IsPlaced c s gs fs (r ∷ rs) p w one = elim (Bool-cases (r.start == s.buffer_start)) [
  | inl h ↦
      let stop = s.buffer_start + (r.stop - r.start) in
      let eq : stop ≡ r.stop = ground arith in
      let within : r.stop ≤ s.buffer_stop = unfold contains in ground (arith, one (r.stop - 1)) in
      rw h (record {
        open_still = p.open_still;
        pending = p.pending;
        acked = subst (λ n. IsSeparated (suc n) rs) (sym eq) w.2;
        one = λ x. unfold contains in ground (arith, one x, contains-below rs (suc r.stop) x w.2);
        start = omega arith;
        fin = p.fin;
        eof = p.eof;
        bytes =
            ap (drop (r.stop - r.start)) p.bytes
            ∙ drop-segment c s.buffer_start (s.buffer_stop - s.buffer_start) (r.stop - r.start)
            ∙ ap (segment c stop) (omega arith);
      })
  | inr h ↦ rw h (record {
    open_still = p.open_still;
    pending = p.pending;
    acked = (ground arith, w.1, w.2);
    one = one;
    start = p.start;
    fin = p.fin;
    eof = p.eof;
    bytes = p.bytes;
  })
]

module _ (c : ℕ → ℕ) (s : QuicStreamSender) (front : List Flight) (f : Flight) (back : List Flight)
    (p : IsPlaced c s (front ++ (f ∷ back))) where
  split :
      (x : ℕ)
      → count (contains s.pending x)
          + (in_flight_at (front ++ back) x + count (in_range x (range f.start f.stop)))
          + count (ltb x s.buffer_start || contains s.acked_ranges x)
        ≡ count (ltb x s.buffer_stop)
  split x =
      omega
        (arith, p.one x, in_flight_at-append front (f ∷ back) x, in_flight_at-append front back x)

  flight_start : f.start < f.stop → s.buffer_start ≤ f.start
  flight_start h = ground (arith, split f.start)

  -- A frame with no bytes.
  gone : ltb f.start f.stop ≡ false → IsPlaced c s (front ++ back)
  gone h = record {
    open_still = p.open_still;
    pending = p.pending;
    acked = p.acked;
    one = λ x. ground (arith, split x);
    start = p.start;
    fin = p.fin;
    eof = p.eof;
    bytes = p.bytes;
  }

  pub discarded-IsPlaced :
      f.start < f.stop
      → IsPlaced c (discard (add_loop s.acked_ranges f.start f.stop) s) (front ++ back)
  discarded-IsPlaced lt =
      let w = IsSeparated-weaken s.acked_ranges {lo = s.buffer_start} (omega arith) p.acked in
      discard-IsPlaced c s (front ++ (f ∷ back)) (front ++ back)
        (add_loop s.acked_ranges f.start f.stop) p
        (add_loop-IsSeparated s.acked_ranges s.buffer_start f.start f.stop (flight_start lt) lt w)
        (λ x.
          ground
            (arith, split x, contains-add_loop s.acked_ranges s.buffer_start f.start f.stop x lt w))

  acked-IsPlaced : IsPlaced c (deliver_data s acked f.start f.stop f.fin).1 (front ++ back)
  unfolding deliver_data
  acked-IsPlaced = elim (Bool-cases (ltb f.start f.stop)) [
    | inl h ↦
        let lt = ltb→lt f.start f.stop h in
        rw (h, add_ok s.acked_ranges f.start f.stop lt)
          (finish-IsPlaced c (discard (add_loop s.acked_ranges f.start f.stop) s) (front ++ back)
            f.fin (discarded-IsPlaced lt))
    | inr h ↦ rw h (finish-IsPlaced c s (front ++ back) f.fin (gone h))
  ]

  lost-IsPlaced :
      (f.fin && not (eq_some s.buffer_fin f.stop)) ≡ false
      → IsPlaced c (deliver_data s lost f.start f.stop f.fin).1 (front ++ back)
  unfolding deliver_data
  lost-IsPlaced checked = elim (Bool-cases (ltb f.start f.stop)) [
    | inl h ↦
        let lt = ltb→lt f.start f.stop h in
        rw (h, add_ok s.pending f.start f.stop lt)
          (record {
            open_still = p.open_still;
            pending = add_loop-IsSeparated s.pending 0 f.start f.stop (omega arith) lt p.pending;
            acked = p.acked;
            one = λ x.
                ground
                  (arith, split x, contains-add_loop s.pending 0 f.start f.stop x lt p.pending);
            start = p.start;
            fin = p.fin;
            eof = ground (arith, p.eof);
            bytes = p.bytes;
          })
    | inr h ↦ rw h (record {
      open_still = p.open_still;
      pending = p.pending;
      acked = p.acked;
      one = (gone h).one;
      start = p.start;
      fin = p.fin;
      eof = ground (arith, p.eof);
      bytes = p.bytes;
    })
  ]

-- A report about a frame in flight, whose end matches where it has the FIN bit, leaves each
-- written byte in one place: acknowledged bytes are discarded from the buffer as far as they
-- reach, lost bytes are pending again.
pub on_data_delivery-IsPlaced :
    (c : ℕ → ℕ) (s : QuicStreamSender) (delivery : QuicDeliveryState) (front : List Flight)
    (f : Flight) (back : List Flight)
    → IsPlaced c s (front ++ (f ∷ back))
    → (f.fin && not (eq_some s.buffer_fin f.stop)) ≡ false
    → IsPlaced c (on_data_delivery s delivery f.start f.stop f.fin).1 (front ++ back)
unfolding on_data_delivery
on_data_delivery-IsPlaced c s acked front f back p h = rw h (
    subst
      (λ b.
        IsPlaced c (if b then deliver_data s acked f.start f.stop f.fin else (ok tt, s)).1
          (front ++ back))
      (sym (ap is_none p.open_still)) (acked-IsPlaced c s front f back p))
on_data_delivery-IsPlaced c s lost front f back p h = rw h (
    subst
      (λ b.
        IsPlaced c (if b then deliver_data s lost f.start f.stop f.fin else (ok tt, s)).1
          (front ++ back))
      (sym (ap is_none p.open_still)) (lost-IsPlaced c s front f back p h))
