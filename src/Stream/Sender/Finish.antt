-- ===== src/Stream/Sender/Finish.antt =====
-- The FIN of a QuicStreamSender, and when the sender is finished.
use aioquic.Base.{
  ℕ, ◌+◌, ◌≤◌, ◌≡◌, refl, sym, ap, arith, Bool, true, false, ◌&&◌, List, [], ◌∷◌, ◌++◌, length, ltb,
  ltb→lt, is_none, Bool-cases, inl, inr, if◌then◌else◌,
}
use mathlib.Core.Path.{subst}
use native.Mathlib.Nat.{le_trans}
use aioquic.Base.Exception.{Result, ok, raise}
use aioquic.RangeSet.{RangeSet, add_loop, add}
use aioquic.Stream.{QuicDeliveryState, acked, lost}
use aioquic.Stream.Sender.{
  QuicStreamSender, write, append_bytes, write_bytes, write_end, on_data_delivery, deliver_data,
  discard, finish_acked, on_acked, on_lost,
}
use aioquic.Stream.Sender.System.{Flight}
use aioquic.Stream.Sender.Places.{IsPlaced, add_ok}
use aioquic.Stream.Sender.Delivery.{discarded-IsPlaced}
use aioquic.Stream.Sender.Ends.{FinsAt, IsFinal, FinsAt-remove, any_fin-remove}

discard-start :
    (ranges : RangeSet) (s : QuicStreamSender)
    → (s.buffer_start ≤ (discard ranges s).buffer_start)
      × ((discard ranges s).buffer_fin ≡ s.buffer_fin)
      × ((discard ranges s).acked_fin ≡ s.acked_fin)
      × ((discard ranges s).is_finished ≡ s.is_finished)
      × ((discard ranges s).pending_eof ≡ s.pending_eof)
discard-start [] s = (omega arith, refl, refl, refl, refl)
discard-start (r ∷ rs) s = ground arith

discard-stop :
    (ranges : RangeSet) (s : QuicStreamSender) → (discard ranges s).buffer_stop ≡ s.buffer_stop
discard-stop [] s = refl
discard-stop (r ∷ rs) s = ground arith

module _ (c : ℕ → ℕ) (s : QuicStreamSender) (front : List Flight) (f : Flight) (back : List Flight)
    (p : IsFinal s (front ++ (f ∷ back))) (q : IsPlaced c s (front ++ (f ∷ back))) where
  -- `t` is the sender after its bytes were acknowledged.
  finish-IsFinal :
      (t : QuicStreamSender)
      → (s.buffer_start ≤ t.buffer_start)
        × (t.buffer_fin ≡ s.buffer_fin)
        × (t.acked_fin ≡ s.acked_fin)
        × (t.is_finished ≡ s.is_finished)
        × (t.pending_eof ≡ s.pending_eof)
      → t.buffer_start ≤ s.buffer_stop
      → IsFinal (finish_acked t f.fin) (front ++ back)
  finish-IsFinal t k le =
      let r = FinsAt-remove front f back s.buffer_fin p.flights in
      record {
        flights = subst (λ o. FinsAt o (front ++ back)) (sym k.1) r.0;
        acked = ground (arith, p.acked, k, r.1);
        somewhere = ground (arith, p.somewhere, k, any_fin-remove front f back);
        finished = ground (arith, p.finished, k, q.fin, le);
      }

  acked-IsFinal : IsFinal (deliver_data s acked f.start f.stop f.fin).1 (front ++ back)
  unfolding deliver_data
  acked-IsFinal = elim (Bool-cases (ltb f.start f.stop)) [
    | inl h ↦
        let lt = ltb→lt f.start f.stop h in
        let ranges = add_loop s.acked_ranges f.start f.stop in
        let d = discarded-IsPlaced c s front f back q lt in
        rw (h, add_ok s.acked_ranges f.start f.stop lt)
          (finish-IsFinal (discard ranges s) (discard-start ranges s)
            (ground (arith, d.start, discard-stop ranges s)))
    | inr h ↦ rw h (finish-IsFinal s (omega arith, refl, refl, refl, refl) q.start)
  ]

  lost-IsFinal : IsFinal (deliver_data s lost f.start f.stop f.fin).1 (front ++ back)
  unfolding deliver_data
  lost-IsFinal =
      on_lost-IsFinal (if ltb f.start f.stop then add s.pending f.start f.stop else ok s.pending)
        (marked f.start f.stop)
    where
      marked :
          (a b : ℕ)
          → (r : RangeSet) × ((if ltb a b then add s.pending a b else ok s.pending) ≡ ok r)
      marked a b = elim (Bool-cases (ltb a b)) [
        | inl h ↦ (add_loop s.pending a b, rw h (add_ok s.pending a b (ltb→lt a b h)))
        | inr h ↦ (s.pending, rw h)
      ]

      on_lost-IsFinal :
          (r : Result RangeSet)
          → (t : RangeSet) × (r ≡ ok t)
          → IsFinal (on_lost r (ltb f.start f.stop) s f.fin).1 (front ++ back)
      on_lost-IsFinal (raise e) k = absurd (ground (arith, k.1))
      on_lost-IsFinal (ok t) k =
          let r = FinsAt-remove front f back s.buffer_fin p.flights in
          record {
            flights = r.0;
            acked = p.acked;
            somewhere = ground (arith, p.somewhere, any_fin-remove front f back);
            finished = p.finished;
          }

-- A report about a frame in flight keeps the whereabouts of the FIN, and what `is_finished` is.
pub on_data_delivery-IsFinal :
    (c : ℕ → ℕ) (s : QuicStreamSender) (delivery : QuicDeliveryState) (front : List Flight)
    (f : Flight) (back : List Flight)
    → IsPlaced c s (front ++ (f ∷ back))
    → IsFinal s (front ++ (f ∷ back))
    → IsFinal (on_data_delivery s delivery f.start f.stop f.fin).1 (front ++ back)
unfolding on_data_delivery
on_data_delivery-IsFinal c s acked front f back q p =
    rw (FinsAt-remove front f back s.buffer_fin p.flights).1 (
      subst
        (λ b.
          IsFinal (if b then deliver_data s acked f.start f.stop f.fin else (ok tt, s)).1
            (front ++ back))
        (sym (ap is_none q.open_still)) (acked-IsFinal c s front f back p q))
on_data_delivery-IsFinal c s lost front f back q p =
    rw (FinsAt-remove front f back s.buffer_fin p.flights).1 (
      subst
        (λ b.
          IsFinal (if b then deliver_data s lost f.start f.stop f.fin else (ok tt, s)).1
            (front ++ back))
        (sym (ap is_none q.open_still)) (lost-IsFinal c s front f back p q))

-- What was written stays written.
pub write-stop-le :
    (s : QuicStreamSender) (bytes : List ℕ) (e : Bool)
    → s.buffer_stop ≤ (write s bytes e).1.buffer_stop
unfolding write
write-stop-le s bytes e = elim (Bool-cases (is_none s.buffer_fin && is_none s.reset_error_code)) [
  | inl h ↦ rw h (le_trans (bytes_le bytes) (end_le (write_bytes s bytes) e))
  | inr h ↦ rw h (omega arith)
]
  where
    bytes_le : (bytes : List ℕ) → s.buffer_stop ≤ (write_bytes s bytes).1.buffer_stop
    bytes_le [] = omega arith
    bytes_le (x ∷ xs) =
        elim (add s.pending s.buffer_stop (s.buffer_stop + length (x ∷ xs)))
          as (λ r. s.buffer_stop ≤ (append_bytes r s (x ∷ xs)).1.buffer_stop) [
            | raise e ↦ omega arith
            | ok r ↦ omega arith
          ]

    end_le :
        (out : Result (Unit {0}) × QuicStreamSender) (e : Bool)
        → out.1.buffer_stop ≤ (write_end out e).1.buffer_stop
    end_le (raise x, t) e = omega arith
    end_le (ok u, t) true = omega arith
    end_le (ok u, t) false = omega arith

deliver-stop :
    (s : QuicStreamSender) (d : QuicDeliveryState) (a b : ℕ) (fin : Bool)
    → (deliver_data s d a b fin).1.buffer_stop ≡ s.buffer_stop
unfolding deliver_data
deliver-stop s acked a b fin = elim (Bool-cases (ltb a b)) [
  | inl h ↦ rw h (got (add s.acked_ranges a b))
  | inr h ↦ rw h
]
  where
    got : (r : Result RangeSet) → (on_acked r s fin).1.buffer_stop ≡ s.buffer_stop
    got (raise e) = refl
    got (ok r) = discard-stop r s
deliver-stop s lost a b fin = lose (if ltb a b then add s.pending a b else ok s.pending)
  where
    lose : (r : Result RangeSet) → (on_lost r (ltb a b) s fin).1.buffer_stop ≡ s.buffer_stop
    lose (raise e) = refl
    lose (ok r) = refl

pub on_data_delivery-stop :
    (s : QuicStreamSender) (d : QuicDeliveryState) (a b : ℕ) (fin : Bool)
    → (on_data_delivery s d a b fin).1.buffer_stop ≡ s.buffer_stop
unfolding on_data_delivery
on_data_delivery-stop s d a b fin = ground (arith, deliver-stop s d a b fin)
