-- ===== src/Stream/Sender/Sound.antt =====
-- The invariant of the runs of a QuicStreamSender (src/aioquic/quic/stream.py).
use aioquic.Base.{
  ℕ, ◌+◌, ◌≤◌, ◌≡◌, refl, sym, ap, ◌∙◌, arith, Bool, true, false, List, [], ◌∷◌, ◌++◌, Option, none,
  some, length, append_assoc,
}
use mathlib.Core.Path.{subst}
use aioquic.Base.Exception.{Result, ok}
use aioquic.Base.Slices.{segment, length-segment}
use aioquic.RangeSet.{contains}
use aioquic.Stream.{QuicStreamFrame, QuicDeliveryState}
use aioquic.Stream.Receiver.Session.{Carry}
use aioquic.Stream.Sender.{QuicStreamSender, write, get_frame, on_data_delivery}
use aioquic.Stream.Sender.System.{
  Flight, System, initial, Step, flight_of, writes, sends, drops, idles, reports, Reach, here, next,
}
use aioquic.Stream.Sender.Places.{in_flight_at, IsPlaced, write-IsPlaced, launched}
use aioquic.Stream.Sender.Dropped.{NoBytes, with_dropped, without_first}
use aioquic.Stream.Sender.Frames.{Carries, get_frame_lem}
use aioquic.Stream.Sender.Delivery.{on_data_delivery-IsPlaced}
use aioquic.Stream.Sender.Finish.{on_data_delivery-IsFinal, write-stop-le, on_data_delivery-stop}
use aioquic.Stream.Sender.Ends.{
  FinsAt-remove, IsFinal, IsFinal-insert, write-IsFinal, get_frame-IsFinal, get_frame-Keeps,
}
use aioquic.Stream.Sender.Awake.{
  IsAwake, write-IsAwake, get_frame-IsAwake, on_data_delivery-IsAwake,
}

-- All frames end at `stop` or below.
abbrev pub EndBy : ℕ → List QuicStreamFrame → Type 0
EndBy stop [] = Unit
EndBy stop (frame ∷ frames) = (frame.offset + length frame.bytes ≤ stop) × EndBy stop frames

EndBy-weaken : (frames : List QuicStreamFrame) (a b : ℕ) → a ≤ b → EndBy a frames → EndBy b frames
EndBy-weaken [] a b h e = tt
EndBy-weaken (f ∷ fs) a b h e = (omega arith, EndBy-weaken fs a b h e.1)

-- The invariant of a system.
pub record IsSound (content : ℕ → ℕ) (y : System) : Type 0 where
  pub placed : IsPlaced content y.sender y.in_flight
  pub final : IsFinal y.sender (y.in_flight ++ y.dropped)
  pub no_bytes : NoBytes y.dropped
  pub awake : IsAwake y.sender
  pub carry : Carry content y.sent
  pub within : EndBy y.sender.buffer_stop y.sent

initial-IsSound : (c : ℕ → ℕ) (id : Option ℕ) → IsSound c (initial id)
initial-IsSound c id = record {
  placed = record {
    open_still = refl;
    pending = tt;
    acked = tt;
    one = λ x. unfold contains in ground arith;
    start = omega arith;
    fin = tt;
    eof = refl;
    bytes = unfold segment in refl;
  };
  final = record { flights = tt; acked = refl; somewhere = refl; finished = refl };
  no_bytes = tt;
  awake = refl;
  carry = tt;
  within = tt;
}

write-IsSound :
    {c : ℕ → ℕ} (y : System) (n : ℕ) (e : Bool) (s : QuicStreamSender)
    → write y.sender (segment c y.sender.buffer_stop n) e ≡ (ok tt, s)
    → IsSound c y
    → IsSound c (record y { sender = s })
write-IsSound {c} y n e s eq h =
    let es = ap (λ (o : Result (Unit {0}) × QuicStreamSender). o.1) eq in
    let bytes = segment c y.sender.buffer_stop n in
    record {
      placed =
          subst (λ t. IsPlaced c t y.in_flight) es
            (write-IsPlaced c y.sender y.in_flight bytes e
              (sym (ap (segment c y.sender.buffer_stop) (length-segment c y.sender.buffer_stop n)))
              h.placed);
      final =
          subst (λ t. IsFinal t (y.in_flight ++ y.dropped)) es
            (write-IsFinal y.sender (y.in_flight ++ y.dropped) bytes e h.final);
      no_bytes = h.no_bytes;
      awake = subst IsAwake es (write-IsAwake y.sender bytes e h.awake);
      carry = h.carry;
      within =
          EndBy-weaken y.sent _ _
            (subst (λ t. y.sender.buffer_stop ≤ t.buffer_stop) es (write-stop-le y.sender bytes e))
            h.within;
    }

-- What `get_frame` leaves, whether it makes a frame or not.
record IsLaunched (c : ℕ → ℕ) (y : System) (m : ℕ) (o : Option ℕ)
    (out : Result (Option QuicStreamFrame)) (s : QuicStreamSender) : Type 0 where
  placed : IsPlaced c s (launched out y.in_flight)
  final : IsFinal s (launched out (y.in_flight ++ y.dropped))
  awake : IsAwake s
  carries : Carries c y.sender m o out
  stop : y.sender.buffer_stop ≡ s.buffer_stop

get_frame-IsLaunched :
    {c : ℕ → ℕ} (y : System) (m : ℕ) (o : Option ℕ) (out : Result (Option QuicStreamFrame))
    (s : QuicStreamSender)
    → get_frame y.sender m o ≡ (out, s)
    → IsSound c y
    → IsLaunched c y m o out s
get_frame-IsLaunched {c} y m o out s eq h =
    subst (λ t. IsLaunched c y m o t.0 t.1) eq
      (let l = get_frame_lem c y.sender y.in_flight m o h.placed in
        record {
          placed = l.placed;
          final =
              get_frame-IsFinal c y.sender (y.in_flight ++ y.dropped) m o
                (with_dropped y.in_flight y.dropped h.no_bytes h.placed) h.final;
          awake = get_frame-IsAwake y.sender m o h.awake;
          carries = l.carries;
          stop = sym (get_frame-Keeps y.sender m o).stop;
        })

on_data_delivery-IsSound :
    {c : ℕ → ℕ} (y : System) (d : QuicDeliveryState) (front : List Flight) (f : Flight)
    (back : List Flight) (s : QuicStreamSender)
    → y.in_flight ≡ front ++ (f ∷ back)
    → on_data_delivery y.sender d f.start f.stop f.fin ≡ (ok tt, s)
    → IsSound c y
    → IsSound c (record y { sender = s; in_flight = front ++ back })
on_data_delivery-IsSound {c} y d front f back s split eq h =
    let es = ap (λ (o : Result (Unit {0}) × QuicStreamSender). o.1) eq in
    let p = subst (IsPlaced c y.sender) split h.placed in
    let others = back ++ y.dropped in
    let q =
      subst (IsFinal y.sender)
        (ap (λ fs. fs ++ y.dropped) split ∙ append_assoc front (f ∷ back) y.dropped) h.final in
    let r = FinsAt-remove front f others y.sender.buffer_fin q.flights in
    record {
      placed =
          subst (λ t. IsPlaced c t (front ++ back)) es
            (on_data_delivery-IsPlaced c y.sender d front f back p r.1);
      final =
          subst (λ fs. IsFinal s fs) (sym (append_assoc front back y.dropped))
            (subst (λ t. IsFinal t (front ++ others)) es
              (on_data_delivery-IsFinal c y.sender d front f others
                (subst (IsPlaced c y.sender) (append_assoc front (f ∷ back) y.dropped)
                  (with_dropped (front ++ (f ∷ back)) y.dropped h.no_bytes p))
                q));
      no_bytes = h.no_bytes;
      awake = subst IsAwake es (on_data_delivery-IsAwake y.sender d f.start f.stop f.fin h.awake);
      carry = h.carry;
      within =
          subst (λ t. EndBy t y.sent)
            (sym (on_data_delivery-stop y.sender d f.start f.stop f.fin)
              ∙ ap (λ (t : QuicStreamSender). t.buffer_stop) es)
            h.within;
    }

Step-IsSound : {c : ℕ → ℕ} {y z : System} → Step c y z → IsSound c y → IsSound c z
Step-IsSound {c} {y} (writes n e s eq) h = write-IsSound y n e s eq h
Step-IsSound {c} {y} (sends m o frame s eq) h =
    let l = get_frame-IsLaunched y m o (ok (some frame)) s eq h in
    record {
      placed = l.placed;
      final = l.final;
      no_bytes = h.no_bytes;
      awake = l.awake;
      carry = (l.carries.0, h.carry);
      within = subst (λ t. EndBy t (frame ∷ y.sent)) l.stop (l.carries.2, h.within);
    }
Step-IsSound {c} {y} (drops m o frame s eq none_left) h =
    let l = get_frame-IsLaunched y m o (ok (some frame)) s eq h in
    let f = flight_of frame in
    let e : f.start ≡ f.stop = ground (arith, none_left) in
    record {
      placed = without_first f y.in_flight e l.placed;
      final = IsFinal-insert s y.in_flight f y.dropped l.final;
      no_bytes = (e, h.no_bytes);
      awake = l.awake;
      carry = h.carry;
      within = subst (λ t. EndBy t y.sent) l.stop h.within;
    }
Step-IsSound {c} {y} (idles m o s eq) h =
    let l = get_frame-IsLaunched y m o (ok none) s eq h in
    record {
      placed = l.placed;
      final = l.final;
      no_bytes = h.no_bytes;
      awake = l.awake;
      carry = h.carry;
      within = subst (λ t. EndBy t y.sent) l.stop h.within;
    }
Step-IsSound {c} {y} (reports d front f back s split eq) h =
    on_data_delivery-IsSound y d front f back s split eq h

-- In every run of a sender that is not reset: each written byte is in one place (pending, in flight
-- or acknowledged), the buffer holds the content that is not acknowledged, the FIN of an ended
-- stream is pending, in flight or acknowledged, or it was in a frame that was dropped because there
-- was no room for it, and such frames hold no bytes; `is_finished` says that the FIN and all bytes
-- are acknowledged; while bytes or the FIN are pending `buffer_is_empty` is false; and each frame
-- ever sent carries the content at its offset.
pub Reach-IsSound : {c : ℕ → ℕ} {id : Option ℕ} {y : System} → Reach c (initial id) y → IsSound c y
Reach-IsSound {c} {id} here = initial-IsSound c id
Reach-IsSound (next r st) = Step-IsSound st (Reach-IsSound r)

-- In a stream that is not reset, a sender is finished only when the stream was ended, the FIN was
-- acknowledged, and every byte that was written was acknowledged: no byte is pending or in flight.
pub finished_all_acked :
    (c : ℕ → ℕ) (id : Option ℕ) (y : System)
    → Reach c (initial id) y
    → y.sender.is_finished ≡ true
    → (y.sender.buffer_fin ≡ some y.sender.buffer_stop)
      × (y.sender.acked_fin ≡ true)
      × (y.sender.buffer_start ≡ y.sender.buffer_stop)
      × ((x : ℕ) → (contains y.sender.pending x ≡ false) × (in_flight_at y.in_flight x ≡ 0))
finished_all_acked c id y r done =
    let h = Reach-IsSound r in
    let p = h.placed in
    let f = h.final in
    (
      ground (arith, f.finished, p.fin),
      ground (arith, f.finished),
      ground (arith, f.finished, p.fin),
      λ x. (ground (arith, f.finished, p.fin, p.one x), ground (arith, f.finished, p.fin, p.one x)),
    )
