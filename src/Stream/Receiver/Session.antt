-- ===== src/Stream/Receiver/Session.antt =====
-- A QuicStreamReceiver over a whole sequence of frames: a client of `handle_frame` that joins the
-- bytes of the events, and stops at an exception as the connection does.
use aioquic.Base.{
  ℕ, suc, ◌+◌, ◌-◌, ◌≤◌, ◌<◌, ◌≡◌, refl, sym, ap, ◌∙◌, arith, Bool, true, false, ◌||◌, List, [],
  ◌∷◌, ◌++◌, Option, Bool-cases, inl, inr, length,
}
use mathlib.Core.Path.{subst}
use aioquic.Base.Exception.{Result, ok, raise}
use aioquic.Base.Slices.{segment, segment-append}
use aioquic.RangeSet.{range, in_range, contains}
use aioquic.RangeSet.Members.{contains-below}
use aioquic.Stream.{QuicStreamFrame}
use aioquic.Stream.Receiver.{
  QuicStreamReceiver, StreamDataReceived, init, handle_frame, breaks_final_size,
}
use aioquic.Stream.Receiver.Reassembly.{received, Holds}
use aioquic.Stream.Receiver.Accept.{handle_frame_lem}
use aioquic.Stream.Receiver.Store.{event_bytes}

abbrev and_then :
    Result (Option StreamDataReceived)
    → Result (List ℕ × QuicStreamReceiver)
    → Result (List ℕ × QuicStreamReceiver)
and_then (raise e) rest = raise e
and_then (ok event) (raise e) = raise e
and_then (ok event) (ok (bytes, last)) = ok (event_bytes event ++ bytes, last)

-- The bytes of all events, and the receiver at the end.
unfoldable pub receive :
    QuicStreamReceiver → List QuicStreamFrame → Result (List ℕ × QuicStreamReceiver)
receive r [] = ok ([], r)
receive r (frame ∷ frames) =
    let (out, r') = handle_frame r frame in and_then out (receive r' frames)

and_then-eq-ok :
    (out : Result (Option StreamDataReceived)) (rest : Result (List ℕ × QuicStreamReceiver))
    (bytes : List ℕ) (last : QuicStreamReceiver)
    → and_then out rest ≡ ok (bytes, last)
    → (event : Option StreamDataReceived) × (tail : List ℕ) × (out ≡ ok event)
      × (rest ≡ ok (tail, last))
      × (bytes ≡ event_bytes event ++ tail)
and_then-eq-ok (raise x) rest bytes last e = absurd (ground arith)
and_then-eq-ok (ok event) (raise x) bytes last e = absurd (ground arith)
and_then-eq-ok (ok event) (ok (tail, r)) bytes last e =
    (event, tail, refl, ground arith, ground arith)

-- Each frame carries the content at its offsets.
abbrev pub Carry : (ℕ → ℕ) → List QuicStreamFrame → Type 0
Carry content [] = Unit
Carry content (frame ∷ frames) =
    (frame.bytes ≡ segment content frame.offset (length frame.bytes)) × Carry content frames

-- Some frame has the offset `x`.
abbrev pub covered : List QuicStreamFrame → ℕ → Bool
covered [] x = false
covered (frame ∷ frames) x =
    in_range x (range frame.offset (frame.offset + length frame.bytes)) || covered frames x

pub record Reassembles (content : ℕ → ℕ) (r : QuicStreamReceiver) (frames : List QuicStreamFrame)
    (bytes : List ℕ) (last : QuicStreamReceiver) : Type 0 where
  pub holds : Holds content last
  pub forward : r.buffer_start ≤ last.buffer_start
  pub delivered : bytes ≡ segment content r.buffer_start (last.buffer_start - r.buffer_start)
  pub same : (x : ℕ) → received last x ≡ (covered frames x || received r x)

keeps_size :
    (r : QuicStreamReceiver) (frame : QuicStreamFrame) (event : Option StreamDataReceived)
    → (handle_frame r frame).0 ≡ ok event
    → breaks_final_size r.final_size (frame.offset + length frame.bytes) frame.fin ≡ false
unfolding handle_frame
keeps_size r frame event e =
    elim (Bool-cases
      (breaks_final_size r.final_size (frame.offset + length frame.bytes) frame.fin)) [
        | inl bad ↦
            absurd
              (ground (arith, ap (λ (o : Result (Option StreamDataReceived)). o) (rw bad at e)))
        | inr good ↦ good
      ]

joined :
    (c : ℕ → ℕ) (a b d : ℕ) (event event' : Option StreamDataReceived) (tail bytes : List ℕ)
    → a ≤ b
    → b ≤ d
    → event ≡ event'
    → event_bytes event' ≡ segment c a (b - a)
    → tail ≡ segment c b (d - b)
    → bytes ≡ event_bytes event ++ tail
    → bytes ≡ segment c a (d - a)
joined c a b d event event' tail bytes ab bd ev front back whole =
    let e : a + (b - a) ≡ b = omega arith in
    let f : (b - a) + (d - b) ≡ d - a = omega arith in
    whole ∙ rw (ev, front, back) (rw (e, f) at (segment-append c a (b - a) (d - b)))

pub receive_lem :
    (c : ℕ → ℕ) (r : QuicStreamReceiver) (frames : List QuicStreamFrame) (bytes : List ℕ)
    (last : QuicStreamReceiver)
    → Holds c r
    → Carry c frames
    → receive r frames ≡ ok (bytes, last)
    → Reassembles c r frames bytes last
unfolding receive
receive_lem c r [] bytes last h agree e =
    let eb : [] ≡ bytes = ground arith in
    let er : r ≡ last = ground arith in
    subst (λ t. Reassembles c r [] t last) eb
      (subst (λ t. Reassembles c r [] [] t) er
        (record {
          holds = h;
          forward = omega arith;
          delivered = unfold segment in ground arith;
          same = λ x. refl;
        }))
receive_lem c r (frame ∷ frames) bytes last h agree e =
    let (event, tail, out, rest, whole) = and_then-eq-ok _ _ bytes last e in
    let d = handle_frame_lem c r frame h agree.0 (keeps_size r frame event out) in
    let k = receive_lem c (handle_frame r frame).1 frames tail last d.holds agree.1 rest in
    record {
      holds = k.holds;
      forward = omega (arith, d.forward, k.forward);
      delivered =
          joined c r.buffer_start (handle_frame r frame).1.buffer_start last.buffer_start event
            d.event tail bytes d.forward k.forward (ground (arith, d.returns)) d.delivered
            k.delivered whole;
      same = λ x. ground (arith, d.same x, k.same x);
    }

-- After any frames of a stream, in any order and with any overlaps, that raise no exception, the
-- bytes handed to the application are the content from the first byte to the first offset that
-- no frame had, and every offset before that one was in a frame.
pub receive_prefix :
    (c : ℕ → ℕ) (id : Option ℕ) (frames : List QuicStreamFrame) (bytes : List ℕ)
    (last : QuicStreamReceiver)
    → Carry c frames
    → receive (init id) frames ≡ ok (bytes, last)
    → (bytes ≡ segment c 0 last.buffer_start)
      × (covered frames last.buffer_start ≡ false)
      × ((x : ℕ) → x < last.buffer_start → covered frames x ≡ true)
receive_prefix c id frames bytes last agree e =
    let k =
      receive_lem c (init id) frames bytes last
        (record { separated = tt; stored = λ x m. absurd (unfold contains in cc m) }) agree e in
    (
      k.delivered ∙ ap (segment c 0) (omega arith),
      ground (
        arith,
        k.same last.buffer_start,
        contains-below last.ranges (suc last.buffer_start) last.buffer_start k.holds.separated,
        nothing last.buffer_start,
      ),
      λ x below. ground (arith, k.same x, nothing x),
    )
  where
    nothing : (x : ℕ) → received (init id) x ≡ false
    nothing x = unfold contains in ground arith

frontier_le :
    (c : ℕ → ℕ) (id : Option ℕ) (frames frames' : List QuicStreamFrame) (bytes bytes' : List ℕ)
    (last last' : QuicStreamReceiver)
    → Carry c frames
    → Carry c frames'
    → ((x : ℕ) → covered frames x ≡ covered frames' x)
    → receive (init id) frames ≡ ok (bytes, last)
    → receive (init id) frames' ≡ ok (bytes', last')
    → last.buffer_start ≤ last'.buffer_start
frontier_le c id frames frames' bytes bytes' last last' a a' same e e' =
    let p = receive_prefix c id frames bytes last a e in
    let q = receive_prefix c id frames' bytes' last' a' e' in
    ground (arith, p.2 last'.buffer_start, q.1, same last'.buffer_start)

-- Two sequences of frames of one stream that have the same offsets hand the same bytes to the
-- application, whatever the order, the sizes and the repetitions of the frames.
pub receive_order :
    (c : ℕ → ℕ) (id : Option ℕ) (frames frames' : List QuicStreamFrame) (bytes bytes' : List ℕ)
    (last last' : QuicStreamReceiver)
    → Carry c frames
    → Carry c frames'
    → ((x : ℕ) → covered frames x ≡ covered frames' x)
    → receive (init id) frames ≡ ok (bytes, last)
    → receive (init id) frames' ≡ ok (bytes', last')
    → bytes ≡ bytes'
receive_order c id frames frames' bytes bytes' last last' a a' same e e' =
    let le = frontier_le c id frames frames' bytes bytes' last last' a a' same e e' in
    let ge =
      frontier_le c id frames' frames bytes' bytes last' last a' a (λ x. sym (same x)) e' e in
    let eq : last.buffer_start ≡ last'.buffer_start = omega arith in
    (receive_prefix c id frames bytes last a e).0
    ∙ ap (segment c 0) eq
    ∙ sym (receive_prefix c id frames' bytes' last' a' e').0
