-- ===== src/Stream/Sender/Runs.antt =====
-- Runs of a sender with the network, from a new stream on: what a finished sender means, that the
-- sender does not get stuck, and what a receiver makes of the frames that were sent.
use aioquic.Base.{
  ℕ, zero, suc, ◌+◌, ◌≤◌, ◌<◌, ◌≡◌, refl, sym, ap, arith, true, false, List, [], ◌∷◌, ◌++◌, Option,
  none, some, length, leb, eq_some, is_none, Bool-cases, inl, inr, ◌⊎◌, min,
}
use mathlib.Core.Path.{subst}
use aioquic.Base.Exception.{Result, ok}
use aioquic.Base.Slices.{segment, slice}
use aioquic.RangeSet.{RangeSet, contains}
use aioquic.RangeSet.Shape.{IsSeparated}
use aioquic.RangeSet.Members.{contains-below}
use aioquic.Stream.{QuicStreamFrame}
use aioquic.Stream.Receiver.{QuicStreamReceiver}
use aioquic.Stream.Receiver as Receiver
use aioquic.Stream.Receiver.Session.{receive, receive_prefix, Carry, covered}
use aioquic.Stream.Sender.{QuicStreamSender, get_frame, frame_from, frame_stop, make_frame}
use aioquic.Stream.Sender.System.{Flight, System, initial, Reach}
use aioquic.Stream.Sender.Places.{IsPlaced, subtract_ok}
use aioquic.Stream.Sender.Ends.{any_fin, IsFinal}
use aioquic.Stream.Sender.Awake.{IsAwake}
use aioquic.Stream.Sender.Sound.{EndBy, Reach-IsSound}

-- The bytes that were not acknowledged end where the buffer starts, unless some are acknowledged
-- further up; so with nothing pending and nothing in flight, all are acknowledged.
all_acked :
    (c : ℕ → ℕ) (s : QuicStreamSender)
    → IsPlaced c s []
    → s.pending ≡ []
    → s.buffer_start ≡ s.buffer_stop
all_acked c s p e =
    unfold contains in
    ground (
      arith,
      p.one s.buffer_start,
      p.start,
      ap (λ t. contains t s.buffer_start) e,
      contains-below s.acked_ranges (suc s.buffer_start) s.buffer_start p.acked,
    )

-- What the sender does next: it has a frame to send, or it has lost its FIN and has nothing to send,
-- now and in whatever packet.
abbrev Sends : QuicStreamSender → Result (Option QuicStreamFrame) × QuicStreamSender → Type 0
Sends s out = (s.buffer_is_empty ≡ false) × ((frame : QuicStreamFrame) × (out.0 ≡ ok (some frame)))

abbrev Stuck :
    QuicStreamSender → List Flight → Result (Option QuicStreamFrame) × QuicStreamSender → Type 0
Stuck s dropped out =
    (any_fin dropped ≡ true)
    × (s.acked_fin ≡ false)
    × (s.buffer_start ≡ s.buffer_stop)
    × (out ≡ (ok none, record s { buffer_is_empty = true }))

next_frame :
    (c : ℕ → ℕ) (s : QuicStreamSender) (dropped : List Flight) (q : RangeSet) (max_size : ℕ)
    → IsPlaced c s []
    → IsFinal s dropped
    → IsAwake s
    → s.pending ≡ q
    → s.is_finished ≡ false
    → is_none s.buffer_fin ≡ false
    → 0 < max_size
    → Sends s (frame_from q s max_size none) ⊎ Stuck s dropped (frame_from q s max_size none)
unfolding make_frame frame_stop
next_frame c s dropped [] max_size p f awake e going ended h =
    let all = all_acked c s p e in
    let unacked : s.acked_fin ≡ false = ground (arith, f.finished, going, all, p.fin, ended) in
    elim (Bool-cases s.pending_eof) [
      | inl eof ↦
          let (n, en) : (n : ℕ) × (s.buffer_fin ≡ some n) = ground arith in
          inl (
            ground (arith, awake, e, eof),
            (record { bytes = []; fin = true; offset = n }, ground arith),
          )
      | inr eof ↦ inr (ground (arith, f.somewhere, eof, unacked, ended), unacked, all, rw eof refl)
    ]
next_frame c s dropped (r ∷ rs) max_size p f awake e going ended h =
    let w : IsSeparated 0 (r ∷ rs) = subst (IsSeparated 0) e p.pending in
    let stop = min r.stop (r.start + max_size) in
    let room : leb stop r.start ≡ false = ground arith in
    inl (
      ground (arith, awake, e),
      (
        record {
          bytes = slice s.buffer r.start s.buffer_start stop;
          fin = eq_some s.buffer_fin stop;
          offset = r.start;
        },
        rw (room, subtract_ok s.pending r.start stop (ground arith)),
      ),
    )

-- A stream that was ended, that is not reset and has nothing in flight is finished; or its sender is
-- not passed over (`buffer_is_empty` is false) and has a frame to send, wherever there is room for a
-- byte; or the frame with the FIN was dropped, where there was no room for it in the packet. Then all
-- bytes are acknowledged, the FIN is not, and there is no frame: the stream is marked as empty.
pub no_deadlock :
    (c : ℕ → ℕ) (id : Option ℕ) (y : System) (max_size : ℕ)
    → Reach c (initial id) y
    → y.in_flight ≡ []
    → is_none y.sender.buffer_fin ≡ false
    → y.sender.is_finished ≡ false
    → 0 < max_size
    → ((y.sender.buffer_is_empty ≡ false)
        × ((frame : QuicStreamFrame) × ((get_frame y.sender max_size none).0 ≡ ok (some frame))))
      ⊎ ((any_fin y.dropped ≡ true)
          × (y.sender.acked_fin ≡ false)
          × (y.sender.buffer_start ≡ y.sender.buffer_stop)
          × (get_frame y.sender max_size none
              ≡ (ok none, record y.sender { buffer_is_empty = true })))
unfolding get_frame
no_deadlock c id y max_size r idle ended going room =
    let h = Reach-IsSound r in
    let p = subst (IsPlaced c y.sender) idle h.placed in
    let f = subst (λ fs. IsFinal y.sender (fs ++ y.dropped)) idle h.final in
    let k =
      next_frame c y.sender y.dropped y.sender.pending max_size p f h.awake refl going ended room in
    let open_still : is_none y.sender.reset_error_code ≡ true = ap is_none p.open_still in
    rw open_still k

-- `frame` is one of `frames`.
abbrev pub Among : QuicStreamFrame → List QuicStreamFrame → Type 0
Among frame [] = ⊥
Among frame (g ∷ gs) = (frame ≡ g) ⊎ Among frame gs

-- Each of the first frames is one of the second.
abbrev pub AllAmong : List QuicStreamFrame → List QuicStreamFrame → Type 0
AllAmong [] sent = Unit
AllAmong (frame ∷ frames) sent = Among frame sent × AllAmong frames sent

Among-fits :
    (c : ℕ → ℕ) (stop : ℕ) (frame : QuicStreamFrame) (sent : List QuicStreamFrame)
    → Among frame sent
    → Carry c sent
    → EndBy stop sent
    → (frame.bytes ≡ segment c frame.offset (length frame.bytes))
      × (frame.offset + length frame.bytes ≤ stop)
Among-fits c stop frame [] m k w = absurd m
Among-fits c stop frame (g ∷ gs) (inl e) k w =
    subst
      (λ t. (t.bytes ≡ segment c t.offset (length t.bytes)) × (t.offset + length t.bytes ≤ stop))
      (sym e) (k.0, w.0)
Among-fits c stop frame (g ∷ gs) (inr m) k w = Among-fits c stop frame gs m k.1 w.1

AllAmong-fits :
    (c : ℕ → ℕ) (stop : ℕ) (frames sent : List QuicStreamFrame)
    → AllAmong frames sent
    → Carry c sent
    → EndBy stop sent
    → Carry c frames × EndBy stop frames
AllAmong-fits c stop [] sent m k w = (tt, tt)
AllAmong-fits c stop (f ∷ fs) sent m k w =
    let (a, b) = Among-fits c stop f sent m.0 k w in
    let (rest, ends) = AllAmong-fits c stop fs sent m.1 k w in ((a, rest), (b, ends))

covered-EndBy :
    (frames : List QuicStreamFrame) (stop x : ℕ)
    → EndBy stop frames
    → covered frames x ≡ true
    → x < stop
covered-EndBy [] stop x w h = absurd (ground arith)
covered-EndBy (f ∷ fs) stop x w h = ground (arith, covered-EndBy fs stop x w.1)

-- From the writes of an application to the reads of its peer: whatever frames of a run the peer
-- receives, in whatever order and however often, the bytes that it hands over are the first bytes
-- of the content that was written, and no more than were written.
pub end_to_end :
    (c : ℕ → ℕ) (id id' : Option ℕ) (y : System) (frames : List QuicStreamFrame) (bytes : List ℕ)
    (last : QuicStreamReceiver)
    → Reach c (initial id) y
    → AllAmong frames y.sent
    → receive (Receiver.init id') frames ≡ ok (bytes, last)
    → (bytes ≡ segment c 0 last.buffer_start) × (last.buffer_start ≤ y.sender.buffer_stop)
end_to_end c id id' y frames bytes last r among e =
    let h = Reach-IsSound r in
    let (carry, within) =
      AllAmong-fits c y.sender.buffer_stop frames y.sent among h.carry h.within in
    let k = receive_prefix c id' frames bytes last carry e in
    (k.0, bounded last.buffer_start k.2 within)
  where
    bounded :
        (n : ℕ)
        → ((x : ℕ) → x < n → covered frames x ≡ true)
        → EndBy y.sender.buffer_stop frames
        → n ≤ y.sender.buffer_stop
    bounded zero k w = omega arith
    bounded (suc n) k w = covered-EndBy frames y.sender.buffer_stop n w (k n (omega arith))
