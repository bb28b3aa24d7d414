-- ===== src/Stream/Receiver/Highest.antt =====
-- The highest offset that a QuicStreamReceiver has seen (src/aioquic/quic/stream.py).
use aioquic.Base.{
  ℕ, ◌+◌, ◌≡◌, refl, sym, ap, ◌∙◌, arith, not, ◌&&◌, List, [], ◌∷◌, Option, ◌==◌, max, length, inl,
  inr, Bool-cases,
}
use aioquic.Base.Exception.{Result, ok, raise}
use aioquic.RangeSet.{RangeSet}
use aioquic.Stream.{QuicStreamFrame}
use aioquic.Stream.Receiver.{
  QuicStreamReceiver, StreamDataReceived, pull_front, pull_data, deliver, store, accept_frame,
  record_end, breaks_final_size, is_empty, handle_frame,
}

pull_front-highest :
    (qs : RangeSet) (r : QuicStreamReceiver) → (pull_front qs r).1.highest_offset ≡ r.highest_offset
pull_front-highest [] r = refl
pull_front-highest (q ∷ qs) r = elim (Bool-cases (q.start == r.buffer_start)) [
  | inl e ↦ rw e refl
  | inr e ↦ rw e refl
]

store-highest :
    (r : QuicStreamReceiver) (bytes : List ℕ) (offset : ℕ) (ranges : Result RangeSet)
    → (store r bytes offset ranges).1.highest_offset ≡ r.highest_offset
unfolding deliver pull_data
store-highest r bytes offset (raise e) = refl
store-highest r bytes offset (ok ranges) = pull_front-highest ranges _

accept_frame-highest :
    (r : QuicStreamReceiver) (frame : QuicStreamFrame)
    → (accept_frame r frame).1.highest_offset ≡ r.highest_offset
unfolding accept_frame
accept_frame-highest r frame =
    elim (Bool-cases
      ((frame.offset == r.buffer_start) && (not (length frame.bytes == 0) && is_empty r.buffer))) [
        | inl e ↦ rw e refl
        | inr e ↦ rw e (store-highest r _ _ _)
      ]

pub handle_frame-highest :
    (r last : QuicStreamReceiver) (frame : QuicStreamFrame) (event : Option StreamDataReceived)
    → handle_frame r frame ≡ (ok event, last)
    → last.highest_offset ≡ max r.highest_offset (frame.offset + length frame.bytes)
unfolding handle_frame
handle_frame-highest r last frame event h =
    let frame_end = frame.offset + length frame.bytes in
    elim (Bool-cases (breaks_final_size r.final_size frame_end frame.fin)) [
      | inl e ↦ absurd (
          ground
            (arith, ap (λ (t : Result (Option StreamDataReceived) × QuicStreamReceiver). t.0) h))
      | inr e ↦
          let same : accept_frame (record_end r frame_end frame.fin) frame ≡ (ok event, last) =
            rw e at h in
          sym (
            ap (λ (t : Result (Option StreamDataReceived) × QuicStreamReceiver). t.1.highest_offset)
              same)
          ∙ accept_frame-highest (record_end r frame_end frame.fin) frame
          ∙ ground arith
    ]
