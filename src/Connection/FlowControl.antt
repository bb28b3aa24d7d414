-- ===== src/Connection/FlowControl.antt =====
-- Flow control of received STREAM frames, in `_handle_stream_frame` of
-- src/aioquic/quic/connection.py, from the check of the limits on.
mod Examples
use aioquic.Base.{
  ℕ, ◌+◌, ◌-◌, ◌≤◌, ◌≡◌, refl, sym, ap, ◌∙◌, arith, Bool, true, false, Option, ltb, max,
  if◌then◌else◌, length, inl, inr, Bool-cases,
}
use mathlib.Core.Path.{subst}
use aioquic.Base.Exception.{Result, ok, raise, Exception, final_size_error, quic_connection_error}
use aioquic.Stream.{QuicStreamFrame}
use aioquic.Stream.Receiver.{QuicStreamReceiver, StreamDataReceived, handle_frame}
use aioquic.Stream.Receiver.Highest.{handle_frame-highest}

pub record Limit : Type 0 where
  pub sent : ℕ
  pub used : ℕ
  pub value : ℕ

-- A FinalSizeError is turned into an error of the connection.
abbrev wrap : Exception → Exception
wrap final_size_error = quic_connection_error 6
wrap e = e

-- `process data`
abbrev process :
    Result (Option StreamDataReceived) × QuicStreamReceiver
    → Limit
    → ℕ
    → Result (Option StreamDataReceived) × Limit × QuicStreamReceiver
process (raise e, r) limit newly_received = (raise (wrap e), limit, r)
process (ok event, r) limit newly_received =
    (ok event, record limit { used = limit.used + newly_received }, r)

-- The limit is `_local_max_data`, then comes `max_stream_data_local` of the stream.
unfoldable pub receive_stream_frame :
    Limit
    → ℕ
    → QuicStreamReceiver
    → QuicStreamFrame
    → Result (Option StreamDataReceived) × Limit × QuicStreamReceiver
receive_stream_frame limit max_stream_data_local r frame =
    let frame_end = frame.offset + length frame.bytes in
    let newly_received = frame_end - r.highest_offset in
    if ltb max_stream_data_local frame_end
    then (raise (quic_connection_error 3), limit, r)
    else if ltb limit.value (limit.used + newly_received)
    then (raise (quic_connection_error 3), limit, r)
    else process (handle_frame r frame) limit newly_received

-- What was received of the stream and of `others` is what the limit counts, and within both limits.
pub record IsControlled (others max_stream_data_local : ℕ) (limit : Limit) (r : QuicStreamReceiver)
    : Type 0 where
  pub counted : limit.used ≡ others + r.highest_offset
  pub connection : limit.used ≤ limit.value
  pub stream : r.highest_offset ≤ max_stream_data_local

processed :
    (o m : ℕ) (limit limit' : Limit) (r last : QuicStreamReceiver) (frame : QuicStreamFrame)
    (event : Option StreamDataReceived)
    (out : Result (Option StreamDataReceived) × QuicStreamReceiver)
    → handle_frame r frame ≡ out
    → IsControlled o m limit r
    → frame.offset + length frame.bytes ≤ m
    → limit.used + (frame.offset + length frame.bytes - r.highest_offset) ≤ limit.value
    → process out limit (frame.offset + length frame.bytes - r.highest_offset)
      ≡ (ok event, limit', last)
    → IsControlled o m limit' last
processed o m limit limit' r last frame event (raise x, r') e c a b h = absurd (
    ground
      (arith, ap (λ (t : Result (Option StreamDataReceived) × Limit × QuicStreamReceiver). t.0) h))
processed o m limit limit' r last frame event (ok v, r') e c a b h =
    let top = handle_frame-highest r r' frame v e in
    let newly = frame.offset + length frame.bytes - r.highest_offset in
    let first : record limit { used = limit.used + newly } ≡ limit' =
      ap (λ (t : Result (Option StreamDataReceived) × Limit × QuicStreamReceiver). t.1) h in
    let second : r' ≡ last =
      ap (λ (t : Result (Option StreamDataReceived) × Limit × QuicStreamReceiver). t.2) h in
    subst (λ t. IsControlled o m t last) first
      (subst (λ t. IsControlled o m (record limit { used = limit.used + newly }) t) second
        (record {
          counted = omega (arith, c.counted, top);
          connection = b;
          stream = omega (arith, c.stream, top, a);
        }))

-- A frame that is accepted keeps what the connection limit counts equal to the sum of the highest
-- offsets of the streams, and within the limit; and the stream's offsets within the stream's limit.
pub receive_stream_frame-IsControlled :
    (others max_stream_data_local : ℕ) (limit limit' : Limit) (r last : QuicStreamReceiver)
    (frame : QuicStreamFrame) (event : Option StreamDataReceived)
    → IsControlled others max_stream_data_local limit r
    → receive_stream_frame limit max_stream_data_local r frame ≡ (ok event, limit', last)
    → IsControlled others max_stream_data_local limit' last
unfolding receive_stream_frame
receive_stream_frame-IsControlled o m limit limit' r last frame event c h =
    let frame_end = frame.offset + length frame.bytes in
    let newly = frame_end - r.highest_offset in
    elim (Bool-cases (ltb m frame_end)) [
      | inl a ↦ absurd (
          ground (
            arith,
            ap (λ (t : Result (Option StreamDataReceived) × Limit × QuicStreamReceiver). t.0) h,
          ))
      | inr a ↦ elim (Bool-cases (ltb limit.value (limit.used + newly))) [
        | inl b ↦ absurd (
            ground (
              arith,
              ap (λ (t : Result (Option StreamDataReceived) × Limit × QuicStreamReceiver). t.0) h,
            ))
        | inr b ↦
            processed o m limit limit' r last frame event (handle_frame r frame) refl c
              (ground arith) (ground arith) (rw (a, b) at h)
      ]
    ]
