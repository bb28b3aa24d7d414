-- ===== src/Stream/Receiver.antt =====
-- QuicStreamReceiver of src/aioquic/quic/stream.py. A method that mutates the receiver and may
-- raise returns its result beside the receiver that it leaves.
pub mod Highest
pub mod Reassembly
pub mod Store
pub mod Accept
pub mod Session
pub mod Sizes
pub mod FinalSize
mod Examples
use aioquic.Base.{
  ℕ, ◌+◌, ◌-◌, Bool, true, false, not, ◌&&◌, ◌||◌, List, [], ◌∷◌, Option, none, some, ltb, ◌==◌,
  if◌then◌else◌, eq_some, length, take, drop,
}
use aioquic.Base.Exception.{Result, ok, raise, final_size_error}
use aioquic.Base.Slices.{fill_to, assign_slice}
use aioquic.RangeSet.{RangeSet, add}
use aioquic.Stream.{QuicStreamFrame, QuicStopSendingFrame, QuicDeliveryState, acked, lost}

pub record QuicStreamReceiver : Type 0 where
  pub highest_offset : ℕ
  pub is_finished : Bool
  pub stop_pending : Bool
  pub buffer : List ℕ
  pub buffer_start : ℕ
  pub final_size : Option ℕ
  pub ranges : RangeSet
  pub stream_id : Option ℕ
  pub stop_error_code : Option ℕ

-- events.py
pub record StreamDataReceived : Type 0 where
  pub bytes : List ℕ
  pub end_stream : Bool
  pub stream_id : Option ℕ

pub record StreamReset : Type 0 where
  pub error_code : ℕ
  pub stream_id : Option ℕ

-- `__init__`, whose argument `readable` is not used.
abbrev pub init : Option ℕ → QuicStreamReceiver
init stream_id = record {
  highest_offset = 0;
  is_finished = false;
  stop_pending = false;
  buffer = [];
  buffer_start = 0;
  final_size = none;
  ranges = [];
  stream_id = stream_id;
  stop_error_code = none;
}

abbrev pub get_stop_frame : QuicStreamReceiver → QuicStopSendingFrame × QuicStreamReceiver
get_stop_frame r = (
  record { error_code = r.stop_error_code; stream_id = r.stream_id },
  record r { stop_pending = false },
)

abbrev pub starting_offset : QuicStreamReceiver → ℕ
starting_offset r = r.buffer_start

-- The bytes that the front range holds, if it starts where the buffer starts.
abbrev pull_front : RangeSet → QuicStreamReceiver → List ℕ × QuicStreamReceiver
pull_front [] r = ([], r)
pull_front (q ∷ qs) r =
    if q.start == r.buffer_start
    then (
      take (q.stop - q.start) r.buffer,
      record r { ranges = qs; buffer = drop (q.stop - q.start) r.buffer; buffer_start = q.stop },
    )
    else ([], r)

-- `_pull_data`
unfoldable pub pull_data : QuicStreamReceiver → List ℕ × QuicStreamReceiver
pull_data r = pull_front r.ranges r

-- The two tests on a final size that is known already.
unfoldable pub breaks_final_size : Option ℕ → ℕ → Bool → Bool
breaks_final_size none frame_end fin = false
breaks_final_size (some size) frame_end fin = ltb size frame_end || (fin && not (frame_end == size))

abbrev pub is_empty : List ℕ → Bool
is_empty [] = true
is_empty (x ∷ xs) = false

-- `return data from the front of the buffer`
unfoldable pub deliver :
    QuicStreamReceiver → Result (Option StreamDataReceived) × QuicStreamReceiver
deliver r =
    let (bytes, r') = pull_data r in
    let end_stream = eq_some r'.final_size r'.buffer_start in
    (
      ok (
          if not (is_empty bytes) || end_stream
          then some (record { bytes = bytes; end_stream = end_stream; stream_id = r'.stream_id })
          else none),
      record r' { is_finished = end_stream || r'.is_finished },
    )

-- From `marked received range` on, for a frame that starts at `offset`, not below the buffer.
abbrev store :
    QuicStreamReceiver
    → List ℕ
    → ℕ
    → Result RangeSet
    → Result (Option StreamDataReceived) × QuicStreamReceiver
store r bytes offset (raise e) = (raise e, r)
store r bytes offset (ok ranges) =
    let pos = offset - r.buffer_start in
    deliver (record r { ranges = ranges; buffer = assign_slice (fill_to pos r.buffer) pos bytes })

-- A frame that passed the tests on the final size, after these are recorded.
unfoldable pub accept_frame :
    QuicStreamReceiver → QuicStreamFrame → Result (Option StreamDataReceived) × QuicStreamReceiver
accept_frame r frame =
    let count = length frame.bytes in
    let frame_end = frame.offset + count in
    -- discard duplicate data
    let late = ltb frame.offset r.buffer_start in
    let bytes = if late then drop (r.buffer_start - frame.offset) frame.bytes else frame.bytes in
    let offset = if late then r.buffer_start else frame.offset in
    let marked = if ltb offset frame_end then add r.ranges offset frame_end else ok r.ranges in
    if (frame.offset == r.buffer_start) && (not (count == 0) && is_empty r.buffer)
    then (
      ok (some (record { bytes = frame.bytes; end_stream = frame.fin; stream_id = r.stream_id })),
      record r { buffer_start = r.buffer_start + count; is_finished = frame.fin || r.is_finished },
    )
    else store r bytes offset marked

-- `_final_size` and `highest_offset` after a frame that ends at `frame_end`.
abbrev record_end : QuicStreamReceiver → ℕ → Bool → QuicStreamReceiver
record_end r frame_end fin = record r {
  final_size = if fin then some frame_end else r.final_size;
  highest_offset = if ltb r.highest_offset frame_end then frame_end else r.highest_offset;
}

unfoldable pub handle_frame :
    QuicStreamReceiver → QuicStreamFrame → Result (Option StreamDataReceived) × QuicStreamReceiver
handle_frame r frame =
    let frame_end = frame.offset + length frame.bytes in
    if breaks_final_size r.final_size frame_end frame.fin
    then (raise final_size_error, r)
    else accept_frame (record_end r frame_end frame.fin) frame

-- `self._final_size is not None and final_size != self._final_size`
abbrev other_size : Option ℕ → ℕ → Bool
other_size none size = false
other_size (some n) size = not (size == n)

pub handle_reset : QuicStreamReceiver → ℕ → ℕ → Result StreamReset × QuicStreamReceiver
handle_reset r final_size error_code =
    if other_size r.final_size final_size then (raise final_size_error, r) else (
      ok (record { error_code = error_code; stream_id = r.stream_id }),
      record r { final_size = some final_size; is_finished = true },
    )

abbrev pub on_stop_sending_delivery : QuicStreamReceiver → QuicDeliveryState → QuicStreamReceiver
on_stop_sending_delivery r acked = r
on_stop_sending_delivery r lost = record r { stop_pending = true }

abbrev pub stop : QuicStreamReceiver → ℕ → QuicStreamReceiver
stop r error_code = record r { stop_error_code = some error_code; stop_pending = true }
