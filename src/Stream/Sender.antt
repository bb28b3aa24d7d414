-- ===== src/Stream/Sender.antt =====
-- QuicStreamSender of src/aioquic/quic/stream.py. A method that mutates the sender and may raise
-- returns its result beside the sender that it leaves.
pub mod System
pub mod Places
pub mod Frames
pub mod Delivery
pub mod Ends
pub mod Finish
pub mod Awake
pub mod Dropped
pub mod Sound
pub mod Runs
mod Examples
use aioquic.Base.{
  ℕ, ◌+◌, ◌-◌, Bool, true, false, not, ◌&&◌, ◌||◌, List, [], ◌∷◌, ◌++◌, Option, none, some, ltb,
  leb, ◌==◌, min, if◌then◌else◌, eq_some, is_none, length, drop,
}
use aioquic.Base.Exception.{Result, ok, raise, assertion_error, type_error}
use aioquic.Base.Slices.{slice}
use aioquic.RangeSet.{Range, RangeSet, add, subtract}
use aioquic.Stream.{QuicStreamFrame, QuicResetStreamFrame, QuicDeliveryState, acked, lost}

pub record QuicStreamSender : Type 0 where
  pub buffer_is_empty : Bool
  pub highest_offset : ℕ
  pub is_finished : Bool
  pub reset_pending : Bool
  pub acked_ranges : RangeSet
  pub acked_fin : Bool
  pub buffer : List ℕ
  pub buffer_fin : Option ℕ
  pub buffer_start : ℕ
  pub buffer_stop : ℕ
  pub pending : RangeSet
  pub pending_eof : Bool
  pub reset_error_code : Option ℕ
  pub stream_id : Option ℕ

-- `__init__`
abbrev pub init : Option ℕ → Bool → QuicStreamSender
init stream_id writable = record {
  buffer_is_empty = true;
  highest_offset = 0;
  is_finished = not writable;
  reset_pending = false;
  acked_ranges = [];
  acked_fin = false;
  buffer = [];
  buffer_fin = none;
  buffer_start = 0;
  buffer_stop = 0;
  pending = [];
  pending_eof = false;
  reset_error_code = none;
  stream_id = stream_id;
}

abbrev offset_of : RangeSet → ℕ → ℕ
offset_of [] stop = stop
offset_of (r ∷ rs) stop = r.start

abbrev pub next_offset : QuicStreamSender → ℕ
next_offset s = offset_of s.pending s.buffer_stop

-- A frame with nothing but the FIN. Python would put a missing `_buffer_fin` into the frame as its
-- offset; here that is a TypeError, and the sender's invariant excludes it.
abbrev fin_only : Option ℕ → Result (Option QuicStreamFrame)
fin_only none = raise type_error
fin_only (some fin) = ok (some (record { bytes = []; fin = true; offset = fin }))

-- `apply flow control`: where the frame that starts at `start` may stop.
pub frame_stop : Range → ℕ → Option ℕ → ℕ
frame_stop r max_size none = min r.stop (r.start + max_size)
frame_stop r max_size (some max_offset) =
    let stop = min r.stop (r.start + max_size) in if ltb max_offset stop then max_offset else stop

-- From `create frame` on.
pub make_frame :
    QuicStreamSender → ℕ → ℕ → Result RangeSet → Result (Option QuicStreamFrame) × QuicStreamSender
make_frame s start stop (raise e) = (raise e, s)
make_frame s start stop (ok pending) =
    let fin = eq_some s.buffer_fin stop in
    (
      ok (
          some (record {
            bytes = slice s.buffer start s.buffer_start stop;
            fin = fin;
            offset = start;
          })),
      record s {
        pending = pending;
        highest_offset = if ltb s.highest_offset stop then stop else s.highest_offset;
        pending_eof = if fin then false else s.pending_eof;
      },
    )

abbrev frame_from :
    RangeSet → QuicStreamSender → ℕ → Option ℕ → Result (Option QuicStreamFrame) × QuicStreamSender
frame_from [] s max_size max_offset =
    if s.pending_eof
    then (fin_only s.buffer_fin, record s { pending_eof = false })
    else (ok none, record s { buffer_is_empty = true })
frame_from (r ∷ rs) s max_size max_offset =
    let stop = frame_stop r max_size max_offset in
    if leb stop r.start
    then (ok none, s)
    else make_frame s r.start stop (subtract s.pending r.start stop)

pub get_frame : QuicStreamSender → ℕ → Option ℕ → Result (Option QuicStreamFrame) × QuicStreamSender
get_frame s max_size max_offset =
    if is_none s.reset_error_code
    then frame_from s.pending s max_size max_offset
    else (raise assertion_error, s)

abbrev pub get_reset_frame : QuicStreamSender → QuicResetStreamFrame × QuicStreamSender
get_reset_frame s = (
  record {
    error_code = s.reset_error_code;
    final_size = s.highest_offset;
    stream_id = s.stream_id;
  },
  record s { reset_pending = false },
)

-- Acknowledged bytes at the front of the buffer are discarded. `_acked` is not empty here, since
-- a range was just added to it; so its first range can be read.
abbrev discard : RangeSet → QuicStreamSender → QuicStreamSender
discard [] s = record s { acked_ranges = [] }
discard (r ∷ rs) s =
    if r.start == s.buffer_start
    then record s {
      acked_ranges = rs;
      buffer_start = s.buffer_start + (r.stop - r.start);
      buffer = drop (r.stop - r.start) s.buffer;
    }
    else record s { acked_ranges = r ∷ rs }

-- The part of `on_data_delivery` after the bytes were acknowledged.
abbrev finish_acked : QuicStreamSender → Bool → QuicStreamSender
finish_acked s fin =
    let all_acked = fin || s.acked_fin in
    record s {
      acked_fin = all_acked;
      is_finished = (eq_some s.buffer_fin s.buffer_start && all_acked) || s.is_finished;
    }

abbrev on_acked : Result RangeSet → QuicStreamSender → Bool → Result (Unit {0}) × QuicStreamSender
on_acked (raise e) s fin = (raise e, s)
on_acked (ok ranges) s fin = (ok tt, finish_acked (discard ranges s) fin)

abbrev on_lost :
    Result RangeSet → Bool → QuicStreamSender → Bool → Result (Unit {0}) × QuicStreamSender
on_lost (raise e) some_bytes s fin = (raise e, s)
on_lost (ok ranges) some_bytes s fin = (
  ok tt,
  record s {
    buffer_is_empty = if some_bytes || fin then false else s.buffer_is_empty;
    pending = ranges;
    pending_eof = fin || s.pending_eof;
  },
)

pub deliver_data :
    QuicStreamSender → QuicDeliveryState → ℕ → ℕ → Bool → Result (Unit {0}) × QuicStreamSender
deliver_data s acked start stop fin =
    if ltb start stop
    then on_acked (add s.acked_ranges start stop) s fin
    else (ok tt, finish_acked s fin)
deliver_data s lost start stop fin =
    on_lost (if ltb start stop then add s.pending start stop else ok s.pending) (ltb start stop) s
      fin

pub on_data_delivery :
    QuicStreamSender → QuicDeliveryState → ℕ → ℕ → Bool → Result (Unit {0}) × QuicStreamSender
on_data_delivery s delivery start stop fin =
    if fin && not (eq_some s.buffer_fin stop)
    then (raise assertion_error, s)
    else if is_none s.reset_error_code
    then deliver_data s delivery start stop fin
    else (ok tt, s)

abbrev pub on_reset_delivery : QuicStreamSender → QuicDeliveryState → QuicStreamSender
on_reset_delivery s acked = record s { is_finished = true }
on_reset_delivery s lost = record s { reset_pending = true }

abbrev pub reset : QuicStreamSender → ℕ → QuicStreamSender
reset s error_code =
    if is_none s.reset_error_code
    then record s {
      reset_error_code = some error_code;
      reset_pending = true;
      buffer_is_empty = true;
    }
    else s

abbrev append_bytes :
    Result RangeSet → QuicStreamSender → List ℕ → Result (Unit {0}) × QuicStreamSender
append_bytes (raise e) s bytes = (raise e, record s { buffer_is_empty = false })
append_bytes (ok pending) s bytes = (
  ok tt,
  record s {
    buffer_is_empty = false;
    pending = pending;
    buffer = s.buffer ++ bytes;
    buffer_stop = s.buffer_stop + length bytes;
  },
)

abbrev write_bytes : QuicStreamSender → List ℕ → Result (Unit {0}) × QuicStreamSender
write_bytes s [] = (ok tt, s)
write_bytes s (x ∷ xs) =
    append_bytes (add s.pending s.buffer_stop (s.buffer_stop + length (x ∷ xs))) s (x ∷ xs)

abbrev write_end :
    Result (Unit {0}) × QuicStreamSender → Bool → Result (Unit {0}) × QuicStreamSender
write_end (raise e, s) end_stream = (raise e, s)
write_end (ok u, s) false = (ok tt, s)
write_end (ok u, s) true = (
  ok tt,
  record s { buffer_is_empty = false; buffer_fin = some s.buffer_stop; pending_eof = true },
)

pub write : QuicStreamSender → List ℕ → Bool → Result (Unit {0}) × QuicStreamSender
write s bytes end_stream =
    if is_none s.buffer_fin && is_none s.reset_error_code
    then write_end (write_bytes s bytes) end_stream
    else (raise assertion_error, s)
