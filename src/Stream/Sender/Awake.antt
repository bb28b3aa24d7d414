-- ===== src/Stream/Sender/Awake.antt =====
-- A QuicStreamSender with something to send is not passed over: `buffer_is_empty`, which
-- `_write_application` of src/aioquic/quic/connection.py tests first, is false.
use aioquic.Base.{ℕ, ◌≡◌, arith, Bool, true, false, not, ◌||◌, List, [], ◌∷◌, Option}
use aioquic.RangeSet.{RangeSet}
use aioquic.Stream.{QuicDeliveryState}
use aioquic.Stream.Sender.{
  QuicStreamSender, write, get_frame, make_frame, on_data_delivery, deliver_data,
}

-- Neither bytes nor a FIN are to be sent.
abbrev pub has_nothing : RangeSet → Bool → Bool
has_nothing [] pending_eof = not pending_eof
has_nothing (r ∷ rs) pending_eof = false

abbrev pub IsAwake : QuicStreamSender → Type 0
IsAwake s = (has_nothing s.pending s.pending_eof || not s.buffer_is_empty) ≡ true

pub write-IsAwake :
    (s : QuicStreamSender) (bytes : List ℕ) (e : Bool) → IsAwake s → IsAwake (write s bytes e).1
unfolding write
write-IsAwake s bytes e h = ground (arith, h)

pub get_frame-IsAwake :
    (s : QuicStreamSender) (max_size : ℕ) (max_offset : Option ℕ)
    → IsAwake s
    → IsAwake (get_frame s max_size max_offset).1
unfolding get_frame make_frame
get_frame-IsAwake s max_size max_offset h = ground (arith, h)

pub on_data_delivery-IsAwake :
    (s : QuicStreamSender) (d : QuicDeliveryState) (start stop : ℕ) (fin : Bool)
    → IsAwake s
    → IsAwake (on_data_delivery s d start stop fin).1
unfolding on_data_delivery deliver_data
on_data_delivery-IsAwake s d start stop fin h = ground (arith, h)
