-- ===== src/Connection/FlowControl/Examples.antt =====
-- Received STREAM frames, within the limits and beyond them.
use aioquic.Base.{◌≡◌, refl, arith, false, [], ◌∷◌, some}
use aioquic.Base.Exception.{raise, quic_connection_error}
use aioquic.Stream.{QuicStreamFrame}
use aioquic.Stream.Receiver as Receiver
use aioquic.Stream.Receiver.{QuicStreamReceiver, handle_frame, accept_frame, breaks_final_size}
use aioquic.Connection.FlowControl.{
  Limit, receive_stream_frame, IsControlled, receive_stream_frame-IsControlled,
}

abbrev limit : Limit
limit = record { sent = 100; used = 40; value = 100 }

abbrev empty : QuicStreamReceiver
empty = Receiver.init (some 0)

abbrev frame : QuicStreamFrame
frame = record { bytes = 1 ∷ 2 ∷ []; fin = false; offset = 0 }

abbrev after : QuicStreamReceiver
after = record empty { highest_offset = 2; buffer_start = 2 }

over_stream_limit : (receive_stream_frame limit 1 empty frame).0 ≡ raise (quic_connection_error 3)
unfolding receive_stream_frame
over_stream_limit = refl

over_connection_limit :
    (receive_stream_frame (record limit { value = 41 }) 50 empty frame).0
    ≡ raise (quic_connection_error 3)
unfolding receive_stream_frame
over_connection_limit = refl

receive_stream_frame-IsControlled_example : IsControlled 40 50 (record limit { used = 42 }) after
unfolding receive_stream_frame handle_frame accept_frame breaks_final_size
receive_stream_frame-IsControlled_example =
    receive_stream_frame-IsControlled 40 50 limit (record limit { used = 42 }) empty after frame
      (some (record { bytes = 1 ∷ 2 ∷ []; end_stream = false; stream_id = some 0 }))
      (record { counted = refl; connection = omega arith; stream = omega arith }) refl
