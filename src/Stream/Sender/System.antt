-- ===== src/Stream/Sender/System.antt =====
-- A QuicStreamSender with the network: the frames in flight, the frames that were taken from the
-- sender but put into no packet, and the frames ever sent. A step is a call of the connection
-- (`_write_stream_frame` of src/aioquic/quic/connection.py, and the delivery handlers); `content` is
-- what the application writes.
use aioquic.Base.{ℕ, ◌+◌, ◌≡◌, Bool, true, List, [], ◌∷◌, ◌++◌, Option, none, some, length}
use aioquic.Base.Exception.{ok}
use aioquic.Base.Slices.{segment}
use aioquic.Stream.{QuicStreamFrame, QuicDeliveryState}
use aioquic.Stream.Sender.{QuicStreamSender, init, write, get_frame, on_data_delivery}

-- The arguments that a packet keeps for `on_data_delivery`.
pub record Flight : Type 0 where
  pub start : ℕ
  pub stop : ℕ
  pub fin : Bool

abbrev pub flight_of : QuicStreamFrame → Flight
flight_of frame = record {
  start = frame.offset;
  stop = frame.offset + length frame.bytes;
  fin = frame.fin;
}

pub record System : Type 0 where
  pub sender : QuicStreamSender
  pub in_flight : List Flight
  pub dropped : List Flight
  pub sent : List QuicStreamFrame

abbrev pub initial : Option ℕ → System
initial stream_id = record { sender = init stream_id true; in_flight = []; dropped = []; sent = [] }

-- The steps of a stream that is not reset. Each call returns normally.
pub data Step (content : ℕ → ℕ) (y : System) : System → Type 0 where
  -- the application writes the next `n` bytes
  writes :
      (n : ℕ) (end_stream : Bool) (s : QuicStreamSender)
      → write y.sender (segment content y.sender.buffer_stop n) end_stream ≡ (ok tt, s)
      → Step content y (record y { sender = s })
  -- a frame goes into a packet
  sends :
      (max_size : ℕ) (max_offset : Option ℕ) (frame : QuicStreamFrame) (s : QuicStreamSender)
      → get_frame y.sender max_size max_offset ≡ (ok (some frame), s)
      → Step content y (record y {
        sender = s;
        in_flight = flight_of frame ∷ y.in_flight;
        sent = frame ∷ y.sent;
      })
  -- `start_frame` raises QuicPacketBuilderStop after `get_frame` made the frame. There is room for a
  -- frame with bytes, since `max_size` is what the packet has left over the frame's header.
  drops :
      (max_size : ℕ) (max_offset : Option ℕ) (frame : QuicStreamFrame) (s : QuicStreamSender)
      → get_frame y.sender max_size max_offset ≡ (ok (some frame), s)
      → frame.bytes ≡ []
      → Step content y (record y { sender = s; dropped = flight_of frame ∷ y.dropped })
  -- there is no frame to send
  idles :
      (max_size : ℕ) (max_offset : Option ℕ) (s : QuicStreamSender)
      → get_frame y.sender max_size max_offset ≡ (ok none, s)
      → Step content y (record y { sender = s })
  -- a packet is acknowledged, or declared lost
  reports :
      (delivery : QuicDeliveryState) (front : List Flight) (f : Flight) (back : List Flight)
      (s : QuicStreamSender)
      → y.in_flight ≡ front ++ (f ∷ back)
      → on_data_delivery y.sender delivery f.start f.stop f.fin ≡ (ok tt, s)
      → Step content y (record y { sender = s; in_flight = front ++ back })

pub data Reach (content : ℕ → ℕ) (y : System) : System → Type 0 where
  here : Reach content y y
  next : {z w : System} → Reach content y z → Step content z w → Reach content y w
