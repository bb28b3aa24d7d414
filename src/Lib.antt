-- ===== src/Lib.antt =====
-- aioquic: QUIC, TLS 1.3 and HTTP/3 in Python (src/aioquic). This library models parts of the QUIC
-- layer, the buffer below it, and HTTP/3 above it.
--
-- How the program's parts interact: a QuicConnection (src/aioquic/quic/connection.py) reads
-- datagrams with pull_quic_header and a Buffer, and passes the frames of a packet to handlers;
-- STREAM frames go to the QuicStreamReceiver of a stream, which keeps the ranges that arrived in a
-- RangeSet and hands over bytes in order. What the application writes goes to a QuicStreamSender,
-- which cuts frames out of the pending ranges when a packet is built. QuicPacketRecovery keeps the
-- packets that were sent; when one is acknowledged or lost it calls the delivery handlers that the
-- packet carries, which is how the sender learns that bytes arrived or have to be sent again, and
-- it tells the congestion control algorithm. ACK frames are made of the RangeSet of the packet
-- numbers that were received. An H3Connection takes the events of the QuicConnection, parses the
-- frames of HTTP/3 out of the streams' data, and calls the QuicConnection to send.
--
-- Which file models which part:
--   Base, Base/*            Python: exceptions (Exception), slices of byte strings (Slices), list and
--                           comparison helpers
--   RangeSet                src/aioquic/quic/rangeset.py: RangeSet as a list of ranges; add, subtract,
--                           shift, bounds and __contains__ by the names of the methods
--   Stream                  the frames of src/aioquic/quic/packet.py that streams use, and
--                           QuicDeliveryState of src/aioquic/quic/packet_builder.py
--   Stream/Receiver         QuicStreamReceiver of src/aioquic/quic/stream.py; handle_frame is the whole
--                           method, composed of its parts in the order of the code
--   Stream/Sender           QuicStreamSender of the same file; Sender/System adds the frames in flight
--                           as _write_stream_frame of src/aioquic/quic/connection.py registers them,
--                           and those that it drops where a packet has no room for them
--   Buffer                  src/aioquic/_buffer.c and src/aioquic/buffer.py
--   Packet/Number, Packet/Ack, Packet/Header
--                           decode_packet_number, pull_ack_frame and push_ack_frame, and
--                           pull_quic_header with encode_long_header_first_byte, of
--                           src/aioquic/quic/packet.py
--   Packet/TransportParameters
--                           the transport parameters of the same file
--   Packet/Encoding         encode_quic_retry, get_retry_integrity_tag and encode_quic_version_negotiation
--                           of the same file
--   Connection/StreamFrame  the bytes of STREAM frames, as _write_stream_frame and _handle_stream_frame
--                           of src/aioquic/quic/connection.py write and read them
--   Connection/Streams      QuicStream, the streams that either side opens and the limits on their number
--   Connection/PeerCids     the connection identifiers that the peer issued, of the same file, with the
--                           RETIRE_CONNECTION_ID frames in flight (PeerCids/Runs)
--   Connection/HostCids     those that this endpoint issued; HostCids/RoundTrip joins the two
--   Connection/Closing      the end of a connection: close, _close_begin, _close_end, get_timer,
--                           handle_timer and what the handling of datagrams does to the state
--                           (Closing/State, Closing/Timer), CONNECTION_CLOSE frames (Closing/Frame), and
--                           the steps that a connection takes (Closing/System)
--   Connection/FlowControl  the limits that _handle_stream_frame checks before it passes a frame on
--   Congestion              the interface of src/aioquic/quic/congestion/base.py, as operations with
--                           what each does to the bytes in flight; Congestion/Reno is
--                           src/aioquic/quic/congestion/reno.py and fills the interface
--   Recovery                QuicPacketSpace and QuicPacketRecovery of src/aioquic/quic/recovery.py,
--                           over any algorithm of the interface: the round trip time (Rtt), packets
--                           that are sent, discarded and lost (Space), on_ack_received and _detect_loss
--                           (Acks), and the timer over all spaces (LossTimer)
--
--   H3, H3/Name             the error codes, the events and the byte strings of
--                           src/aioquic/h3/connection.py and src/aioquic/h3/events.py, which all of
--                           H3/* is about
--   H3/Headers, H3/Settings validate_header_name to validate_trailers; encode_frame, the settings and
--                           their validation
--   H3/State                H3Stream, H3Connection and the part of QuicConnection that they use, with
--                           the calls of it as a list; pylsqpack as a record of functions
--   H3/Request, H3/Frames   _handle_request_or_push_frame, and _receive_request_or_push_data with its
--                           loop over the frames
--   H3/Control, H3/Uni      _handle_control_frame and _receive_datagram; _receive_stream_data_uni
--   H3/Connection, H3/Sending
--                           handle_event and what it calls; the operations that send, and __init__
--   H3/Message              the order of the events of a message, and that a stream's data keeps to it
--   H3/Errors               which exceptions leave handle_event
--
-- How the code is read: a method that mutates an object is a function from its state to the state
-- afterwards; one that may raise returns a Result, beside the state where it mutates before it
-- raises; HTTP/3 is written with such calls (Base/Run), a stream being changed where the dictionary
-- of streams holds it. Numbers are natural numbers: a difference that may be negative is compared
-- with its subtrahend on the other side. Masks and shifts of bytes are remainders and divisions.
-- Buffers have a fixed size, and a number that is pushed is cut to its width, as the argument
-- parsing of the C code does. Times are whole microseconds where the code has floating point
-- seconds; so the averages of the round trip time and 9/8 of it round down. The dictionary of sent
-- packets is the list of its values in increasing order of packet number, and its delivery handlers
-- are numbers, whose calls are returned.
--
-- Bounds and fuel: the loops are recursion over the list that they consume, or on a number of
-- rounds that suffices: twice the bytes and one for the frames of HTTP/3 (H3/Frames/Rounds), the
-- bytes for its settings. pull_versions is recursion on the number of bytes left, and a round reads
-- four (Packet/Header/Fuel). New connection identifiers are issued in eight rounds, as there are at
-- most eight (Connection/HostCids/Retired). A packet number or an integer in a buffer is below
-- 2^62, which is what a variable-length integer holds.
--
-- What is not modelled: the encryption of packets (src/aioquic/quic/crypto.py,
-- src/aioquic/_crypto.c), TLS (src/aioquic/tls.py), the connection but for its STREAM frames, its
-- streams and their limits, its connection identifiers and its end, packet_builder.py but for its
-- record of a sent packet and start_frame, Cubic (floating point cube roots), the pacer (floating
-- point rates), logging, HTTP/0.9, and the asyncio API, which is glue to sockets and timers. The
-- encoder and the decoder of pylsqpack are parameters (H3/State), as are AES-GCM and os.urandom
-- (Packet/Encoding, Connection/HostCids), and the callback for the dynamic table is left out.
-- pull_ack_frame stops with below_zero where the code goes on with negative packet numbers, which a
-- RangeSet of natural numbers cannot hold. A buffer that raised an exception is not looked at
-- again.
pub mod Base
pub mod Buffer
pub mod Congestion
pub mod Connection
pub mod H3
pub mod Packet
pub mod RangeSet
pub mod Recovery
pub mod Stream
