-- ===== src/H3.antt =====
-- src/aioquic/h3/connection.py and src/aioquic/h3/events.py: the codes of HTTP/3, its events, and
-- the parts that the children model. A ProtocolError is its error code.
pub mod Name
pub mod Headers
pub mod Settings
pub mod State
pub mod Request
pub mod Frames
pub mod Control
pub mod Uni
pub mod Connection
pub mod Sending
pub mod Errors
pub mod Message
mod Examples
use aioquic.Base.{ℕ, Option, Bool, List}
use aioquic.Base.Exception.{Exception, protocol_error}

-- ErrorCode, as the exceptions that carry them.
abbrev pub general_protocol_error : Exception
general_protocol_error = protocol_error 0x101

abbrev pub stream_creation_error : Exception
stream_creation_error = protocol_error 0x103

abbrev pub closed_critical_stream : Exception
closed_critical_stream = protocol_error 0x104

abbrev pub frame_unexpected : Exception
frame_unexpected = protocol_error 0x105

abbrev pub settings_error : Exception
settings_error = protocol_error 0x109

abbrev pub missing_settings_error : Exception
missing_settings_error = protocol_error 0x10A

abbrev pub message_error : Exception
message_error = protocol_error 0x10E

abbrev pub datagram_error : Exception
datagram_error = protocol_error 0x33

abbrev pub qpack_decompression_failed : Exception
qpack_decompression_failed = protocol_error 0x200

abbrev pub qpack_encoder_stream_error : Exception
qpack_encoder_stream_error = protocol_error 0x201

abbrev pub qpack_decoder_stream_error : Exception
qpack_decoder_stream_error = protocol_error 0x202

-- A header is a name and a value.
abbrev pub Headers : Type 0
Headers = List (List ℕ × List ℕ)

pub data H3Event : Type 0 where
  -- data or headers, push_id, stream_id, stream_ended
  data_received : List ℕ → Option ℕ → ℕ → Bool → H3Event
  headers_received : Headers → Option ℕ → ℕ → Bool → H3Event
  -- headers, push_id, stream_id
  push_promise_received : Headers → ℕ → ℕ → H3Event
  -- data, session_id, stream_id, stream_ended
  web_transport_stream_data_received : List ℕ → ℕ → ℕ → Bool → H3Event
  -- data, stream_id
  datagram_received : List ℕ → ℕ → H3Event
