-- ===== src/Connection/Closing/Frame.antt =====
-- CONNECTION_CLOSE frames as `_write_connection_close_frame` of src/aioquic/quic/connection.py writes
-- them and `_handle_connection_close_frame` reads them. A text is the list of its bytes in UTF-8.
use aioquic.Base.{
  ℕ, ◌+◌, ◌-◌, ◌*◌, Bool, true, false, not, ◌&&◌, ◌||◌, Option, none, some, List, [], ◌∷◌, ltb, leb,
  ◌==◌, length, is_none, if◌then◌else◌,
}
use aioquic.Base.Exception.{Result, ok, ◌>>=◌, ◌>>◌, ensure, packet_builder_stop}
use aioquic.Buffer.{Buffer, pull_uint_var, pull_bytes, push_uint_var, push_bytes}

-- `tls.Epoch`
pub data Epoch : Type 0 where
  initial zero_rtt handshake one_rtt : Epoch

pub record ConnectionTerminated : Type 0 where
  pub error_code : ℕ
  pub frame_type : Option ℕ
  pub reason_phrase : List ℕ

-- The continuation bytes that `decode("utf8")` allows after a first byte: the range of the next one,
-- and how many there are.
pub record Sequence : Type 0 where
  pub low : ℕ
  pub high : ℕ
  pub count : ℕ

abbrev pub within : ℕ → ℕ → ℕ → Bool
within low high b = leb low b && leb b high

abbrev pub sequence_of : ℕ → Option Sequence
sequence_of b =
    if ltb b 0x80
    then some (record { low = 0x80; high = 0xBF; count = 0 })
    else if within 0xC2 0xDF b
    then some (record { low = 0x80; high = 0xBF; count = 1 })
    else if b == 0xE0
    then some (record { low = 0xA0; high = 0xBF; count = 2 })
    else if b == 0xED
    then some (record { low = 0x80; high = 0x9F; count = 2 })
    else if within 0xE1 0xEF b
    then some (record { low = 0x80; high = 0xBF; count = 2 })
    else if b == 0xF0
    then some (record { low = 0x90; high = 0xBF; count = 3 })
    else if within 0xF1 0xF3 b
    then some (record { low = 0x80; high = 0xBF; count = 3 })
    else if b == 0xF4
    then some (record { low = 0x80; high = 0x8F; count = 3 })
    else none

-- The state between two bytes, or `none` after a byte that is not allowed.
abbrev pub next_byte : Sequence → ℕ → Option Sequence
next_byte s b =
    if s.count == 0
    then sequence_of b
    else if within s.low s.high b
    then some (record { low = 0x80; high = 0xBF; count = s.count - 1 })
    else none

abbrev pub decodes_from : Option Sequence → List ℕ → Bool
decodes_from none bytes = false
decodes_from (some s) [] = s.count == 0
decodes_from (some s) (b ∷ bytes) = decodes_from (next_byte s b) bytes

unfoldable pub decodes : List ℕ → Bool
decodes bytes = decodes_from (some (record { low = 0x80; high = 0xBF; count = 0 })) bytes

-- `try: ... .decode("utf8") except UnicodeDecodeError: ""`
unfoldable pub decode_reason : List ℕ → List ℕ
decode_reason bytes = if decodes bytes then bytes else []

unfoldable pub pull_frame_type : ℕ → Buffer → Result (Option ℕ × Buffer)
pull_frame_type frame_type b =
    if frame_type == 0x1C then (pull_uint_var b >>= λ (n, b'). ok (some n, b')) else ok (none, b)

unfoldable pub pull_connection_close : ℕ → Buffer → Result (ConnectionTerminated × Buffer)
pull_connection_close frame_type b = do
  (error_code, b) ← pull_uint_var b
  (frame_type, b) ← pull_frame_type frame_type b
  (reason_length, b) ← pull_uint_var b
  (reason, b) ← pull_bytes b reason_length
  ok (
    record {
      error_code = error_code;
      frame_type = frame_type;
      reason_phrase = decode_reason reason;
    },
    b,
  )

abbrev pub is_early : Epoch → Bool
is_early initial = true
is_early handshake = true
is_early _ = false

-- An application-level close is APPLICATION_ERROR with PADDING in the early stages.
abbrev pub convert : Epoch → ConnectionTerminated → ConnectionTerminated
convert epoch event =
    if is_none event.frame_type && is_early epoch
    then record { error_code = 0xC; frame_type = some 0x0; reason_phrase = [] }
    else event

-- `start_frame` of the packet builder, where `space` is its `remaining_buffer_space`; a frame that
-- closes the connection is not in flight.
abbrev pub start_frame : ℕ → ℕ → ℕ → Buffer → Result Buffer
start_frame space frame_type capacity b =
    ensure (leb capacity space) packet_builder_stop >> push_uint_var b frame_type

-- The capacity that is asked for.
abbrev pub capacity_of : ConnectionTerminated → ℕ
capacity_of event =
    (if is_none event.frame_type then 1 + 2 * 8 else 1 + 3 * 8) + length event.reason_phrase

abbrev pub push_close : ℕ → ConnectionTerminated → Option ℕ → Buffer → Result Buffer
push_close space event none b = do
  b ← start_frame space 0x1D (capacity_of event) b
  b ← push_uint_var b event.error_code
  b ← push_uint_var b (length event.reason_phrase)
  push_bytes b event.reason_phrase
push_close space event (some frame_type) b = do
  b ← start_frame space 0x1C (capacity_of event) b
  b ← push_uint_var b event.error_code
  b ← push_uint_var b frame_type
  b ← push_uint_var b (length event.reason_phrase)
  push_bytes b event.reason_phrase

unfoldable pub write_connection_close_frame :
    ℕ → Epoch → ConnectionTerminated → Buffer → Result Buffer
write_connection_close_frame space epoch event b =
    push_close space (convert epoch event) (convert epoch event).frame_type b

-- The epochs in which `_after_payload` takes a frame that closes the connection, by its type.
abbrev pub is_allowed : ℕ → Epoch → Bool
is_allowed frame_type epoch = frame_type == 0x1C || not (is_early epoch)
