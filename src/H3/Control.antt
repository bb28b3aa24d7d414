-- ===== src/H3/Control.antt =====
-- _handle_control_frame of src/aioquic/h3/connection.py, and _receive_datagram.
pub mod Order
use aioquic.Base.{
  ℕ, zero, suc, ◌+◌, ◌*◌, Bool, true, false, not, ◌&&◌, ◌||◌, Option, none, some, List, [], ◌∷◌,
  ◌==◌, leb, if◌then◌else◌, drop,
}
use aioquic.Base.Exception.{Result, ok, raise}
use aioquic.Base.Run.{Run, ◌>>=◌, ◌>>◌, get, modify, throw, refuse, return, lift}
use aioquic.Buffer.{Buffer, new, tell, pull_uint_var}
use aioquic.H3.{
  H3Event, datagram_received, frame_unexpected, missing_settings_error, datagram_error,
}
use aioquic.H3.Settings.{Settings, lookup, parse_settings, parse_max_push_id, validate_settings}
use aioquic.H3.State.{Qpack, H3Connection, send_local}

-- `settings.get(setting, 0)`
abbrev pub get_or_zero : ℕ → Settings → ℕ
get_or_zero setting settings = elim (lookup setting settings) [ none ↦ 0 | some value ↦ value ]

-- DATA, HEADERS, PUSH_PROMISE and DUPLICATE_PUSH.
abbrev pub is_unexpected : ℕ → Bool
is_unexpected frame_type = leb frame_type 0x1 || ((frame_type == 0x5) || (frame_type == 0xE))

module _ {D E : Type 0} where
  unfoldable pub receive_max_push_id : List ℕ → Run (H3Connection D E) (Unit {0})
  receive_max_push_id frame_data = do
    c ← get
    refuse c.is_client frame_unexpected
    max_push_id ← lift (parse_max_push_id frame_data)
    modify (λ c. record c { max_push_id = some max_push_id })

module _ {D E : Type 0} (q : Qpack D E) where
  -- `self._encoder.apply_settings`, and its bytes on the encoder stream.
  unfoldable pub apply_settings : Settings → Run (H3Connection D E) (Unit {0})
  apply_settings settings = λ c.
      let (bytes, encoder) =
        q.apply_settings c.encoder (get_or_zero 0x1 settings) (get_or_zero 0x7 settings) in
      send_local c.local_encoder_stream_id bytes (record c { encoder = encoder })

  unfoldable pub receive_settings : List ℕ → Run (H3Connection D E) (Unit {0})
  receive_settings frame_data = do
    c ← get
    refuse c.settings_received frame_unexpected
    settings ← lift (parse_settings frame_data)
    lift (validate_settings c.quic.remote_max_datagram_frame_size settings)
    modify (λ c. record c { received_settings = some settings })
    apply_settings settings
    modify (λ c. record c { settings_received = true })

  unfoldable pub handle_control_frame : ℕ → List ℕ → Run (H3Connection D E) (Unit {0})
  handle_control_frame frame_type frame_data = do
    c ← get
    refuse (not (frame_type == 0x4) && not c.settings_received) missing_settings_error
    if frame_type == 0x4
        then receive_settings frame_data
        else if frame_type == 0xD
        then receive_max_push_id frame_data
        else if is_unexpected frame_type
        then throw frame_unexpected
        else return tt

-- `except BufferReadError`
abbrev pub datagram_of : List ℕ → Result (ℕ × Buffer) → Result (List H3Event)
datagram_of bytes (raise e) = raise datagram_error
datagram_of bytes (ok (quarter_stream_id, b)) =
    ok (datagram_received (drop (tell b) bytes) (quarter_stream_id * 4) ∷ [])

unfoldable pub receive_datagram : List ℕ → Result (List H3Event)
receive_datagram bytes = datagram_of bytes (pull_uint_var (new bytes))
