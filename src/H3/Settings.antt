-- ===== src/H3/Settings.antt =====
-- Frames and settings of src/aioquic/h3/connection.py: encode_frame, encode_settings,
-- parse_settings, parse_max_push_id and _validate_settings. A dictionary of settings is the list of
-- its items in the order in which they were added. What is encoded does not depend on what `malloc`
-- returned for the buffer, so a new buffer holds zeros.
pub mod RoundTrip
pub mod Parsing
use aioquic.Base.{
  ℕ, zero, suc, ◌+◌, ◌*◌, Bool, true, false, not, ◌&&◌, ◌||◌, Option, none, some, List, [], ◌∷◌,
  ◌++◌, leb, ◌==◌, if◌then◌else◌, length, replicate, eq_some, is_none,
}
use aioquic.Base.Exception.{Result, ok, raise, ◌>>=◌, ◌>>◌, ensure, assertion_error}
use aioquic.Buffer.{
  Buffer, pull_bytes, new, written, eof, pull_uint_var, push_uint_var, push_bytes, encode_uint_var,
}
use aioquic.H3.{settings_error}

abbrev pub zeros : ℕ → List ℕ
zeros n = replicate n 0

unfoldable pub encode_frame : ℕ → List ℕ → Result (List ℕ)
encode_frame frame_type frame_data = do
  b ← push_uint_var (new (zeros (length frame_data + 2 * 8))) frame_type
  b ← push_uint_var b (length frame_data)
  b ← push_bytes b frame_data
  ok (written b)

-- A frame that is read whole, as on a control stream.
unfoldable pub pull_frame : Buffer → Result ((ℕ × List ℕ) × Buffer)
pull_frame b = do
  (frame_type, b) ← pull_uint_var b
  (frame_length, b) ← pull_uint_var b
  (frame_data, b) ← pull_bytes b frame_length
  ok ((frame_type, frame_data), b)

-- `encode_uint_var` of src/aioquic/buffer.py.
abbrev pub uint_var_of : ℕ → Result (List ℕ)
uint_var_of value = encode_uint_var (zeros 8) value

abbrev pub Settings : Type 0
Settings = List (ℕ × ℕ)

-- The loop of `encode_settings`.
unfoldable pub push_settings : Settings → Buffer → Result Buffer
push_settings [] b = ok b
push_settings ((setting, value) ∷ settings) b = do
  b ← push_uint_var b setting
  b ← push_uint_var b value
  push_settings settings b

unfoldable pub encode_settings : Settings → Result (List ℕ)
encode_settings settings = push_settings settings (new (zeros 1024)) >>= λ b. ok (written b)

unfoldable pub parse_max_push_id : List ℕ → Result ℕ
parse_max_push_id bytes = do
  (max_push_id, b) ← pull_uint_var (new bytes)
  ensure (eof b) assertion_error
  ok max_push_id

-- `settings.get(setting)`
abbrev pub lookup : ℕ → Settings → Option ℕ
lookup setting [] = none
lookup setting ((key, value) ∷ settings) =
    if setting == key then some value else lookup setting settings

-- `setting in RESERVED_SETTINGS`
abbrev pub is_reserved : ℕ → Bool
is_reserved setting = (setting == 0) || (leb 2 setting && leb setting 5)

-- The loop of `parse_settings`, with as many rounds as there are bytes: a round reads two.
unfoldable pub parse_from : ℕ → Buffer → Settings → Result Settings
parse_from zero b settings = ok settings
parse_from (suc fuel) b settings = if eof b then ok settings else do
  (setting, b) ← pull_uint_var b
  (value, b) ← pull_uint_var b
  ensure (not (is_reserved setting)) settings_error
  ensure (is_none (lookup setting settings)) settings_error
  parse_from fuel b (settings ++ ((setting, value) ∷ []))

unfoldable pub parse_settings : List ℕ → Result Settings
parse_settings bytes = parse_from (length bytes) (new bytes) []

-- `setting in settings and settings[setting] not in (0, 1)`
abbrev pub not_boolean : ℕ → Settings → Bool
not_boolean setting settings = elim (lookup setting settings) [
  | none ↦ false
  | some value ↦ not (leb value 1)
]

-- `remote_max_datagram_frame_size` is the connection's. The settings are those of
-- ENABLE_CONNECT_PROTOCOL, ENABLE_WEBTRANSPORT and H3_DATAGRAM.
unfoldable pub validate_settings : Option ℕ → Settings → Result (Unit {0})
validate_settings remote_max_datagram_frame_size settings = do
  ensure (not (not_boolean 0x8 settings)) settings_error
  ensure (not (not_boolean 0x2B603742 settings)) settings_error
  ensure (not (not_boolean 0x33 settings)) settings_error
  ensure (not (eq_some (lookup 0x33 settings) 1 && is_none remote_max_datagram_frame_size))
      settings_error
  ensure (not (eq_some (lookup 0x2B603742 settings) 1 && not (eq_some (lookup 0x33 settings) 1)))
      settings_error
