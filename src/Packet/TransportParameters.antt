-- ===== src/Packet/TransportParameters.antt =====
-- The transport parameters of src/aioquic/quic/packet.py. An object of QuicTransportParameters is
-- the function from the identifiers of PARAMS to the values of its attributes, none for None and
-- for False. A host of the package ipaddress is its packed bytes.
pub mod Values
pub mod Writing
pub mod Reading
pub mod RoundTrip
mod Examples
use aioquic.Base.{
  ℕ, zero, suc, ◌+◌, ◌-◌, ◌/◌, Bool, true, false, not, ◌&&◌, ◌||◌, Option, none, some, List, [],
  ◌∷◌, ◌++◌, leb, ◌==◌, if◌then◌else◌, length, replicate,
}
use aioquic.Base.Bytes.{eq_bytes}
use aioquic.Base.Exception.{Result, ok, raise, ◌>>=◌, ◌>>◌, ensure, value_error}
use aioquic.Buffer.{
  Buffer, new, eof, tell, written, pull_bytes, pull_uint8, pull_uint16, pull_uint32, pull_uint_var,
  push_bytes, push_uint8, push_uint16, push_uint32, push_uint_var,
}

pub record QuicPreferredAddress : Type 0 where
  -- host and port
  pub ipv4_address : Option (List ℕ × ℕ)
  pub ipv6_address : Option (List ℕ × ℕ)
  pub connection_id : List ℕ
  pub stateless_reset_token : List ℕ

pub record QuicVersionInformation : Type 0 where
  pub chosen_version : ℕ
  pub available_versions : List ℕ

-- The types of PARAMS.
pub data ParamType : Type 0 where
  int_type bytes_type bool_type address_type version_type : ParamType

pub data Value : Type 0 where
  int_value : ℕ → Value
  bytes_value : List ℕ → Value
  -- True
  true_value : Value
  address_value : QuicPreferredAddress → Value
  version_value : QuicVersionInformation → Value

abbrev pub QuicTransportParameters : Type 0
QuicTransportParameters = ℕ → Option Value

-- PARAMS, in its order.
abbrev pub params : List (ℕ × ParamType)
params =
    (0x00, bytes_type)
    ∷ (0x01, int_type)
    ∷ (0x02, bytes_type)
    ∷ (0x03, int_type)
    ∷ (0x04, int_type)
    ∷ (0x05, int_type)
    ∷ (0x06, int_type)
    ∷ (0x07, int_type)
    ∷ (0x08, int_type)
    ∷ (0x09, int_type)
    ∷ (0x0A, int_type)
    ∷ (0x0B, int_type)
    ∷ (0x0C, bool_type)
    ∷ (0x0D, address_type)
    ∷ (0x0E, int_type)
    ∷ (0x0F, bytes_type)
    ∷ (0x10, bytes_type)
    ∷ (0x11, version_type)
    ∷ (0x0020, int_type)
    ∷ (0x0C37, bytes_type)
    ∷ []

abbrev pub type_of : List (ℕ × ParamType) → ℕ → Option ParamType
type_of [] param_id = none
type_of ((id, param_type) ∷ rest) param_id =
    if param_id == id then some param_type else type_of rest param_id

-- `setattr`
abbrev pub set_param : QuicTransportParameters → ℕ → Value → QuicTransportParameters
set_param p param_id value = λ i. if i == param_id then some value else p i

-- A host and its port, or None where all its bytes are zero.
unfoldable pub pull_address : ℕ → Buffer → Result (Option (List ℕ × ℕ) × Buffer)
pull_address size b = do
  (host, b) ← pull_bytes b size
  (port, b) ← pull_uint16 b
  ok (if eq_bytes host (replicate size 0) then none else some (host, port), b)

unfoldable pub pull_quic_preferred_address : Buffer → Result (QuicPreferredAddress × Buffer)
pull_quic_preferred_address b = do
  (ipv4_address, b) ← pull_address 4 b
  (ipv6_address, b) ← pull_address 16 b
  (connection_id_length, b) ← pull_uint8 b
  (connection_id, b) ← pull_bytes b connection_id_length
  (stateless_reset_token, b) ← pull_bytes b 16
  ok (
    record {
      ipv4_address = ipv4_address;
      ipv6_address = ipv6_address;
      connection_id = connection_id;
      stateless_reset_token = stateless_reset_token;
    },
    b,
  )

abbrev pub push_address : ℕ → Option (List ℕ × ℕ) → Buffer → Result Buffer
push_address size none b = push_bytes b (replicate (size + 2) 0)
push_address size (some (host, port)) b = push_bytes b host >>= λ b. push_uint16 b port

unfoldable pub push_quic_preferred_address : QuicPreferredAddress → Buffer → Result Buffer
push_quic_preferred_address a b = do
  b ← push_address 4 a.ipv4_address b
  b ← push_address 16 a.ipv6_address b
  b ← push_uint8 b (length a.connection_id)
  b ← push_bytes b a.connection_id
  push_bytes b a.stateless_reset_token

-- The `for` loop over the available versions.
unfoldable pub pull_available : ℕ → Buffer → Result (List ℕ × Buffer)
pull_available zero b = ok ([], b)
pull_available (suc count) b = do
  (version, b) ← pull_uint32 b
  (versions, b) ← pull_available count b
  ok (version ∷ versions, b)

-- `0 in available_versions`
abbrev pub has_zero : List ℕ → Bool
has_zero [] = false
has_zero (version ∷ versions) = (version == 0) || has_zero versions

unfoldable pub pull_quic_version_information : ℕ → Buffer → Result (QuicVersionInformation × Buffer)
pull_quic_version_information size b = do
  (chosen_version, b) ← pull_uint32 b
  (available_versions, b) ← pull_available (size / 4 - 1) b
  ensure (not ((chosen_version == 0) || has_zero available_versions)) value_error
  ok (record { chosen_version = chosen_version; available_versions = available_versions }, b)

unfoldable pub push_versions : List ℕ → Buffer → Result Buffer
push_versions [] b = ok b
push_versions (version ∷ versions) b = push_uint32 b version >>= push_versions versions

unfoldable pub push_quic_version_information : QuicVersionInformation → Buffer → Result Buffer
push_quic_version_information v b =
    push_uint32 b v.chosen_version >>= push_versions v.available_versions

-- The branches on the type of a known parameter.
unfoldable pub pull_value : ParamType → ℕ → Buffer → Result (Value × Buffer)
pull_value int_type param_len b = pull_uint_var b >>= λ (n, b). ok (int_value n, b)
pull_value bytes_type param_len b =
    pull_bytes b param_len >>= λ (bytes, b). ok (bytes_value bytes, b)
pull_value bool_type param_len b = ok (true_value, b)
pull_value address_type param_len b =
    pull_quic_preferred_address b >>= λ (a, b). ok (address_value a, b)
pull_value version_type param_len b =
    pull_quic_version_information param_len b >>= λ (v, b). ok (version_value v, b)

-- A known parameter is set, another one is skipped.
abbrev pub pull_typed :
    Option ParamType
    → ℕ
    → ℕ
    → QuicTransportParameters
    → Buffer
    → Result (QuicTransportParameters × Buffer)
pull_typed none param_id param_len p b = pull_bytes b param_len >>= λ (bytes, b). ok (p, b)
pull_typed (some param_type) param_id param_len p b =
    pull_value param_type param_len b >>= λ (value, b). ok (set_param p param_id value, b)

unfoldable pub pull_param :
    ℕ → ℕ → QuicTransportParameters → Buffer → Result (QuicTransportParameters × Buffer)
pull_param param_id param_len p b = pull_typed (type_of params param_id) param_id param_len p b

-- The `while` loop. A parameter takes two bytes at least, so as many rounds as there are bytes are
-- enough.
unfoldable pub pull_params : ℕ → QuicTransportParameters → Buffer → Result QuicTransportParameters
pull_params zero p b = ok p
pull_params (suc rounds) p b = if eof b then ok p else do
  (param_id, b) ← pull_uint_var b
  (param_len, b) ← pull_uint_var b
  let param_start = tell b
  (p, b) ← pull_param param_id param_len p b
  ensure (tell b == (param_start + param_len)) value_error
  pull_params rounds p b

unfoldable pub pull_quic_transport_parameters : Buffer → Result QuicTransportParameters
pull_quic_transport_parameters b = pull_params (length b.memory) (λ i. none) b

-- The value in a buffer of its own.
unfoldable pub push_value : Value → Buffer → Result Buffer
push_value (int_value n) b = push_uint_var b n
push_value (bytes_value bytes) b = push_bytes b bytes
push_value true_value b = ok b
push_value (address_value a) b = push_quic_preferred_address a b
push_value (version_value v) b = push_quic_version_information v b

unfoldable pub push_param : ℕ → Option Value → Buffer → Result Buffer
push_param param_id none b = ok b
push_param param_id (some value) b = do
  param_buf ← push_value value (new (replicate 65536 0))
  b ← push_uint_var b param_id
  b ← push_uint_var b (tell param_buf)
  push_bytes b (written param_buf)

unfoldable pub push_params : List (ℕ × ParamType) → QuicTransportParameters → Buffer → Result Buffer
push_params [] p b = ok b
push_params ((param_id, param_type) ∷ rest) p b =
    push_param param_id (p param_id) b >>= push_params rest p

unfoldable pub push_quic_transport_parameters : QuicTransportParameters → Buffer → Result Buffer
push_quic_transport_parameters p b = push_params params p b
