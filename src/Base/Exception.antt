-- ===== src/Base/Exception.antt =====
-- The exceptions that the modelled code raises, and results that may be one. A function that
-- mutates an object before it raises returns the object beside the result instead.
use Prim.Native.Nat.{ℕ}
use mathlib.Core.Bool.{Bool, true, false}

pub data Exception : Type 0 where
  -- a failed `assert`, `seq[i]` out of range, a missing key, `ValueError`, `None` in place of a number,
  -- and of an object
  assertion_error index_error key_error value_error type_error attribute_error : Exception
  -- aioquic._buffer
  buffer_read_error buffer_write_error : Exception
  -- aioquic.quic.stream
  final_size_error stream_finished_error : Exception
  -- QuicConnectionError, with its error code
  quic_connection_error : ℕ → Exception
  -- QuicPacketBuilderStop of aioquic.quic.packet_builder
  packet_builder_stop : Exception
  -- ProtocolError of aioquic.h3.connection, with the error code of its class
  protocol_error : ℕ → Exception
  -- aioquic.h3.exceptions
  invalid_stream_type_error no_available_push_id_error : Exception
  -- pylsqpack
  stream_blocked decompression_failed encoder_stream_error decoder_stream_error : Exception

pub data Result {ℓ} (A : Type ℓ) : Type ℓ where
  raise : Exception → Result A
  ok : A → Result A

module _ {ℓ κ} {A : Type ℓ} {B : Type κ} where
  infixl 5 ◌>>=◌
  -- An exception skips the statements that follow.
  abbrev pub ◌>>=◌ : Result A → (A → Result B) → Result B
  raise e >>= rest = raise e
  ok value >>= rest = rest value

module _ {ℓ} {B : Type ℓ} where
  infixl 5 ◌>>◌
  abbrev pub ◌>>◌ : Result (Unit {0}) → Result B → Result B
  check >> rest = check >>= λ _. rest

-- `if not test: raise error`, and `assert test` for an `assertion_error`.
abbrev pub ensure : Bool → Exception → Result (Unit {0})
ensure false error = raise error
ensure true error = ok tt
