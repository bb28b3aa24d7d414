-- ===== src/Packet/TransportParameters/Writing.antt =====
-- Transport parameters are written one after the other (src/aioquic/quic/packet.py).
use aioquic.Base.{
  ℕ, ◌+◌, ◌≤◌, ◌≡◌, ap, sym, arith, Option, none, some, List, [], ◌∷◌, ◌++◌, length, replicate,
  length-replicate,
}
use native.Mathlib.Nat.{zero-add}
use aioquic.Base.Exception.{ok}
use aioquic.Buffer.{new, push_uint_var, push_bytes}
use aioquic.Buffer.Codes.{Pushes-then, push_bytes_lem, put-nil, written-put}
use aioquic.Buffer.Pulls.{Pushes, rest}
use aioquic.Buffer.Varint.{Fits, uint_var, push_uint_var_lem}
use aioquic.Packet.TransportParameters.{
  ParamType, Value, QuicTransportParameters, params, type_of, set_param, push_param, push_params,
}
use aioquic.Packet.TransportParameters.Values.{value_type, IsValue, value_bytes, push_value_lem}

-- A value of the parameter's type, that fits the buffer of 65536 bytes.
abbrev IsParam : ParamType → Option Value → Type 0
IsParam param_type none = Unit
IsParam param_type (some value) =
    (value_type value ≡ param_type) × IsValue value × (length (value_bytes value) ≤ 65536)

abbrev pub AllParams : List (ℕ × ParamType) → QuicTransportParameters → Type 0
AllParams [] p = Unit
AllParams ((param_id, param_type) ∷ rest) p = IsParam param_type (p param_id) × AllParams rest p

abbrev param_bytes : ℕ → Option Value → List ℕ
param_bytes param_id none = []
param_bytes param_id (some value) =
    uint_var param_id ++ (uint_var (length (value_bytes value)) ++ value_bytes value)

abbrev pub all_bytes : List (ℕ × ParamType) → QuicTransportParameters → List ℕ
all_bytes [] p = []
all_bytes ((param_id, param_type) ∷ ids) p = param_bytes param_id (p param_id) ++ all_bytes ids p

push_param_lem :
    (param_id : ℕ) (param_type : ParamType) (value : Option Value)
    → Fits param_id
    → IsParam param_type value
    → Pushes (push_param param_id value) (param_bytes param_id value)
unfolding push_param
push_param_lem param_id param_type none f v = λ b h. ap ok (sym (put-nil b))
push_param_lem param_id param_type (some value) f (e, v, l) =
    let bytes = value_bytes value in
    let b = new (replicate 65536 0) in
    let room : b.pos + length bytes ≤ length b.memory =
      omega (arith, l, length-replicate {A = ℕ} 65536 0) in
    rw (push_value_lem value v b room, written-put b bytes room, zero-add (length bytes))
      (Pushes-then (λ c. push_uint_var c param_id) _ (uint_var param_id) _
        (push_uint_var_lem param_id f)
        (Pushes-then (λ c. push_uint_var c (length bytes)) (λ c. push_bytes c bytes)
          (uint_var (length bytes)) bytes (push_uint_var_lem (length bytes) (omega arith))
          (push_bytes_lem bytes)))

abbrev pub AllFit : List (ℕ × ParamType) → Type 0
AllFit [] = Unit
AllFit ((param_id, param_type) ∷ ids) = Fits param_id × AllFit ids

pub push_params_lem :
    (ids : List (ℕ × ParamType)) (p : QuicTransportParameters)
    → AllFit ids
    → AllParams ids p
    → Pushes (push_params ids p) (all_bytes ids p)
unfolding push_params
push_params_lem [] p f v = λ b h. ap ok (sym (put-nil b))
push_params_lem ((param_id, param_type) ∷ ids) p (f, fs) (v, vs) =
    Pushes-then (push_param param_id (p param_id)) (push_params ids p)
      (param_bytes param_id (p param_id)) (all_bytes ids p)
      (push_param_lem param_id param_type (p param_id) f v) (push_params_lem ids p fs vs)

-- What the loop leaves of the parameters that it reads.
abbrev pub set_some : QuicTransportParameters → ℕ → Option Value → QuicTransportParameters
set_some acc param_id none = acc
set_some acc param_id (some value) = set_param acc param_id value

abbrev pub set_all :
    List (ℕ × ParamType)
    → QuicTransportParameters
    → QuicTransportParameters
    → QuicTransportParameters
set_all [] p acc = acc
set_all ((param_id, param_type) ∷ ids) p acc = set_all ids p (set_some acc param_id (p param_id))

-- Every identifier has its type in PARAMS.
abbrev pub Known : List (ℕ × ParamType) → Type 0
Known [] = Unit
Known ((param_id, param_type) ∷ ids) = (type_of params param_id ≡ some param_type) × Known ids
