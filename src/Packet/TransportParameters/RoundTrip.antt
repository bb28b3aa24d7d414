-- ===== src/Packet/TransportParameters/RoundTrip.antt =====
-- Transport parameters are read as they were written (src/aioquic/quic/packet.py).
use aioquic.Base.{
  ℕ, ◌≤◌, ◌≡◌, refl, sym, ◌∙◌, arith, Bool, true, false, not, ◌&&◌, ◌⊎◌, inl, inr, Bool-cases,
  Option, none, some, List, [], ◌∷◌, ◌==◌, if◌then◌else◌, length, is_none,
}
use aioquic.Base.Exception.{ok, ◌>>=◌}
use aioquic.Buffer.{new, written}
use aioquic.Buffer.Codes.{written-put}
use aioquic.Packet.TransportParameters.{
  ParamType, Value, QuicTransportParameters, params, type_of, pull_quic_transport_parameters,
  push_quic_transport_parameters,
}
use aioquic.Packet.TransportParameters.Writing.{
  AllParams, all_bytes, AllFit, push_params_lem, set_some, set_all, Known,
}
use aioquic.Packet.TransportParameters.Reading.{equal_self, pull_params_lem}

-- Whether an identifier is one of these.
abbrev pub is_known : ℕ → List (ℕ × ParamType) → Bool
is_known param_id ids = not (is_none (type_of ids param_id))

unset :
    (acc : QuicTransportParameters) (param_id i : ℕ) (value : Option Value)
    → (i == param_id) ≡ false
    → set_some acc param_id value i ≡ acc i
unset acc param_id i none e = refl
unset acc param_id i (some value) e = rw e refl

chosen :
    (known : Bool) (value : Option Value) (acc : QuicTransportParameters) (i : ℕ)
    → (if known && not (is_none value) then value else set_some acc i value i)
      ≡ (if not (is_none value) then value else acc i)
chosen true none acc i = refl
chosen false none acc i = refl
chosen true (some v) acc i = refl
chosen false (some v) acc i = let e : (i == i) ≡ true = equal_self i in rw e refl

-- What is left is what was written, for the identifiers that were read, and else what was there.
set_all_lem :
    (ids : List (ℕ × ParamType)) (p acc : QuicTransportParameters) (i : ℕ)
    → set_all ids p acc i ≡ (if is_known i ids && not (is_none (p i)) then p i else acc i)
set_all_lem [] p acc i = refl
set_all_lem ((param_id, param_type) ∷ ids) p acc i =
    set_all_lem ids p (set_some acc param_id (p param_id)) i ∙ one (Bool-cases (i == param_id))
  where
    one :
        ((i == param_id) ≡ true) ⊎ ((i == param_id) ≡ false)
        → (if is_known i ids && not (is_none (p i))
            then p i
            else set_some acc param_id (p param_id) i)
          ≡ (if is_known i ((param_id, param_type) ∷ ids) && not (is_none (p i))
              then p i
              else acc i)
    one (inr e) = rw (e, unset acc param_id i (p param_id) e) refl
    one (inl e) =
        let same : i ≡ param_id = ground arith in
        rw (e, sym same) (chosen (is_known i ids) (p i) acc i)

or_none :
    (known : Bool) (value : Option Value)
    → (if known && not (is_none value) then value else none) ≡ (if known then value else none)
or_none true none = refl
or_none true (some v) = refl
or_none false value = refl

all_fit : AllFit params
all_fit = omega arith

all_known : Known params
all_known = ground arith

-- Parameters whose values have the types of their attributes and can be written are read from their
-- encoding as they were, each of them, and nothing else is set. The buffer that they are written to
-- has room for them, and a value fits the 65536 bytes of its own buffer.
pub transport_parameters_lem :
    (p : QuicTransportParameters) (memory : List ℕ)
    → AllParams params p
    → length (all_bytes params p) ≤ length memory
    → (q : QuicTransportParameters) × ((push_quic_transport_parameters p (new memory) >>= λ b.
          pull_quic_transport_parameters (new (written b)))
        ≡ ok q)
      × ((i : ℕ) → q i ≡ (if is_known i params then p i else none))
unfolding push_quic_transport_parameters pull_quic_transport_parameters
transport_parameters_lem p memory v h =
    let bytes = all_bytes params p in
    let pushed = push_params_lem params p all_fit v (new memory) (omega arith) in
    let wrote = written-put (new memory) bytes (omega arith) in
    (
      set_all params p (λ i. none),
      rw (pushed, wrote)
          (pull_params_lem params p (λ i. none) (length bytes) (new bytes) all_fit all_known v
            (omega arith) refl (omega arith)),
      λ i. set_all_lem params p (λ i. none) i ∙ or_none (is_known i params) (p i),
    )
