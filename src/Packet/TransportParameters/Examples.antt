-- ===== src/Packet/TransportParameters/Examples.antt =====
-- The transport parameters of an endpoint (src/aioquic/quic/packet.py).
use aioquic.Base.{ℕ, ◌≡◌, arith, none, some, [], ◌∷◌, ◌==◌, if◌then◌else◌, replicate}
use aioquic.Base.Exception.{ok, ◌>>=◌}
use aioquic.Buffer.{new, written}
use aioquic.Packet.TransportParameters.{
  int_value, true_value, address_value, version_value, QuicTransportParameters, params,
  pull_quic_transport_parameters, push_quic_transport_parameters,
}
use aioquic.Packet.TransportParameters.RoundTrip.{is_known, transport_parameters_lem}
use aioquic.Packet.TransportParameters.Writing.{AllParams}

-- max_idle_timeout, disable_active_migration, preferred_address and version_information.
abbrev parameters : QuicTransportParameters
parameters = λ i.
    if i == 0x01
    then some (int_value 60000)
    else if i == 0x0C
    then some true_value
    else if i == 0x0D
    then some (
        address_value (record {
          ipv4_address = none;
          ipv6_address = some (replicate 16 1, 443);
          connection_id = 1 ∷ 2 ∷ [];
          stateless_reset_token = replicate 16 7;
        }))
    else if i == 0x11
    then some
        (version_value (record { chosen_version = 1; available_versions = 1 ∷ 0x6B3343CF ∷ [] }))
    else none

parameters-AllParams : AllParams params parameters
parameters-AllParams = ground arith

transport_parameters_lem_example :
    (q : QuicTransportParameters) × ((push_quic_transport_parameters parameters
          (new (replicate 100 0))
        >>= λ b. pull_quic_transport_parameters (new (written b)))
      ≡ ok q)
    × ((i : ℕ) → q i ≡ (if is_known i params then parameters i else none))
transport_parameters_lem_example =
    transport_parameters_lem parameters (replicate 100 0) parameters-AllParams (omega arith)
