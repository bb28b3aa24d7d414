-- ===== src/Packet/TransportParameters/Values.antt =====
-- The values of transport parameters are read as they were written (src/aioquic/quic/packet.py).
use aioquic.Base.{
  ℕ, ◌+◌, ◌-◌, ◌*◌, ◌/◌, ◌^◌, ◌<◌, ◌≡◌, refl, ap, sym, arith, false, ◌||◌, Option, none, some, List,
  [], ◌∷◌, ◌++◌, ◌==◌, length, replicate, length-append,
}
use mathlib.Core.Path.{subst}
use aioquic.Base.Bytes.{eq_bytes, eq_bytes_self}
use aioquic.Base.Exception.{ok}
use aioquic.Buffer.{
  pull_bytes, pull_uint8, pull_uint16, pull_uint32, push_bytes, push_uint8, push_uint16,
  push_uint32, uint8_bytes, uint16_bytes, uint32_bytes,
}
use aioquic.Buffer.Codes.{Pushes-then, push_bytes_lem, push_uint16_lem, put-nil}
use aioquic.Buffer.Pulls.{
  Pulls, Pushes, Pulls-then, Pulls-ok, pull_bytes_lem, pull_uint8_lem, pull_uint16_lem,
  pull_uint32_lem,
}
use aioquic.Buffer.Varint.{Fits, uint_var, pull_uint_var_lem, push_uint_var_lem}
use aioquic.Packet.TransportParameters.{
  QuicPreferredAddress, QuicVersionInformation, ParamType, int_type, bytes_type, bool_type,
  address_type, version_type, Value, int_value, bytes_value, true_value, address_value,
  version_value, pull_address, pull_quic_preferred_address, push_address,
  push_quic_preferred_address, pull_available, has_zero, pull_quic_version_information,
  push_versions, push_quic_version_information, pull_value, push_value,
}

-- A host of the size, which is not all zeros, and a port of 16 bits.
abbrev IsAddress : ℕ → Option (List ℕ × ℕ) → Type 0
IsAddress size none = Unit
IsAddress size (some (host, port)) =
    (length host ≡ size) × (eq_bytes host (replicate size 0) ≡ false) × (port < 2 ^ 16)

abbrev address_bytes : ℕ → Option (List ℕ × ℕ) → List ℕ
address_bytes size none = replicate size 0 ++ uint16_bytes 0
address_bytes size (some (host, port)) = host ++ uint16_bytes port

pull_sized : (size : ℕ) (xs : List ℕ) → length xs ≡ size → Pulls (λ b. pull_bytes b size) xs xs
pull_sized size xs e = subst (λ n. Pulls (λ b. pull_bytes b n) xs xs) e (pull_bytes_lem xs)

pull_address_lem :
    (size : ℕ) (a : Option (List ℕ × ℕ))
    → length {A = ℕ} (replicate size 0) ≡ size
    → IsAddress size a
    → Pulls (pull_address size) (address_bytes size a) a
unfolding pull_address
pull_address_lem size none l v =
    Pulls-then (λ b. pull_bytes b size) _ (replicate size 0) _ (replicate size 0) none
      (pull_sized size (replicate size 0) l)
      (rw (eq_bytes_self (replicate size 0))
        (Pulls-ok pull_uint16 (λ port. none) (uint16_bytes 0) 0 (pull_uint16_lem 0 (omega arith))))
pull_address_lem size (some (host, port)) l (n, z, p) =
    Pulls-then (λ b. pull_bytes b size) _ host _ host (some (host, port)) (pull_sized size host n)
      (rw z (
        Pulls-ok pull_uint16 (λ port. some (host, port)) (uint16_bytes port) port
          (pull_uint16_lem port p)))

push_address_lem :
    (size : ℕ) (a : Option (List ℕ × ℕ))
    → replicate (size + 2) 0 ≡ replicate size 0 ++ uint16_bytes 0
    → Pushes (push_address size a) (address_bytes size a)
push_address_lem size none e = rw (sym e) (push_bytes_lem (replicate (size + 2) 0))
push_address_lem size (some (host, port)) e =
    Pushes-then (λ b. push_bytes b host) (λ b. push_uint16 b port) host (uint16_bytes port)
      (push_bytes_lem host) (push_uint16_lem port)

abbrev IsPreferred : QuicPreferredAddress → Type 0
IsPreferred a =
    IsAddress 4 a.ipv4_address
    × IsAddress 16 a.ipv6_address
    × (length a.connection_id < 256)
    × (length a.stateless_reset_token ≡ 16)

abbrev preferred_bytes : QuicPreferredAddress → List ℕ
preferred_bytes a =
    address_bytes 4 a.ipv4_address
    ++ (address_bytes 16 a.ipv6_address
        ++ (uint8_bytes (length a.connection_id) ++ (a.connection_id ++ a.stateless_reset_token)))

pull_preferred_lem :
    (a : QuicPreferredAddress)
    → IsPreferred a
    → Pulls pull_quic_preferred_address (preferred_bytes a) a
unfolding pull_quic_preferred_address
pull_preferred_lem a (v4, v6, c, t) =
    Pulls-then (pull_address 4) _ (address_bytes 4 a.ipv4_address) _ a.ipv4_address a
      (pull_address_lem 4 a.ipv4_address refl v4)
      (Pulls-then (pull_address 16) _ (address_bytes 16 a.ipv6_address) _ a.ipv6_address a
        (pull_address_lem 16 a.ipv6_address refl v6)
        (Pulls-then pull_uint8 _ (uint8_bytes (length a.connection_id)) _ (length a.connection_id) a
          (pull_uint8_lem (length a.connection_id) c)
          (Pulls-then (λ b. pull_bytes b (length a.connection_id)) _ a.connection_id _
            a.connection_id a (pull_bytes_lem a.connection_id)
            (Pulls-ok (λ b. pull_bytes b 16)
              (λ token. record {
                ipv4_address = a.ipv4_address;
                ipv6_address = a.ipv6_address;
                connection_id = a.connection_id;
                stateless_reset_token = token;
              })
              a.stateless_reset_token a.stateless_reset_token
              (pull_sized 16 a.stateless_reset_token t)))))

push_preferred_lem :
    (a : QuicPreferredAddress) → Pushes (push_quic_preferred_address a) (preferred_bytes a)
unfolding push_quic_preferred_address push_uint8
push_preferred_lem a =
    Pushes-then (push_address 4 a.ipv4_address) _ (address_bytes 4 a.ipv4_address) _
      (push_address_lem 4 a.ipv4_address refl)
      (Pushes-then (push_address 16 a.ipv6_address) _ (address_bytes 16 a.ipv6_address) _
        (push_address_lem 16 a.ipv6_address refl)
        (Pushes-then (λ b. push_bytes b (uint8_bytes (length a.connection_id))) _
          (uint8_bytes (length a.connection_id)) _
          (push_bytes_lem (uint8_bytes (length a.connection_id)))
          (Pushes-then (λ b. push_bytes b a.connection_id)
            (λ b. push_bytes b a.stateless_reset_token) a.connection_id a.stateless_reset_token
            (push_bytes_lem a.connection_id) (push_bytes_lem a.stateless_reset_token))))

abbrev pub AllUint32 : List ℕ → Type 0
AllUint32 [] = Unit
AllUint32 (version ∷ versions) = (version < 2 ^ 32) × AllUint32 versions

abbrev pub version_bytes : List ℕ → List ℕ
version_bytes [] = []
version_bytes (version ∷ versions) = uint32_bytes version ++ version_bytes versions

pub length-version_bytes :
    (versions : List ℕ) → length (version_bytes versions) ≡ 4 * length versions
length-version_bytes [] = refl
length-version_bytes (v ∷ vs) =
    omega (arith, length-version_bytes vs, length-append (uint32_bytes v) (version_bytes vs))

pull_available_lem :
    (versions : List ℕ)
    → AllUint32 versions
    → Pulls (pull_available (length versions)) (version_bytes versions) versions
unfolding pull_available
pull_available_lem [] v = λ b after i e. ap (λ n. ok ([], record b { pos = n })) (omega arith)
pull_available_lem (v ∷ vs) (f, fs) =
    Pulls-then pull_uint32 _ (uint32_bytes v) (version_bytes vs) v (v ∷ vs) (pull_uint32_lem v f) (
      Pulls-ok (pull_available (length vs)) (λ t. v ∷ t) (version_bytes vs) vs
        (pull_available_lem vs fs))

pub push_versions_lem :
    (versions : List ℕ) → Pushes (push_versions versions) (version_bytes versions)
unfolding push_versions push_uint32
push_versions_lem [] = λ b h. ap ok (sym (put-nil b))
push_versions_lem (v ∷ vs) =
    Pushes-then (λ b. push_bytes b (uint32_bytes v)) (push_versions vs) (uint32_bytes v)
      (version_bytes vs) (push_bytes_lem (uint32_bytes v)) (push_versions_lem vs)

abbrev IsVersions : QuicVersionInformation → Type 0
IsVersions v =
    AllUint32 (v.chosen_version ∷ v.available_versions)
    × (((v.chosen_version == 0) || has_zero v.available_versions) ≡ false)

abbrev information_bytes : QuicVersionInformation → List ℕ
information_bytes v = version_bytes (v.chosen_version ∷ v.available_versions)

pull_information_lem :
    (v : QuicVersionInformation)
    → IsVersions v
    → Pulls (pull_quic_version_information (length (information_bytes v))) (information_bytes v) v
unfolding pull_quic_version_information
pull_information_lem v ((f, fs), z) =
    let count : length (information_bytes v) / 4 - 1 ≡ length v.available_versions =
      omega (arith, length-version_bytes (v.chosen_version ∷ v.available_versions)) in
    Pulls-then pull_uint32 _ (uint32_bytes v.chosen_version) (version_bytes v.available_versions)
      v.chosen_version v (pull_uint32_lem v.chosen_version f)
      (rw count
        (λ b after i e. rw (pull_available_lem v.available_versions fs b after i e, z) refl))

push_information_lem :
    (v : QuicVersionInformation) → Pushes (push_quic_version_information v) (information_bytes v)
unfolding push_quic_version_information push_uint32
push_information_lem v =
    Pushes-then (λ b. push_bytes b (uint32_bytes v.chosen_version))
      (push_versions v.available_versions) (uint32_bytes v.chosen_version)
      (version_bytes v.available_versions) (push_bytes_lem (uint32_bytes v.chosen_version))
      (push_versions_lem v.available_versions)

abbrev pub value_type : Value → ParamType
value_type (int_value n) = int_type
value_type (bytes_value bytes) = bytes_type
value_type true_value = bool_type
value_type (address_value a) = address_type
value_type (version_value v) = version_type

-- A value that can be written.
abbrev pub IsValue : Value → Type 0
IsValue (int_value n) = Fits n
IsValue (bytes_value bytes) = Unit
IsValue true_value = Unit
IsValue (address_value a) = IsPreferred a
IsValue (version_value v) = IsVersions v

abbrev pub value_bytes : Value → List ℕ
value_bytes (int_value n) = uint_var n
value_bytes (bytes_value bytes) = bytes
value_bytes true_value = []
value_bytes (address_value a) = preferred_bytes a
value_bytes (version_value v) = information_bytes v

pub pull_value_lem :
    (value : Value)
    → IsValue value
    → Pulls (pull_value (value_type value) (length (value_bytes value))) (value_bytes value) value
unfolding pull_value
pull_value_lem (int_value n) v =
    Pulls-ok _ (λ n. int_value n) (uint_var n) n (pull_uint_var_lem n v)
pull_value_lem (bytes_value bytes) v =
    Pulls-ok _ (λ t. bytes_value t) bytes bytes (pull_bytes_lem bytes)
pull_value_lem true_value v =
    λ b after i e. ap (λ n. ok (true_value, record b { pos = n })) (omega arith)
pull_value_lem (address_value a) v =
    Pulls-ok _ (λ t. address_value t) (preferred_bytes a) a (pull_preferred_lem a v)
pull_value_lem (version_value w) v =
    Pulls-ok _ (λ t. version_value t) (information_bytes w) w (pull_information_lem w v)

pub push_value_lem : (value : Value) → IsValue value → Pushes (push_value value) (value_bytes value)
unfolding push_value
push_value_lem (int_value n) v = push_uint_var_lem n v
push_value_lem (bytes_value bytes) v = push_bytes_lem bytes
push_value_lem true_value v = λ b h. ap ok (sym (put-nil b))
push_value_lem (address_value a) v = push_preferred_lem a
push_value_lem (version_value w) v = push_information_lem w
