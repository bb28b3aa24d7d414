-- ===== src/Packet/Encoding/Seal.antt =====
-- The integrity tag of a RETRY packet: get_retry_integrity_tag of src/aioquic/quic/packet.py.
use aioquic.Base.{
  ℕ, ◌+◌, ◌≡◌, refl, ◌∙◌, arith, true, inl, inr, Bool-cases, List, [], ◌++◌, ◌==◌, if◌then◌else◌,
  length, length-append, length-replicate, replicate,
}
use aioquic.Base.Exception.{Result, ok, ◌>>◌, ensure, assertion_error}
use aioquic.Buffer.{Buffer, new, eof, written, push_bytes, push_uint8, uint8_bytes}
use aioquic.Buffer.Codes.{push_bytes_lem, Runs-then, eof-put, written-put}
use aioquic.Packet.Header.{version_2}
use aioquic.Packet.Encoding.{
  Encrypt, retry_key_1, retry_key_2, retry_nonce_1, retry_nonce_2, get_retry_integrity_tag,
}

-- AES-GCM with a tag of 16 bytes.
abbrev pub AddsTag : Encrypt → Type 0
AddsTag encrypt =
    (key nonce plain associated_data : List ℕ)
    → length (encrypt key nonce plain associated_data) ≡ length plain + 16

-- The tag over the pseudo packet.
abbrev pub seal : Encrypt → ℕ → List ℕ → List ℕ
seal encrypt version pseudo =
    if version == version_2
    then encrypt retry_key_2 retry_nonce_2 [] pseudo
    else encrypt retry_key_1 retry_nonce_1 [] pseudo

pub length-seal :
    (encrypt : Encrypt) (version : ℕ) (pseudo : List ℕ)
    → AddsTag encrypt
    → length (seal encrypt version pseudo) ≡ 16
length-seal encrypt version pseudo h = elim (Bool-cases (version == version_2)) [
  | inl e ↦ rw e (omega (arith, h retry_key_2 retry_nonce_2 [] pseudo))
  | inr e ↦ rw e (omega (arith, h retry_key_1 retry_nonce_1 [] pseudo))
]

abbrev pub pseudo_packet : List ℕ → List ℕ → List ℕ
pseudo_packet packet cid = uint8_bytes (length cid) ++ (cid ++ packet)

-- What follows the pushes of `get_retry_integrity_tag`.
abbrev sealed : Encrypt → ℕ → Buffer → Result (List ℕ)
sealed encrypt version b = do
  ensure (eof b) assertion_error
  ensure (length (seal encrypt version (written b)) == 16) assertion_error
  ok (seal encrypt version (written b))

pub integrity_tag_lem :
    (encrypt : Encrypt) (packet cid : List ℕ) (version : ℕ)
    → AddsTag encrypt
    → get_retry_integrity_tag encrypt packet cid version
      ≡ ok (seal encrypt version (pseudo_packet packet cid))
unfolding get_retry_integrity_tag push_uint8
integrity_tag_lem encrypt packet cid version h =
    let size = 1 + length cid + length packet in
    let memory : List ℕ = replicate size 0 in
    let bytes = pseudo_packet packet cid in
    let long : length bytes ≡ length memory =
      omega (arith, length-append cid packet, length-replicate {A = ℕ} size 0) in
    let tag : (length (seal encrypt version bytes) == 16) ≡ true =
      ground (arith, length-seal encrypt version bytes h) in
    Runs-then (λ b. push_bytes b (uint8_bytes (length cid))) _ (uint8_bytes (length cid))
      (cid ++ packet) (sealed encrypt version) (push_bytes_lem (uint8_bytes (length cid)))
      (Runs-then (λ b. push_bytes b cid) _ cid packet (sealed encrypt version) (push_bytes_lem cid)
        (λ b i. rw (push_bytes_lem packet b i) refl))
      (new memory) (omega (arith, long))
    ∙ rw (eof-put memory bytes long, written-put (new memory) bytes (omega (arith, long)), tag) refl
