-- ===== src/Connection/HostCids/RoundTrip.antt =====
-- The peer takes over an identifier as this endpoint issued it: the writer and the reader of
-- NEW_CONNECTION_ID frames (src/aioquic/quic/connection.py).
use aioquic.Base.{
  ℕ, ◌+◌, ◌*◌, ◌≤◌, ◌<◌, ◌≡◌, refl, sym, ap, ◌∙◌, arith, true, false, not, ◌&&◌, ◌||◌, List, [],
  ◌∷◌, ◌++◌, append-nil, length, length-append, ltb, leb, min, max, is_in,
}
use mathlib.Core.Path.{subst}
use aioquic.Base.Exception.{ok, ◌>>=◌}
use aioquic.Base.Run.{Run, return, ◌>>◌}
use aioquic.Buffer.{
  Buffer, new, advance, written, pull_bytes, push_uint_var, push_uint8, push_bytes, uint8_bytes,
}
use aioquic.Buffer.Codes.{Pushes-then, Pushes-written, push_bytes_lem}
use aioquic.Buffer.Pulls.{
  Pushes, rest, rest-advance, advance-InBounds, pull_uint8_lem, pull_bytes_lem,
}
use aioquic.Buffer.Varint.{Fits, uint_var, length-uint_var, push_uint_var_lem, pull_uint_var_lem}
use aioquic.Connection.PeerCids.{
  QuicConnectionId, PeerCids, older, newer, is_empty, update_cids, check_limits,
  handle_new_connection_id_frame,
}
use aioquic.Connection.PeerCids.Places.{AllFrom}
use aioquic.Connection.PeerCids.Handled.{IsCounted}
use aioquic.Connection.HostCids.{push_new_connection_id}

abbrev frame_bytes : QuicConnectionId → List ℕ
frame_bytes cid =
    uint_var cid.sequence_number
    ++ (uint_var 0 ++ (uint8_bytes (length cid.cid) ++ (cid.cid ++ cid.stateless_reset_token)))

-- An identifier that can be written.
pub record IsCid (cid : QuicConnectionId) : Type 0 where
  pub fits : Fits cid.sequence_number
  pub filled : 1 ≤ length cid.cid
  pub short : length cid.cid ≤ 20
  pub token : length cid.stateless_reset_token ≡ 16

push_frame_lem :
    (cid : QuicConnectionId) → IsCid cid → Pushes (push_new_connection_id cid) (frame_bytes cid)
unfolding push_new_connection_id push_uint8
push_frame_lem cid v =
    let token = cid.stateless_reset_token in
    let back = cid.cid ++ token in
    let middle = uint8_bytes (length cid.cid) ++ back in
    Pushes-then (λ b. push_uint_var b cid.sequence_number) _ (uint_var cid.sequence_number)
      (uint_var 0 ++ middle) (push_uint_var_lem cid.sequence_number v.fits)
      (Pushes-then (λ b. push_uint_var b 0) _ (uint_var 0) middle
        (push_uint_var_lem 0 (omega arith))
        (Pushes-then (λ b. push_bytes b (uint8_bytes (length cid.cid))) _
          (uint8_bytes (length cid.cid)) back (push_bytes_lem (uint8_bytes (length cid.cid)))
          (Pushes-then (λ b. push_bytes b cid.cid) (λ b. push_bytes b token) cid.cid token
            (push_bytes_lem cid.cid) (push_bytes_lem token))))

abbrev process : QuicConnectionId → Buffer → Run PeerCids Buffer
process cid b = update_cids cid 0 >> (check_limits >> return b)

not_empty :
    (bytes : List ℕ)
    → 1 ≤ length bytes
    → length bytes ≤ 20
    → (is_empty bytes || ltb 20 (length bytes)) ≡ false
not_empty [] h k = absurd (omega (arith, h))
not_empty (x ∷ xs) h k = ground (arith, k)

read_frame :
    (cid : QuicConnectionId) (c : PeerCids)
    → IsCid cid
    → handle_new_connection_id_frame (new (frame_bytes cid)) c
      ≡ process
          (record cid { was_sent = false })
          (record { memory = frame_bytes cid; pos = length (frame_bytes cid) })
          c
unfolding handle_new_connection_id_frame
read_frame cid c v =
    let n = cid.sequence_number in
    let token = cid.stateless_reset_token in
    let b = new (frame_bytes cid) in
    let b1 = advance b (length (uint_var n)) in
    let b2 = advance b1 (length (uint_var 0)) in
    let b3 = advance b2 1 in
    let b4 = advance b3 (length cid.cid) in
    let i1 = advance-InBounds b (uint_var n) _ (omega arith) refl in
    let e1 = rest-advance b (uint_var n) _ refl in
    let i2 = advance-InBounds b1 (uint_var 0) _ i1 e1 in
    let e2 = rest-advance b1 (uint_var 0) _ e1 in
    let i3 = advance-InBounds b2 (uint8_bytes (length cid.cid)) _ i2 e2 in
    let e3 = rest-advance b2 (uint8_bytes (length cid.cid)) _ e2 in
    let i4 = advance-InBounds b3 cid.cid token i3 e3 in
    let e4 = rest-advance b3 cid.cid token e3 in
    let last : pull_bytes b4 16 ≡ ok (token, advance b4 16) =
      subst (λ m. pull_bytes b4 m ≡ ok (token, advance b4 m)) v.token
        (pull_bytes_lem token b4 [] i4 (e4 ∙ sym (append-nil token))) in
    let above : ltb n 0 ≡ false = ground arith in
    rw
      (
        pull_uint_var_lem n v.fits b _ (omega arith) refl,
        pull_uint_var_lem 0 (omega arith) b1 _ i1 e1,
        pull_uint8_lem (length cid.cid) (omega (arith, v.short)) b2 _ i2 e2,
        pull_bytes_lem cid.cid b3 token i3 e3,
        last,
        not_empty cid.cid v.filled v.short,
        above,
      )
      (ap
        (λ p.
          process (record cid { was_sent = false }) (record { memory = frame_bytes cid; pos = p })
            c)
        (omega (
          arith,
          length-append (uint_var n)
              (uint_var 0 ++ (uint8_bytes (length cid.cid) ++ (cid.cid ++ token))),
          length-append cid.cid token,
          v.token,
        )))

older_none : (m : ℕ) (cids : List QuicConnectionId) → AllFrom m cids → older m cids ≡ []
older_none m [] a = refl
older_none m (cid ∷ cids) (a, rest) =
    let test : ltb cid.sequence_number m ≡ false = ground (arith, a) in
    rw test (older_none m cids rest)

newer_all : (m : ℕ) (cids : List QuicConnectionId) → AllFrom m cids → newer m cids ≡ cids
newer_all m [] a = refl
newer_all m (cid ∷ cids) (a, rest) =
    let test : leb m cid.sequence_number ≡ true = ground (arith, a) in
    rw test (ap (λ t. cid ∷ t) (newer_all m cids rest))

abbrev pub with_cid : QuicConnectionId → PeerCids → PeerCids
with_cid cid c = record c {
  peer_cid_available = c.peer_cid_available ++ (cid ∷ []);
  peer_cid_sequence_numbers = cid.sequence_number ∷ c.peer_cid_sequence_numbers;
}

update_new :
    (cid : QuicConnectionId) (c : PeerCids) (elsewhere : ℕ → ℕ)
    → IsCounted elsewhere c
    → c.peer_retire_prior_to ≤ cid.sequence_number
    → is_in cid.sequence_number c.peer_cid_sequence_numbers ≡ false
    → update_cids cid 0 c ≡ (ok tt, with_cid cid c)
update_new cid c elsewhere w n unseen =
    let m = c.peer_retire_prior_to in
    let top : max 0 m ≡ m = omega arith in
    let kept : ltb c.peer_cid.sequence_number m ≡ false = ground (arith, w.active) in
    let new : (leb m cid.sequence_number
          && not (is_in cid.sequence_number c.peer_cid_sequence_numbers))
        ≡ true =
      rw unseen (ground arith) in
    rw
      (
        top,
        kept,
        older_none m c.peer_cid_available w.available,
        new,
        newer_all m c.peer_cid_available w.available,
      )
      refl

check_new :
    (cid : QuicConnectionId) (c : PeerCids)
    → 1 + length c.peer_cid_available < c.local_active_connection_id_limit
    → length c.retire_connection_ids ≤ min (c.local_active_connection_id_limit * 4) 100
    → check_limits (with_cid cid c) ≡ (ok tt, with_cid cid c)
check_new cid c h k =
    let long = length-append c.peer_cid_available (cid ∷ []) in
    let few : ltb c.local_active_connection_id_limit
          (1 + length (c.peer_cid_available ++ (cid ∷ [])))
        ≡ false =
      ground (arith, long) in
    let waiting : ltb (min (c.local_active_connection_id_limit * 4) 100)
          (length c.retire_connection_ids)
        ≡ false =
      ground arith in
    rw (few, waiting) refl

-- An identifier that fits a frame is written where there is room, and the peer that handles the frame
-- has it as the last one of those that are available, marks its sequence number as seen, and changes
-- nothing else. The peer has not seen the number, was not asked to retire it or one of those
-- that it has, and has not reached its limits.
pub new_connection_id_lem :
    (cid : QuicConnectionId) (c : PeerCids) (memory : List ℕ) (elsewhere : ℕ → ℕ)
    → IsCid cid
    → 53 ≤ length memory
    → IsCounted elsewhere c
    → c.peer_retire_prior_to ≤ cid.sequence_number
    → is_in cid.sequence_number c.peer_cid_sequence_numbers ≡ false
    → 1 + length c.peer_cid_available < c.local_active_connection_id_limit
    → length c.retire_connection_ids ≤ min (c.local_active_connection_id_limit * 4) 100
    → (bytes : List ℕ) × ((push_new_connection_id cid (new memory) >>= λ b. ok (written b))
        ≡ ok bytes)
      × (handle_new_connection_id_frame (new bytes) c ≡ (
        ok (record { memory = bytes; pos = length bytes }),
        with_cid (record cid { was_sent = false }) c,
      ))
new_connection_id_lem cid c memory elsewhere v m w n unseen room waiting = (
  frame_bytes cid,
  Pushes-written (push_new_connection_id cid) (frame_bytes cid) memory (push_frame_lem cid v) (
      omega (
        arith,
        m,
        length-append (uint_var cid.sequence_number) (
            uint_var 0 ++ (uint8_bytes (length cid.cid) ++ (cid.cid ++ cid.stateless_reset_token))),
        length-append cid.cid cid.stateless_reset_token,
        length-uint_var cid.sequence_number v.fits,
        v.token,
        v.short,
      )),
  read_frame cid c v
      ∙ rw
          (
            update_new (record cid { was_sent = false }) c elsewhere w n unseen,
            check_new (record cid { was_sent = false }) c room waiting,
          )
          refl,
)
