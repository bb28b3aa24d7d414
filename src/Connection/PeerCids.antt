-- ===== src/Connection/PeerCids.antt =====
-- The connection identifiers that the peer issued (src/aioquic/quic/connection.py):
-- `_handle_new_connection_id_frame`, `change_connection_id`, `_consume_peer_cid`,
-- `_retire_peer_cid` and the fate of RETIRE_CONNECTION_ID frames. The peer's first identifier has
-- its sequence number, as it has once a packet of the peer was received.
pub mod Places
pub mod Handled
pub mod Runs
mod Examples
use aioquic.Base.{
  ℕ, ◌+◌, ◌*◌, Bool, true, false, not, ◌&&◌, ◌||◌, List, [], ◌∷◌, ◌++◌, length, ltb, leb, min, max,
  is_in, if◌then◌else◌,
}
use aioquic.Base.Exception.{index_error, quic_connection_error}
use aioquic.Base.Run.{Run, return, throw, lift, get, modify, refuse, ◌>>=◌, ◌>>◌}
use aioquic.Buffer.{Buffer, pull_uint_var, pull_uint8, pull_bytes}

pub record QuicConnectionId : Type 0 where
  pub cid : List ℕ
  pub sequence_number : ℕ
  pub stateless_reset_token : List ℕ
  pub was_sent : Bool

pub record PeerCids : Type 0 where
  pub peer_cid : QuicConnectionId
  pub peer_cid_available : List QuicConnectionId
  pub peer_cid_sequence_numbers : List ℕ
  pub peer_retire_prior_to : ℕ
  pub retire_connection_ids : List ℕ
  pub local_active_connection_id_limit : ℕ

-- The identifiers whose sequence number is below `n`, and the others.
abbrev pub older : ℕ → List QuicConnectionId → List QuicConnectionId
older n [] = []
older n (cid ∷ cids) = if ltb cid.sequence_number n then cid ∷ older n cids else older n cids

abbrev pub newer : ℕ → List QuicConnectionId → List QuicConnectionId
newer n [] = []
newer n (cid ∷ cids) = if leb n cid.sequence_number then cid ∷ newer n cids else newer n cids

abbrev pub retire_peer_cid : QuicConnectionId → PeerCids → PeerCids
retire_peer_cid cid c = record c {
  retire_connection_ids = c.retire_connection_ids ++ (cid.sequence_number ∷ []);
}

abbrev pub retire_all : List QuicConnectionId → PeerCids → PeerCids
retire_all [] c = c
retire_all (cid ∷ cids) c = retire_all cids (retire_peer_cid cid c)

-- `pop(0)`
abbrev pub take_first : List QuicConnectionId → Run PeerCids (Unit {0})
take_first [] = throw index_error
take_first (cid ∷ cids) = modify (λ c. record c { peer_cid = cid; peer_cid_available = cids })

abbrev pub consume_peer_cid : Run PeerCids (Unit {0})
consume_peer_cid = do c ← get; take_first c.peer_cid_available

abbrev is_some : List QuicConnectionId → Bool
is_some [] = false
is_some (cid ∷ cids) = true

pub change_connection_id : Run PeerCids (Unit {0})
change_connection_id = do
  c ← get
  if is_some c.peer_cid_available
      then (modify (retire_peer_cid c.peer_cid) >> consume_peer_cid)
      else return tt

-- The identifier of the frame is added where it is not to be retired and was not seen.
abbrev pub is_new : QuicConnectionId → PeerCids → Bool
is_new cid c =
    leb c.peer_retire_prior_to cid.sequence_number
    && not (is_in cid.sequence_number c.peer_cid_sequence_numbers)

abbrev pub add_cid : QuicConnectionId → PeerCids → PeerCids
add_cid cid c = record c {
  peer_cid_available =
      if is_new cid c then c.peer_cid_available ++ (cid ∷ []) else c.peer_cid_available;
  peer_cid_sequence_numbers =
      if is_new cid c
      then cid.sequence_number ∷ c.peer_cid_sequence_numbers
      else c.peer_cid_sequence_numbers;
}

abbrev pub retire_prior : ℕ → PeerCids → PeerCids
retire_prior n c = record c {
  peer_retire_prior_to = n;
  peer_cid_available = newer n c.peer_cid_available;
}

-- The identifiers that a frame retires: the active one is first.
abbrev pub retired : ℕ → PeerCids → List QuicConnectionId
retired n c =
    if ltb c.peer_cid.sequence_number n
    then c.peer_cid ∷ older n c.peer_cid_available
    else older n c.peer_cid_available

abbrev pub update_cids : QuicConnectionId → ℕ → Run PeerCids (Unit {0})
update_cids cid retire_prior_to = do
  c ← get
  let n = max retire_prior_to c.peer_retire_prior_to
  modify (λ _. retire_all (retired n c) (add_cid cid (retire_prior n c)))
  if ltb c.peer_cid.sequence_number n then consume_peer_cid else return tt

-- The limits on the identifiers that are active, and on those that wait to be retired
-- (MAX_PENDING_RETIRES).
abbrev pub check_limits : Run PeerCids (Unit {0})
check_limits = do
  c ← get
  refuse (ltb c.local_active_connection_id_limit (1 + length c.peer_cid_available))
      (quic_connection_error 9)
  refuse (ltb (min (c.local_active_connection_id_limit * 4) 100) (length c.retire_connection_ids))
      (quic_connection_error 9)

abbrev pub is_empty : List ℕ → Bool
is_empty [] = true
is_empty (n ∷ ns) = false

unfoldable pub handle_new_connection_id_frame : Buffer → Run PeerCids Buffer
handle_new_connection_id_frame b = do
  (sequence_number, b) ← lift (pull_uint_var b)
  (retire_prior_to, b) ← lift (pull_uint_var b)
  (size, b) ← lift (pull_uint8 b)
  (connection_id, b) ← lift (pull_bytes b size)
  (stateless_reset_token, b) ← lift (pull_bytes b 16)
  refuse (is_empty connection_id || ltb 20 (length connection_id)) (quic_connection_error 7)
  refuse (ltb sequence_number retire_prior_to) (quic_connection_error 10)
  update_cids
      (record {
        cid = connection_id;
        sequence_number = sequence_number;
        stateless_reset_token = stateless_reset_token;
        was_sent = false;
      })
      retire_prior_to
  check_limits
  return b

abbrev pub pop_retired : List ℕ → Run PeerCids ℕ
pop_retired [] = throw index_error
pop_retired (n ∷ ns) = modify (λ c. record c { retire_connection_ids = ns }) >> return n

-- The loop that writes RETIRE_CONNECTION_ID frames, one round: the sequence number of the frame.
pub write_retire_connection_id : Run PeerCids ℕ
write_retire_connection_id = do c ← get; pop_retired c.retire_connection_ids

-- `_on_retire_connection_id_delivery`
pub on_retire_connection_id_delivery : Bool → ℕ → PeerCids → PeerCids
on_retire_connection_id_delivery is_acked sequence_number c =
    if is_acked
    then c
    else record c { retire_connection_ids = c.retire_connection_ids ++ (sequence_number ∷ []) }
