-- ===== src/Connection/HostCids.antt =====
-- The connection identifiers that this endpoint issued (src/aioquic/quic/connection.py):
-- `_handle_retire_connection_id_frame`, `_replenish_connection_ids`, the bytes of a
-- NEW_CONNECTION_ID frame and its fate. What os.urandom returns for the identifier of a sequence
-- number and for its token is a parameter.
pub mod Retired
pub mod RoundTrip
mod Examples
use aioquic.Base.{
  ℕ, zero, suc, ◌+◌, Bool, true, false, Option, none, some, List, [], ◌∷◌, ◌++◌, length, ltb, min,
  ◌==◌, if◌then◌else◌,
}
use aioquic.Base.Bytes.{eq_bytes}
use aioquic.Base.Exception.{Result, ok, raise, ◌>>=◌, ◌>>◌, ensure, quic_connection_error}
use aioquic.Buffer.{Buffer, pull_uint_var, push_uint_var, push_uint8, push_bytes}
use aioquic.Connection.PeerCids.{QuicConnectionId}

pub data CidEvent : Type 0 where
  -- ConnectionIdIssued and ConnectionIdRetired
  issued retires : List ℕ → CidEvent

pub record HostCids : Type 0 where
  pub host_cids : List QuicConnectionId
  pub host_cid_seq : ℕ
  pub remote_active_connection_id_limit : ℕ
  pub events : List CidEvent

-- The loop over `_host_cids`: what is left, and the identifier that was deleted.
pub delete_cid :
    ℕ → List ℕ → List QuicConnectionId → Result (List QuicConnectionId × Option (List ℕ))
delete_cid sequence_number host_cid [] = ok ([], none)
delete_cid sequence_number host_cid (cid ∷ cids) =
    let rest = delete_cid sequence_number host_cid cids in
    if cid.sequence_number == sequence_number
    then (if eq_bytes cid.cid host_cid
        then raise (quic_connection_error 10)
        else ok (cids, some cid.cid))
    else (rest >>= λ (left, deleted). ok (cid ∷ left, deleted))

abbrev pub retire_event : Option (List ℕ) → List CidEvent
retire_event none = []
retire_event (some cid) = retires cid ∷ []

-- `os.urandom` for the identifier and the token of a sequence number.
module _ (urandom_cid urandom_token : ℕ → List ℕ) where
  abbrev pub make_cid : ℕ → QuicConnectionId
  make_cid sequence_number = record {
    cid = urandom_cid sequence_number;
    sequence_number = sequence_number;
    stateless_reset_token = urandom_token sequence_number;
    was_sent = false;
  }

  -- The loop of `_replenish_connection_ids`: a round adds one of at most eight identifiers.
  pub replenish : ℕ → HostCids → HostCids
  replenish zero h = h
  replenish (suc rounds) h =
      elim (ltb (length h.host_cids) (min 8 h.remote_active_connection_id_limit)) [
        | true ↦ replenish rounds (record h {
          host_cids = h.host_cids ++ (make_cid h.host_cid_seq ∷ []);
          host_cid_seq = h.host_cid_seq + 1;
        })
        | false ↦ h
      ]

  abbrev pub replenish_connection_ids : HostCids → HostCids
  replenish_connection_ids h = replenish 8 h

  pub retire_connection_id : ℕ → List ℕ → HostCids → Result HostCids
  retire_connection_id sequence_number host_cid h = do
    ensure (ltb sequence_number h.host_cid_seq) (quic_connection_error 10)
    (left, deleted) ← delete_cid sequence_number host_cid h.host_cids
    ok (
        replenish_connection_ids
          (record h { host_cids = left; events = h.events ++ retire_event deleted }))

  -- `host_cid` is that of the context, to which the packet was sent.
  pub handle_retire_connection_id_frame : List ℕ → Buffer → HostCids → Result (HostCids × Buffer)
  handle_retire_connection_id_frame host_cid b h = do
    (sequence_number, b) ← pull_uint_var b
    h ← retire_connection_id sequence_number host_cid h
    ok (h, b)

-- The bytes of a NEW_CONNECTION_ID frame after its type.
pub push_new_connection_id : QuicConnectionId → Buffer → Result Buffer
push_new_connection_id cid b = do
  b ← push_uint_var b cid.sequence_number
  b ← push_uint_var b 0
  b ← push_uint8 b (length cid.cid)
  b ← push_bytes b cid.cid
  push_bytes b cid.stateless_reset_token

-- The identifier of a sequence number is marked as sent, or as not sent where the frame was lost.
abbrev pub mark_sent : ℕ → Bool → List QuicConnectionId → List QuicConnectionId
mark_sent sequence_number was_sent [] = []
mark_sent sequence_number was_sent (cid ∷ cids) =
    (if cid.sequence_number == sequence_number then record cid { was_sent = was_sent } else cid)
    ∷ mark_sent sequence_number was_sent cids

pub write_new_connection_id_frame :
    QuicConnectionId → HostCids → Buffer → Result (HostCids × Buffer)
write_new_connection_id_frame cid h b = do
  b ← push_new_connection_id cid b
  ok (
    record h {
      host_cids = mark_sent cid.sequence_number true h.host_cids;
      events = h.events ++ (issued cid.cid ∷ []);
    },
    b,
  )

pub on_new_connection_id_delivery : Bool → ℕ → HostCids → HostCids
on_new_connection_id_delivery is_acked sequence_number h =
    if is_acked then h else record h { host_cids = mark_sent sequence_number false h.host_cids }
