-- ===== src/Connection/HostCids/Examples.antt =====
-- Identifiers of an endpoint that the peer retires, and one that is written and read
-- (src/aioquic/quic/connection.py).
use aioquic.Base.{
  ℕ, ◌+◌, ◌-◌, ◌≤◌, ◌<◌, ◌≡◌, ◌⊎◌, refl, arith, true, false, some, List, [], ◌∷◌, ◌++◌, length, min,
  replicate,
}
use aioquic.Base.Exception.{ok, raise, ◌>>=◌, quic_connection_error}
use aioquic.Buffer.{new, written, pull_uint_var, push_uint_var, push_uint8, push_bytes}
use aioquic.Connection.PeerCids.{QuicConnectionId, PeerCids, handle_new_connection_id_frame}
use aioquic.Connection.PeerCids.Handled.{IsCounted}
use aioquic.Connection.HostCids.{
  HostCids, issued, retire_event, make_cid, delete_cid, replenish, retire_connection_id,
  push_new_connection_id, write_new_connection_id_frame, on_new_connection_id_delivery,
  handle_retire_connection_id_frame,
}
use aioquic.Connection.HostCids.Retired.{
  IsIssued, IsOther, without, find_cid, fresh, retire_connection_id_lem,
}
use aioquic.Connection.HostCids.RoundTrip.{with_cid, new_connection_id_lem}

abbrev random_cid : ℕ → List ℕ
random_cid n = (n + 100) ∷ []

abbrev random_token : ℕ → List ℕ
random_token n = replicate 16 n

abbrev make : ℕ → QuicConnectionId
make = make_cid random_cid random_token

abbrev host : HostCids
host = record {
  host_cids = make 0 ∷ make 1 ∷ [];
  host_cid_seq = 2;
  remote_active_connection_id_limit = 2;
  events = [];
}

retire_connection_id_lem_example :
    ((retire_connection_id random_cid random_token 0 (101 ∷ []) host
        ≡ raise (quic_connection_error 10))
      × ((2 ≤ 0) ⊎ (find_cid 0 host.host_cids ≡ some (101 ∷ []))))
    ⊎ ((left : HostCids) × (retire_connection_id random_cid random_token 0 (101 ∷ []) host
          ≡ ok left)
        × (0 < 2)
        × IsOther (101 ∷ []) (find_cid 0 host.host_cids)
        × (left.host_cids
            ≡ without 0 host.host_cids
              ++ fresh random_cid random_token (min 8 2 - length (without 0 host.host_cids)) 2)
        × (left.events ≡ [] ++ retire_event (find_cid 0 host.host_cids))
        × IsIssued left
        × (min 8 2 ≤ length left.host_cids))
retire_connection_id_lem_example =
    retire_connection_id_lem random_cid random_token 0 (101 ∷ []) host (omega arith)

retired_0 :
    retire_connection_id random_cid random_token 0 (101 ∷ []) host
    ≡ ok (record host {
      host_cids = make 1 ∷ make 2 ∷ [];
      host_cid_seq = 3;
      events = retire_event (some (100 ∷ []));
    })
unfolding retire_connection_id delete_cid replenish
retired_0 = refl

-- The frame's one byte is the sequence number.
frame_read :
    handle_retire_connection_id_frame random_cid random_token (101 ∷ []) (new (0 ∷ [])) host ≡ (
      retire_connection_id random_cid random_token 0 (101 ∷ []) host >>= λ h.
      ok (h, record { memory = 0 ∷ []; pos = 1 }))
unfolding handle_retire_connection_id_frame pull_uint_var
frame_read = refl

current_refused :
    retire_connection_id random_cid random_token 1 (101 ∷ []) host
    ≡ raise (quic_connection_error 10)
unfolding retire_connection_id delete_cid
current_refused = refl

abbrev sent_1 : HostCids
sent_1 = record host {
  host_cids = make 0 ∷ record (make 1) { was_sent = true } ∷ [];
  events = issued (101 ∷ []) ∷ [];
}

-- A frame that is lost is written again.
lost_1 :
    on_new_connection_id_delivery false 1 sent_1 ≡ record host { events = issued (101 ∷ []) ∷ [] }
unfolding on_new_connection_id_delivery
lost_1 = refl

written_1 :
    (write_new_connection_id_frame (make 1) host (new (replicate 20 0)) >>= λ (h, b). ok h)
    ≡ ok sent_1
unfolding write_new_connection_id_frame push_new_connection_id push_uint_var push_uint8 push_bytes
written_1 = refl

-- The peer has the identifier 0.
abbrev peer : PeerCids
peer = record {
  peer_cid = make 0;
  peer_cid_available = [];
  peer_cid_sequence_numbers = 0 ∷ [];
  peer_retire_prior_to = 0;
  retire_connection_ids = [];
  local_active_connection_id_limit = 8;
}

peer-IsCounted : IsCounted (λ n. 0) peer
peer-IsCounted = record { once = λ n. ground arith; active = omega arith; available = tt }

new_connection_id_lem_example :
    (bytes : List ℕ) × ((push_new_connection_id (make 1) (new (replicate 60 0)) >>= λ b.
    ok (written b))
      ≡ ok bytes)
    × (handle_new_connection_id_frame (new bytes) peer
        ≡ (ok (record { memory = bytes; pos = length bytes }), with_cid (make 1) peer))
new_connection_id_lem_example =
    new_connection_id_lem (make 1) peer (replicate 60 0) (λ n. 0)
      (record { fits = omega arith; filled = omega arith; short = omega arith; token = refl })
      (omega arith) peer-IsCounted (omega arith) refl (omega arith) (omega arith)
