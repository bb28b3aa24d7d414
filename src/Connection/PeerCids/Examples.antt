-- ===== src/Connection/PeerCids/Examples.antt =====
-- Identifiers of a peer that arrive out of order, and a frame that is sent again
-- (src/aioquic/quic/connection.py).
use aioquic.Base.{ℕ, ◌≡◌, refl, arith, false, [], ◌∷◌, replicate}
use aioquic.Base.Exception.{ok, raise, index_error}
use aioquic.Buffer.{Buffer, new, pull_uint_var, pull_uint8, pull_bytes}
use aioquic.Connection.PeerCids.{
  QuicConnectionId, PeerCids, change_connection_id, handle_new_connection_id_frame,
  write_retire_connection_id,
}
use aioquic.Connection.PeerCids.Handled.{IsCounted}
use aioquic.Connection.PeerCids.Runs.{
  System, Step, receives, changes, writes, Reach, here, next, elsewhere, Reach-IsCounted,
}

abbrev numbered : ℕ → QuicConnectionId
numbered n = record {
  cid = n ∷ [];
  sequence_number = n;
  stateless_reset_token = replicate 16 0;
  was_sent = false;
}

abbrev initial : System
initial = record {
  cids = record {
    peer_cid = numbered 0;
    peer_cid_available = [];
    peer_cid_sequence_numbers = 0 ∷ [];
    peer_retire_prior_to = 0;
    retire_connection_ids = [];
    local_active_connection_id_limit = 8;
  };
  in_flight = [];
  acked = [];
}

initial-IsCounted : IsCounted (elsewhere initial) initial.cids
initial-IsCounted = record { once = λ n. ground arith; active = omega arith; available = tt }

-- A frame for the identifier `n`.
abbrev frame : ℕ → ℕ → Buffer
frame n retire_prior_to = new (n ∷ retire_prior_to ∷ 1 ∷ n ∷ replicate 16 0)

abbrev after : ℕ → Buffer
after n = record { memory = n ∷ 0 ∷ 1 ∷ n ∷ replicate 16 0; pos = 20 }

abbrev with_2 : PeerCids
with_2 = record initial.cids {
  peer_cid_available = numbered 2 ∷ [];
  peer_cid_sequence_numbers = 2 ∷ 0 ∷ [];
}

abbrev on_2 : PeerCids
on_2 = record with_2 {
  peer_cid = numbered 2;
  peer_cid_available = [];
  retire_connection_ids = 0 ∷ [];
}

abbrev written : PeerCids
written = record on_2 { retire_connection_ids = [] }

receives_2 : Step initial (record initial { cids = with_2 })
unfolding handle_new_connection_id_frame pull_uint_var pull_uint8 pull_bytes
receives_2 = receives (frame 2 0) (ok (after 2)) with_2 refl (λ e. absurd (ground (arith, e)))

changes_to_2 : Step (record initial { cids = with_2 }) (record initial { cids = on_2 })
unfolding change_connection_id
changes_to_2 = changes (ok tt) on_2 refl

retires_0 :
    Step (record initial { cids = on_2 }) (record initial { cids = written; in_flight = 0 ∷ [] })
unfolding write_retire_connection_id
retires_0 = writes 0 written refl

run : Reach initial (record initial { cids = written; in_flight = 0 ∷ [] })
run = next (next (next here receives_2) changes_to_2) retires_0

Reach-IsCounted_example :
    IsCounted (elsewhere (record initial { cids = written; in_flight = 0 ∷ [] })) written
Reach-IsCounted_example = Reach-IsCounted run initial-IsCounted

-- The identifiers 2 and then 1 were in use, and the frame for 2 is sent again, with a request to
-- retire 1: there is no identifier left.
abbrev on_1 : PeerCids
on_1 = record on_2 {
  peer_cid = numbered 1;
  peer_cid_sequence_numbers = 1 ∷ 2 ∷ 0 ∷ [];
  retire_connection_ids = 0 ∷ 2 ∷ [];
}

none_left : (handle_new_connection_id_frame (frame 2 2) on_1).0 ≡ raise index_error
unfolding handle_new_connection_id_frame pull_uint_var pull_uint8 pull_bytes
none_left = refl
