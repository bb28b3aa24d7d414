-- ===== src/Connection/PeerCids/Handled.antt =====
-- What a NEW_CONNECTION_ID frame does to the peer's identifiers
-- (src/aioquic/quic/connection.py).
use aioquic.Base.{
  ℕ, ◌+◌, ◌*◌, ◌≤◌, ◌≡◌, ◌⊎◌, inl, inr, refl, ap, arith, false, ◌||◌, Bool-cases, List, [], ◌∷◌,
  length, min, max, ltb, bit, count, count-append, ◌==◌, if◌then◌else◌,
}
use aioquic.Base.Exception.{Exception, index_error, quic_connection_error}
use aioquic.Base.Run.{Run, return, refuse, ◌>>◌, Out, Out-then, Out-lift, Out-test, Out-if}
use aioquic.Buffer.{Buffer, pull_uint_var, pull_uint8, pull_bytes}
use aioquic.Connection.PeerCids.{
  QuicConnectionId, PeerCids, take_first, consume_peer_cid, add_cid, retire_prior, retired,
  update_cids, check_limits, is_empty, handle_new_connection_id_frame,
}
use aioquic.Connection.PeerCids.Places.{
  numbers_of, others, total, seen, retire_all_lem, count-add_cid, count-retired, AllFrom,
  add_cid-AllFrom,
}

-- A sequence number that was seen is in one place, of these and those that `elsewhere` counts; and
-- no identifier that is active or available is to be retired.
pub record IsCounted (elsewhere : ℕ → ℕ) (c : PeerCids) : Type 0 where
  pub once : (n : ℕ) → total c n + elsewhere n ≡ seen c n
  pub active : c.peer_retire_prior_to ≤ c.peer_cid.sequence_number
  pub available : AllFrom c.peer_retire_prior_to c.peer_cid_available

abbrev pub IsLimited : PeerCids → Type 0
IsLimited c =
    (1 + length c.peer_cid_available ≤ c.local_active_connection_id_limit)
    × (length c.retire_connection_ids ≤ min (c.local_active_connection_id_limit * 4) 100)

module _ (k : ℕ → ℕ) where
  pub take_first-IsCounted :
      (cids : List QuicConnectionId) (c : PeerCids)
      → ((n : ℕ) → count n (numbers_of cids) + count n c.retire_connection_ids + k n ≡ seen c n)
      → AllFrom c.peer_retire_prior_to cids
      → Out (λ e s. e ≡ index_error) (λ u s. IsCounted k s) (take_first cids c)
  take_first-IsCounted [] c h a = refl
  take_first-IsCounted (cid ∷ cids) c h (a, rest) = record {
    once = λ n. omega (arith, h n);
    active = a;
    available = rest;
  }

  update_cids-IsCounted :
      (cid : QuicConnectionId) (retire_prior_to : ℕ) (c : PeerCids)
      → IsCounted k c
      → Out (λ e s. e ≡ index_error) (λ u s. IsCounted k s) (update_cids cid retire_prior_to c)
  update_cids-IsCounted cid p c w =
      let m = max p c.peer_retire_prior_to in
      let d = retire_prior m c in
      let all = numbers_of (retired m c) in
      let added : (n : ℕ)
          → others (add_cid cid d) n
              + (count n all
                  + k n
                  + (if ltb c.peer_cid.sequence_number m
                      then 0
                      else bit (n == c.peer_cid.sequence_number)))
            ≡ seen (add_cid cid d) n =
        λ n. count-add_cid cid d n _ (once_more n) in
      let available = add_cid-AllFrom m cid c in
      rw (retire_all_lem (retired m c) (add_cid cid d)) (
        Out-if (λ e s. e ≡ index_error) (λ u s. IsCounted k s) (ltb c.peer_cid.sequence_number m)
          consume_peer_cid (return tt) _
          (λ t.
            take_first-IsCounted (add_cid cid d).peer_cid_available _
              (λ n. omega (
                arith,
                added n,
                count-append n c.retire_connection_ids all,
                ap (λ b. if b then 0 else bit (n == c.peer_cid.sequence_number)) t,
              ))
              available)
          (λ t. record {
            once = λ n. omega (
              arith,
              added n,
              count-append n c.retire_connection_ids all,
              ap (λ b. if b then 0 else bit (n == c.peer_cid.sequence_number)) t,
            );
            active = ground (arith, t);
            available = available;
          }))
    where
      once_more :
          (n : ℕ)
          → others (retire_prior (max p c.peer_retire_prior_to) c) n
              + (count n (numbers_of (retired (max p c.peer_retire_prior_to) c))
                  + k n
                  + (if ltb c.peer_cid.sequence_number (max p c.peer_retire_prior_to)
                      then 0
                      else bit (n == c.peer_cid.sequence_number)))
            ≡ seen c n
      once_more n = ground (arith, w.once n, count-retired (max p c.peer_retire_prior_to) c n)

  check_limits-IsLimited :
      (c : PeerCids)
      → IsCounted k c
      → Out (λ e s. IsCounted k s) (λ u s. IsCounted k s × IsLimited s) (check_limits c)
  check_limits-IsLimited c w =
      let many = ltb c.local_active_connection_id_limit (1 + length c.peer_cid_available) in
      let waiting =
        ltb (min (c.local_active_connection_id_limit * 4) 100) (length c.retire_connection_ids) in
      Out-test (λ e s. IsCounted k s) (λ u s. IsCounted k s × IsLimited s) many
        (quic_connection_error 9) (refuse waiting (quic_connection_error 9)) c w
        (λ t. elim (Bool-cases waiting) [
          | inl e ↦ rw e w
          | inr e ↦ rw e (w, (ground (arith, t), ground (arith, e)))
        ])

  -- Whatever a NEW_CONNECTION_ID frame holds.
  pub handle_new_connection_id_frame-IsCounted :
      (b : Buffer) (c : PeerCids)
      → IsCounted k c
      → Out
          (λ e s. (e ≡ index_error) ⊎ IsCounted k s)
          (λ b' s. IsCounted k s × IsLimited s)
          (handle_new_connection_id_frame b c)
  unfolding handle_new_connection_id_frame
  handle_new_connection_id_frame-IsCounted b c w =
      Out-lift R Q (pull_uint_var b) _ c (λ e. inr w)
        (λ (sequence_number, b1).
          Out-lift R Q (pull_uint_var b1) _ c (λ e. inr w)
            (λ (retire_prior_to, b2).
              Out-lift R Q (pull_uint8 b2) _ c (λ e. inr w)
                (λ (size, b3).
                  Out-lift R Q (pull_bytes b3 size) _ c (λ e. inr w)
                    (λ (connection_id, b4).
                      Out-lift R Q (pull_bytes b4 16) _ c (λ e. inr w)
                        (λ (token, b5).
                          checked
                            (record {
                              cid = connection_id;
                              sequence_number = sequence_number;
                              stateless_reset_token = token;
                              was_sent = false;
                            })
                            retire_prior_to b5)))))
    where
      R : Exception → PeerCids → Type 0
      R e s = (e ≡ index_error) ⊎ IsCounted k s

      Q : Buffer → PeerCids → Type 0
      Q b' s = IsCounted k s × IsLimited s

      checked :
          (cid : QuicConnectionId) (retire_prior_to : ℕ) (b5 : Buffer)
          → Out R Q (
              (refuse (is_empty cid.cid || ltb 20 (length cid.cid)) (quic_connection_error 7)
                  >> (refuse (ltb cid.sequence_number retire_prior_to) (quic_connection_error 10)
                      >> (update_cids cid retire_prior_to >> (check_limits >> return b5))))
                c)
      checked cid retire_prior_to b5 =
          let last : Run PeerCids Buffer = check_limits >> return b5 in
          let update : Run PeerCids Buffer = update_cids cid retire_prior_to >> last in
          let ordered : Run PeerCids Buffer =
            refuse (ltb cid.sequence_number retire_prior_to) (quic_connection_error 10) >> update in
          Out-test R Q (is_empty cid.cid || ltb 20 (length cid.cid)) (quic_connection_error 7)
            ordered c (inr w)
            (λ t.
              Out-test R Q (ltb cid.sequence_number retire_prior_to) (quic_connection_error 10)
                update c (inr w)
                (λ t.
                  Out-then (λ e s. e ≡ index_error) R (λ u s. IsCounted k s) Q
                    (update_cids cid retire_prior_to) (λ u. last) c
                    (update_cids-IsCounted cid retire_prior_to c w) (λ e s h. inl h)
                    (λ u s v.
                      Out-then (λ e s. IsCounted k s) R (λ u s. IsCounted k s × IsLimited s) Q
                        check_limits (λ u. return b5) s (check_limits-IsLimited s v)
                        (λ e s h. inr h) (λ u s h. h))))
