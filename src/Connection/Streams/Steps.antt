-- ===== src/Connection/Streams/Steps.antt =====
-- No operation on the streams of a connection goes beyond the limits on their number
-- (src/aioquic/quic/connection.py).
use aioquic.Base.{
  is_in, ℕ, ◌+◌, ◌/◌, ◌≤◌, ◌<◌, ◌≡◌, inl, inr, refl, sym, arith, Bool, true, false, not, Bool-cases,
  Option, none, some, List, [], ◌∷◌, ◌&&◌, ltb, leb, if◌then◌else◌,
}
use mathlib.Core.Path.{subst}
use aioquic.Base.Exception.{ok, ensure, value_error, quic_connection_error, stream_finished_error}
use aioquic.Buffer.Moves.{bind-inv, ensure-inv}
use aioquic.H3.State.{stream_is_unidirectional, stream_is_client_initiated}
use aioquic.Connection.Streams.State.{
  QuicStream, QuicStreams, same, get, is_local, local_max_streams, remote_max_streams,
  streams_blocked,
}
use aioquic.Connection.Streams.Opening.{
  use_stream, add_stream, peer_stream, own_stream, create_stream, get_or_create_stream, next_stream,
  block_stream, create_stream_for_send,
}
use aioquic.Connection.Streams.Unblocking.{
  unblock, max_stream_data, nothing_pending, is_empty, unblock_streams,
}
use aioquic.Connection.Streams.Limits.{
  AllWithin, AllOf, used_of, remote_of, IsWithin, AllWithin-grow, AllWithin-snoc, AllWithin-modify,
  Within-opened, used_grows, used_reaches, used_counted, Within-own, Within-unblocked,
  AllOf-blocked, AllOf-put,
}

not-true : (b : Bool) → not b ≡ true → b ≡ false
not-true true h = absurd (ground (arith, h))
not-true false h = refl

peer_stream-IsWithin :
    (c : QuicStreams) (id : ℕ)
    → is_local c id ≡ false
    → id / 4 + 1 ≤ (local_max_streams (stream_is_unidirectional id) c).value
    → IsWithin c
    → IsWithin (
        add_stream
          (peer_stream (stream_is_unidirectional id) id c)
          (use_stream (stream_is_unidirectional id) (id / 4 + 1) c))
peer_stream-IsWithin c id l h w =
    let u = stream_is_unidirectional id in
    let n = id / 4 + 1 in
    let later = use_stream u n c in
    record {
      each =
          AllWithin-snoc (used_of later) (remote_of c) c.is_client c.streams id (peer_stream u id c)
            (AllWithin-grow (used_of c) (used_of later) (remote_of c) (remote_of c) c.is_client
              c.streams (λ v. used_grows u v n c) (λ v. omega arith) w.each)
            (Within-opened _ _ (is_local c id) id false l (used_reaches u n c), tt);
      counted = λ v. used_counted u v n c (w.counted v) h;
      blocked = w.blocked;
    }

create_stream-IsWithin :
    (c c' : QuicStreams) (id : ℕ) (found : Option QuicStream) (s : QuicStream)
    → create_stream c id found ≡ ok (s, c')
    → IsWithin c
    → IsWithin c'
create_stream-IsWithin c c' id (some t) s e w =
    let equal : c ≡ c' = ground (arith, e) in subst IsWithin equal w
create_stream-IsWithin c c' id none s e w =
    let u = stream_is_unidirectional id in
    let (u0, e0, h0) = bind-inv (ensure (not (is_local c id)) (quic_connection_error 5)) _ _ e in
    let (u1, e1, h1) =
      bind-inv (ensure (leb (id / 4 + 1) (local_max_streams u c).value) (quic_connection_error 4)) _
        _ h0 in
    let equal : add_stream (peer_stream u id c) (use_stream u (id / 4 + 1) c) ≡ c' =
      ground (arith, h1) in
    subst IsWithin equal (
      peer_stream-IsWithin c id
        (not-true (is_local c id)
          (ensure-inv (not (is_local c id)) (quic_connection_error 5) u0 e0))
        (ground (
          arith,
          ensure-inv (leb (id / 4 + 1) (local_max_streams u c).value) (quic_connection_error 4) u1
              e1,
        ))
        w)

pub get_or_create_stream-IsWithin :
    (c c' : QuicStreams) (id : ℕ) (s : QuicStream)
    → get_or_create_stream c id ≡ ok (s, c')
    → IsWithin c
    → IsWithin c'
unfolding get_or_create_stream
get_or_create_stream-IsWithin c c' id s e w =
    let (u0, e0, h0) =
      bind-inv (ensure (not (is_in id c.streams_finished)) stream_finished_error) _ _ e in
    create_stream-IsWithin c c' id (get id c.streams) s h0 w

own_stream-IsWithin :
    (c : QuicStreams) (id : ℕ) (is_blocked : Bool)
    → is_local c id ≡ true
    → leb (remote_max_streams (stream_is_unidirectional id) c) (id / 4) ≡ is_blocked
    → IsWithin c
    → IsWithin (
        let u = stream_is_unidirectional id in
        let s = record (own_stream u id c) { is_blocked = is_blocked } in
        let later = next_stream u id (add_stream s c) in
        if is_blocked then block_stream u id later else later)
own_stream-IsWithin c id true l b w =
    let u = stream_is_unidirectional id in
    record {
      each =
          AllWithin-snoc (used_of c) (remote_of c) c.is_client c.streams id _ w.each
            (Within-own _ _ (is_local c id) id true l (inl refl), tt);
      counted = w.counted;
      blocked =
          λ v. AllOf-blocked u v id c.streams_blocked_uni c.streams_blocked_bidi refl (w.blocked v);
    }
own_stream-IsWithin c id false l b w = record {
  each =
      AllWithin-snoc (used_of c) (remote_of c) c.is_client c.streams id _ w.each
        (Within-own _ _ (is_local c id) id false l (inr (ground (arith, b))), tt);
  counted = w.counted;
  blocked = w.blocked;
}

pub create_stream_for_send-IsWithin :
    (c c' : QuicStreams) (id : ℕ) (found : Option QuicStream) (s : QuicStream)
    → create_stream_for_send c id found ≡ ok (s, c')
    → IsWithin c
    → IsWithin c'
create_stream_for_send-IsWithin c c' id (some t) s e w =
    let equal : c ≡ c' = ground (arith, e) in subst IsWithin equal w
create_stream_for_send-IsWithin c c' id none s e w =
    let (u0, e0, h0) = bind-inv (ensure (is_local c id) value_error) _ _ e in
    let l = ensure-inv (is_local c id) value_error u0 e0 in
    subst IsWithin (ok-inv h0) (own_stream-IsWithin c id _ l refl w)
  where
    ok-inv : {r : QuicStream × QuicStreams} → ok r ≡ ok (s, c') → r.1 ≡ c'
    ok-inv h = ground (arith, h)

unblock-IsWithin :
    (used remote : Bool → ℕ) (client u : Bool) (data_limit max_streams : ℕ) (ids : List ℕ)
    (streams : List (ℕ × QuicStream))
    → max_streams ≤ remote u
    → AllOf u ids
    → AllWithin used remote client streams
    → AllOf u (unblock data_limit max_streams ids streams).0
      × AllWithin used remote client (unblock data_limit max_streams ids streams).1
unfolding unblock
unblock-IsWithin used remote client u d m [] streams h a w = (a, w)
unblock-IsWithin used remote client u d m (id ∷ ids) streams h (a, rest) w =
    elim (Bool-cases (ltb (id / 4) m)) [
      | inr e ↦ rw e ((a, rest), w)
      | inl e ↦
          let below : id / 4 < remote (stream_is_unidirectional id) =
            subst (λ v. id / 4 < remote v) (sym a) (ground (arith, e, h)) in
          rw e (
            unblock-IsWithin used remote client u d m ids _ h rest (
              AllWithin-modify used remote client id
                (λ s. record s { is_blocked = false; max_stream_data_remote = d }) streams
                (λ s l. (
                  Within-unblocked _ _ (same (stream_is_client_initiated id) client) id s.is_blocked
                      false below l.0,
                  tt,
                ))
                w))
    ]

nothing_pending-IsWithin : (c : QuicStreams) → IsWithin c → IsWithin (nothing_pending c)
nothing_pending-IsWithin c w =
    elim (Bool-cases (is_empty c.streams_blocked_bidi && is_empty c.streams_blocked_uni)) [
      | inl e ↦ rw e (record { each = w.each; counted = w.counted; blocked = w.blocked })
      | inr e ↦ rw e w
    ]

pub unblock_streams-IsWithin :
    (c : QuicStreams) (u : Bool) → IsWithin c → IsWithin (unblock_streams c u)
unfolding unblock_streams
unblock_streams-IsWithin c u w =
    let (a, each) =
      unblock-IsWithin (used_of c) (remote_of c) c.is_client u (max_stream_data u c)
        (remote_max_streams u c) (streams_blocked u c) c.streams (omega arith) (w.blocked u)
        w.each in
    nothing_pending-IsWithin _ (record {
      each = each;
      counted = w.counted;
      blocked = λ v. AllOf-put u v _ c.streams_blocked_uni c.streams_blocked_bidi a (w.blocked v);
    })
