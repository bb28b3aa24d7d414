-- ===== src/Connection/Streams/Runs.antt =====
-- In every run of the operations on the streams of a connection, the limits on their number hold
-- (src/aioquic/quic/connection.py).
use aioquic.Base.{ℕ, ◌^◌, ◌≤◌, ◌≡◌, inl, inr, arith, Bool, Bool-cases, ltb, leb, if◌then◌else◌}
use mathlib.Core.Path.{subst}
use aioquic.Base.Exception.{Result, ok, ensure, value_error, quic_connection_error}
use aioquic.Buffer.{Buffer, pull_uint_var}
use aioquic.Buffer.Moves.{bind-inv}
use aioquic.Connection.Streams.State.{
  QuicStream, QuicStreams, modify, get, stream_can_send, remote_max_streams,
}
use aioquic.Connection.Streams.Opening.{get_or_create_stream, get_or_create_stream_for_send}
use aioquic.Connection.Streams.Unblocking.{
  unblock_streams, handle_max_data_frame, handle_max_stream_data_frame, set_remote_max_streams,
  handle_max_streams_frame,
}
use aioquic.Connection.Streams.Limits.{
  used_of, remote_of, IsWithin, AllWithin-grow, AllWithin-modify, remote_grows,
}
use aioquic.Connection.Streams.Steps.{
  get_or_create_stream-IsWithin, create_stream_for_send-IsWithin, unblock_streams-IsWithin,
}

-- An operation that raises no exception.
pub data Step (c c' : QuicStreams) : Type 0 where
  opens :
      (stream_id : ℕ) (s : QuicStream) → get_or_create_stream c stream_id ≡ ok (s, c') → Step c c'
  sends :
      (stream_id : ℕ) (s : QuicStream)
      → get_or_create_stream_for_send c stream_id ≡ ok (s, c')
      → Step c c'
  max_data : (b b' : Buffer) → handle_max_data_frame c b ≡ ok (c', b') → Step c c'
  max_stream_data : (b b' : Buffer) → handle_max_stream_data_frame c b ≡ ok (c', b') → Step c c'
  max_streams :
      (is_unidirectional : Bool) (b b' : Buffer)
      → handle_max_streams_frame is_unidirectional c b ≡ ok (c', b')
      → Step c c'

pub data Run (c : QuicStreams) : QuicStreams → Type 0 where
  start : Run c c
  step : {d e : QuicStreams} → Run c d → Step d e → Run c e

for_send-IsWithin :
    (c c' : QuicStreams) (id : ℕ) (s : QuicStream)
    → get_or_create_stream_for_send c id ≡ ok (s, c')
    → IsWithin c
    → IsWithin c'
unfolding get_or_create_stream_for_send
for_send-IsWithin c c' id s e w =
    let (u0, e0, h0) = bind-inv (ensure (stream_can_send c id) value_error) _ _ e in
    create_stream_for_send-IsWithin c c' id (get id c.streams) s h0 w

module _ (c c' : QuicStreams) (b b' : Buffer) where
  returned :
      (d : QuicStreams) (b1 : Buffer)
      → IsWithin d
      → ◌≡◌ {A = Result (QuicStreams × Buffer)} (ok (d, b1)) (ok (c', b'))
      → IsWithin c'
  returned d b1 w h = let equal : d ≡ c' = ground (arith, h) in subst IsWithin equal w

  max_data-IsWithin : handle_max_data_frame c b ≡ ok (c', b') → IsWithin c → IsWithin c'
  unfolding handle_max_data_frame
  max_data-IsWithin e w =
      let ((n, b1), e1, h1) = bind-inv (pull_uint_var b) _ _ e in
      returned (if ltb c.remote_max_data n then record c { remote_max_data = n } else c) b1
        (elim (Bool-cases (ltb c.remote_max_data n)) [
          | inl t ↦ rw t (record { each = w.each; counted = w.counted; blocked = w.blocked })
          | inr t ↦ rw t w
        ])
        h1

  max_stream_data-IsWithin :
      handle_max_stream_data_frame c b ≡ ok (c', b') → IsWithin c → IsWithin c'
  unfolding handle_max_stream_data_frame
  max_stream_data-IsWithin e w =
      let ((id, b1), e1, h1) = bind-inv (pull_uint_var b) _ _ e in
      let ((n, b2), e2, h2) = bind-inv (pull_uint_var b1) _ _ h1 in
      let (u0, e3, h3) =
        bind-inv (ensure (stream_can_send c id) (quic_connection_error 5)) _ _ h2 in
      let ((s, d), e4, h4) = bind-inv (get_or_create_stream c id) _ _ h3 in
      let v = get_or_create_stream-IsWithin c d id s e4 w in
      let f : QuicStream → QuicStream = λ s. record s { max_stream_data_remote = n } in
      returned
        (if ltb s.max_stream_data_remote n then record d { streams = modify id f d.streams } else d)
        b2
        (elim (Bool-cases (ltb s.max_stream_data_remote n)) [
          | inl t ↦ rw t (record {
            each =
                AllWithin-modify (used_of d) (remote_of d) d.is_client id f d.streams (λ s l. l)
                  v.each;
            counted = v.counted;
            blocked = v.blocked;
          })
          | inr t ↦ rw t v
        ])
        h4

  max_streams-IsWithin :
      (u : Bool) → handle_max_streams_frame u c b ≡ ok (c', b') → IsWithin c → IsWithin c'
  unfolding handle_max_streams_frame
  max_streams-IsWithin u e w =
      let ((n, b1), e1, h1) = bind-inv (pull_uint_var b) _ _ e in
      let (u0, e2, h2) = bind-inv (ensure (leb n (2 ^ 60)) (quic_connection_error 7)) _ _ h1 in
      let later = set_remote_max_streams u n c in
      returned (if ltb (remote_max_streams u c) n then unblock_streams later u else c) b1
        (elim (Bool-cases (ltb (remote_max_streams u c) n)) [
          | inl t ↦
              let grows : remote_of c u ≤ n = ground (arith, t) in
              rw t (
                unblock_streams-IsWithin later u (record {
                  each =
                      AllWithin-grow (used_of c) (used_of c) (remote_of c) (remote_of later)
                        c.is_client c.streams (λ v. omega arith) (λ v. remote_grows u v n c grows)
                        w.each;
                  counted = w.counted;
                  blocked = w.blocked;
                }))
          | inr t ↦ rw t w
        ])
        h2

step-IsWithin : (c c' : QuicStreams) → Step c c' → IsWithin c → IsWithin c'
step-IsWithin c c' (opens id s e) w = get_or_create_stream-IsWithin c c' id s e w
step-IsWithin c c' (sends id s e) w = for_send-IsWithin c c' id s e w
step-IsWithin c c' (max_data b b' e) w = max_data-IsWithin c c' b b' e w
step-IsWithin c c' (max_stream_data b b' e) w = max_stream_data-IsWithin c c' b b' e w
step-IsWithin c c' (max_streams u b b' e) w = max_streams-IsWithin c c' b b' u e w

-- In every run of stream openings from either side and of MAX_DATA, MAX_STREAM_DATA and MAX_STREAMS
-- frames that raise no exception, from a state that keeps to the limits: a stream of the peer is one
-- of those that its limit counts, of which there are no more than the limit allows, and a stream of
-- this endpoint is blocked or below the peer's limit, by its direction. The lists of blocked streams
-- hold streams of their direction.
pub run-IsWithin : {c c' : QuicStreams} → Run c c' → IsWithin c → IsWithin c'
run-IsWithin start w = w
run-IsWithin (step r s) w = step-IsWithin _ _ s (run-IsWithin r w)
