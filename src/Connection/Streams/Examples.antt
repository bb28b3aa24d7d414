-- ===== src/Connection/Streams/Examples.antt =====
-- Streams that a server opens and that are opened to it (src/aioquic/quic/connection.py).
use aioquic.Base.{◌≡◌, ◌≤◌, none, refl, arith, Bool, true, false, [], ◌∷◌}
use aioquic.Base.Exception.{Result, ok, raise, quic_connection_error}
use aioquic.Buffer.{new, pull_uint_var}
use aioquic.Connection.Streams.State.{
  QuicStream, QuicStreams, new_stream, local_max_streams, streams_blocked, stream_can_send,
}
use aioquic.Connection.Streams.Opening.{
  create_stream, create_stream_for_send, get_or_create_stream, get_or_create_stream_for_send,
}
use aioquic.Connection.Streams.Unblocking.{
  set_remote_max_streams, unblock, unblock_streams, handle_max_streams_frame,
}
use aioquic.Connection.Streams.Limits.{IsWithin, AllOf}
use aioquic.Connection.Streams.Runs.{Step, start, step, opens, sends, max_streams, run-IsWithin}

-- A server that may open one stream of each kind.
abbrev server : QuicStreams
server = record {
  is_client = false;
  streams = [];
  streams_queue = [];
  streams_finished = [];
  streams_blocked_bidi = [];
  streams_blocked_uni = [];
  streams_blocked_pending = false;
  local_max_stream_data_bidi_local = 100;
  local_max_stream_data_bidi_remote = 100;
  local_max_stream_data_uni = 100;
  local_max_streams_bidi = record { sent = 2; used = 0; value = 2 };
  local_max_streams_uni = record { sent = 2; used = 0; value = 2 };
  local_next_stream_id_bidi = 1;
  local_next_stream_id_uni = 3;
  remote_max_data = 100;
  remote_max_stream_data_bidi_local = 50;
  remote_max_stream_data_bidi_remote = 50;
  remote_max_stream_data_uni = 50;
  remote_max_streams_bidi = 1;
  remote_max_streams_uni = 1;
}

server-IsWithin : IsWithin server
server-IsWithin = record { each = tt; counted = server_counted; blocked = server_blocked }
  where
    server_counted :
        (u : Bool) → (local_max_streams u server).used ≤ (local_max_streams u server).value
    server_counted true = omega arith
    server_counted false = omega arith

    server_blocked : (u : Bool) → AllOf u (streams_blocked u server)
    server_blocked true = tt
    server_blocked false = tt

abbrev state_of : Result (QuicStream × QuicStreams) → QuicStreams
state_of (ok (s, c)) = c
state_of (raise e) = server

abbrev stream_of : QuicStream → Result (QuicStream × QuicStreams) → QuicStream
stream_of default (ok (s, c)) = s
stream_of default (raise e) = default

-- The client opens stream 4.
abbrev opened : Result (QuicStream × QuicStreams)
opened = create_stream server 4 none

-- The server opens stream 5, which is blocked.
abbrev blocked : Result (QuicStream × QuicStreams)
blocked = create_stream_for_send (state_of opened) 5 none

-- Three streams are allowed.
abbrev unblocked : QuicStreams
unblocked = unblock_streams (set_remote_max_streams false 3 (state_of blocked)) false

opens_4 : Step server (state_of opened)
unfolding get_or_create_stream
opens_4 = opens 4 (stream_of (new_stream 4 0 0 true) opened) refl

sends_5 : Step (state_of opened) (state_of blocked)
unfolding get_or_create_stream_for_send stream_can_send
sends_5 = sends 5 (stream_of (new_stream 5 0 0 true) blocked) refl

allows_3 : Step (state_of blocked) unblocked
unfolding handle_max_streams_frame pull_uint_var
allows_3 = max_streams false (new (3 ∷ [])) (record { memory = 3 ∷ []; pos = 1 }) refl

run-IsWithin_example : IsWithin unblocked
run-IsWithin_example =
    run-IsWithin (step (step (step start opens_4) sends_5) allows_3) server-IsWithin

blocked_5 : (state_of blocked).streams_blocked_bidi ≡ 5 ∷ []
blocked_5 = refl

unblocked_5 : unblocked.streams_blocked_bidi ≡ []
unfolding unblock_streams unblock
unblocked_5 = refl

third_stream : get_or_create_stream server 8 ≡ raise (quic_connection_error 4)
unfolding get_or_create_stream
third_stream = refl
