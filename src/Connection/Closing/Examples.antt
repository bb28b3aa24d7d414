-- ===== src/Connection/Closing/Examples.antt =====
-- A connection over Reno that has sent a packet and is closed (src/aioquic/quic/connection.py).
use aioquic.Base.{ℕ, ◌≡◌, inl, refl, arith, true, false, none, some, [], ◌∷◌, replicate}
use aioquic.Base.Exception.{ok, raise, assertion_error}
use aioquic.Buffer.{new, push_uint_var, push_bytes}
use aioquic.Congestion.{QuicSentPacket}
use aioquic.Congestion.Reno.{init}
use aioquic.Congestion.Reno.Window.{reno}
use aioquic.Recovery.Space.{QuicPacketSpace, QuicPacketRecovery, new_space}
use aioquic.Recovery.Timeout.{total_flying, IsBalanced}
use aioquic.Connection.Closing.Frame.{
  initial, one_rtt, ConnectionTerminated, decodes, decode_reason, write_connection_close_frame,
}
use aioquic.Connection.Closing.State.{
  connected, closing, terminated, first_flight, Closing, close_end, start_handshake, connect,
  receive_version_negotiation_packet,
}
use aioquic.Connection.Closing.Timer.{get_timer, handle_timer, set_loss_at}
use aioquic.Connection.Closing.System.{
  IsOrderly, IsLater, Step, closes, sends_close, fires, Reach, here, next,
}
use aioquic.Connection.Closing.Runs.{Reach-IsOrderly}
use aioquic.Connection.Closing.Ends.{Ends, closing-Ends}
use aioquic.Connection.Closing.Earliest.{armed, timers_of, IsLeast, get_timer_lem}
use aioquic.Connection.Closing.Restart.{bytes_in_flight, start_handshake-bytes}
use aioquic.Connection.Closing.RoundTrip.{IsEvent, Tells, close_frame_lem}

abbrev packet : QuicSentPacket
packet = record {
  in_flight = true;
  is_ack_eliciting = true;
  is_crypto_packet = true;
  packet_number = 0;
  sent_time = 1000;
  sent_bytes = 1280;
  delivery_handlers = [];
}

abbrev loss : QuicPacketRecovery reno
loss = record {
  cc = record (init 1280) { bytes_in_flight = 1280 };
  pto_count = 0;
  rtt = record {
    initial = 8000;
    initialized = false;
    latest = 0;
    minimum = none;
    smoothed = 0;
    variance = 0;
  };
  time_of_last_sent_ack_eliciting_packet = 1000;
}

abbrev space : QuicPacketSpace
space = record new_space {
  ack_at = some 2000;
  ack_eliciting_in_flight = 1;
  sent_packets = packet ∷ [];
}

abbrev client : Closing reno
client = record {
  is_client = true;
  connect_called = true;
  original_version = none;
  supported_versions = 1 ∷ [];
  version = 1;
  version_negotiated_incompatible = false;
  packet_number = 1;
  state = connected;
  close_at = some 61000;
  close_event = none;
  close_pending = false;
  events = [];
  loss_at = none;
  pacing_at = none;
  probe_pending = false;
  peer_completed_address_validation = false;
  idle_timeout = 60000;
  remote_max_idle_timeout = none;
  loss = loss;
  spaces = space ∷ new_space ∷ new_space ∷ [];
}

client-IsBalanced : IsBalanced reno 0 client.loss client.spaces
client-IsBalanced = record { bytes = refl; counted = (refl, (refl, (refl, tt))) }

-- NO_ERROR, by the application, with the reason "ok".
abbrev bye : ConnectionTerminated
bye = record { error_code = 0; frame_type = none; reason_phrase = 111 ∷ 107 ∷ [] }

abbrev told : Closing reno
told = record client { close_event = some bye; close_pending = true }

abbrev ending : Closing reno
ending = record told { close_pending = false; close_at = some 53000; state = closing }

sends_bye : Step reno told ending
unfolding write_connection_close_frame push_uint_var push_bytes
sends_bye =
    sends_close ((one_rtt, 40) ∷ []) 5000 (new (replicate 60 0))
      (record { memory = 29 ∷ 0 ∷ 2 ∷ 111 ∷ 107 ∷ replicate 55 0; pos = 5 }) ending refl

abbrev over : Closing reno
over = close_end reno ending

ends : Step reno ending over
unfolding handle_timer
ends = fires 60000 (ok []) over refl

run : Reach reno client over
run = next (next (next here (closes bye)) sends_bye) ends

Reach-IsOrderly_example : IsOrderly reno over × IsLater reno client over
Reach-IsOrderly_example = Reach-IsOrderly reno run (refl, refl)

closing-Ends_example : Ends reno 60000 ending
closing-Ends_example =
    closing-Ends reno ending 60000 (inl refl) (refl, refl, refl, refl) client-IsBalanced
      (inl refl, (inl refl, (inl refl, tt)))

get_timer_lem_example :
    (m : ℕ) × (get_timer reno client ≡ (ok (some m), set_loss_at reno client))
    × IsLeast m (61000 ∷ armed (timers_of reno client))
get_timer_lem_example = get_timer_lem reno client 61000 refl refl

-- The acknowledgement is due first.
first_timer : get_timer reno client ≡ (ok (some 2000), set_loss_at reno client)
unfolding get_timer
first_timer = refl

start_handshake-bytes_example :
    (bytes_in_flight reno (start_handshake reno none 3000 client) ≡ 1280)
    × (total_flying reno (start_handshake reno none 3000 client).spaces ≡ 0)
    × (bytes_in_flight reno (close_end reno (start_handshake reno none 3000 client)) ≡ 1280)
start_handshake-bytes_example = start_handshake-bytes reno none 3000 client client-IsBalanced

bye-IsEvent : IsEvent bye
unfolding decodes
bye-IsEvent = record { code = omega arith; type = tt; size = omega arith; text = refl }

close_frame_lem_example : Tells reno 40 initial bye (new (replicate 60 0)) 9000 client
close_frame_lem_example =
    close_frame_lem reno 40 initial bye (new (replicate 60 0)) 9000 client bye-IsEvent (omega arith)
      refl

-- A byte that is no UTF-8 makes the reason empty.
not_text : decode_reason (111 ∷ 0xED ∷ 0xA0 ∷ 0x80 ∷ []) ≡ []
unfolding decode_reason decodes
not_text = refl

not_connected : connect reno none 0 client ≡ raise assertion_error
unfolding connect
not_connected = refl

no_version :
    (receive_version_negotiation_packet reno
      (7 ∷ [])
      none
      0
      (record client { state = first_flight })).state
    ≡ terminated
unfolding receive_version_negotiation_packet
no_version = refl
