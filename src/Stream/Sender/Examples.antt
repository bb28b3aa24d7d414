-- ===== src/Stream/Sender/Examples.antt =====
-- A run of QuicStreamSender, and the theorems at it: three bytes and the FIN are written, sent in
-- two frames, of which the first is lost and sent again, and acknowledged.
use aioquic.Base.{
  inl, inr, ℕ, ◌+◌, ◌≤◌, ◌≡◌, ◌⊎◌, refl, arith, true, false, List, [], ◌∷◌, none, some,
}
use aioquic.Base.Exception.{ok, raise, assertion_error}
use aioquic.Base.Slices.{segment, slice, fill_to, assign_slice}
use aioquic.RangeSet.{range, contains, add, add_loop, merge_following, subtract, subtract_loop}
use aioquic.Stream.{QuicStreamFrame, acked, lost}
use aioquic.Stream.Receiver as Receiver
use aioquic.Stream.Receiver.{QuicStreamReceiver}
use aioquic.Stream.Receiver.Session.{receive}
use aioquic.Stream.Sender.{
  QuicStreamSender, init, write, get_frame, frame_stop, make_frame, on_data_delivery, deliver_data,
}
use aioquic.Stream.Sender.System.{
  flight_of, System, initial, writes, sends, drops, reports, Reach, here, next,
}
use aioquic.Stream.Sender.Places.{in_flight_at}
use aioquic.Stream.Sender.Ends.{any_fin}
use aioquic.Stream.Sender.Runs.{no_deadlock, end_to_end}
use aioquic.Stream.Sender.Sound.{IsSound, Reach-IsSound, finished_all_acked}

-- A stream whose byte at offset `x` is `x + 10`.
abbrev content : ℕ → ℕ
content x = x + 10

abbrev opened : QuicStreamSender
opened = init (some 0) true

abbrev written : QuicStreamSender
written = record opened {
  buffer_is_empty = false;
  buffer = 10 ∷ 11 ∷ 12 ∷ [];
  buffer_fin = some 3;
  buffer_stop = 3;
  pending = range 0 3 ∷ [];
  pending_eof = true;
}

abbrev front : QuicStreamFrame
front = record { bytes = 10 ∷ 11 ∷ []; fin = false; offset = 0 }

abbrev rest : QuicStreamFrame
rest = record { bytes = 12 ∷ []; fin = true; offset = 2 }

abbrev sent_front : QuicStreamSender
sent_front = record written { pending = range 2 3 ∷ []; highest_offset = 2 }

abbrev sent_rest : QuicStreamSender
sent_rest = record written { pending = []; pending_eof = false; highest_offset = 3 }

abbrev lost_front : QuicStreamSender
lost_front = record sent_rest { pending = range 0 2 ∷ [] }

abbrev acked_rest : QuicStreamSender
acked_rest = record sent_rest { acked_ranges = range 2 3 ∷ []; acked_fin = true }

abbrev finish : QuicStreamSender
finish = record sent_rest { buffer = []; buffer_start = 3; acked_fin = true; is_finished = true }

abbrev step1 : System
step1 = record (initial (some 0)) { sender = written }

abbrev step3 : System
step3 = record {
  sender = sent_rest;
  in_flight = flight_of rest ∷ flight_of front ∷ [];
  dropped = [];
  sent = rest ∷ front ∷ [];
}

abbrev step5 : System
step5 = record {
  sender = sent_rest;
  in_flight = flight_of front ∷ flight_of rest ∷ [];
  dropped = [];
  sent = front ∷ rest ∷ front ∷ [];
}

abbrev step7 : System
step7 = record { sender = finish; in_flight = []; dropped = []; sent = front ∷ rest ∷ front ∷ [] }

run1 : Reach content (initial (some 0)) step1
unfolding write segment add add_loop
run1 = next here (writes 3 true written refl)

run3 : Reach content (initial (some 0)) step3
unfolding get_frame frame_stop make_frame slice subtract subtract_loop
run3 = next (next run1 (sends 2 none front sent_front refl)) (sends 10 (some 3) rest sent_rest refl)

run5 : Reach content (initial (some 0)) step5
unfolding get_frame frame_stop make_frame slice subtract subtract_loop on_data_delivery deliver_data
    add add_loop
run5 =
    next (next run3 (reports lost (flight_of rest ∷ []) (flight_of front) [] lost_front refl refl))
      (sends 5 none front sent_rest refl)

run7 : Reach content (initial (some 0)) step7
unfolding on_data_delivery deliver_data add add_loop merge_following
run7 =
    next (next run5 (reports acked (flight_of front ∷ []) (flight_of rest) [] acked_rest refl refl))
      (reports acked [] (flight_of front) [] finish refl refl)

write_after_fin : (write written (1 ∷ []) false).0 ≡ raise assertion_error
unfolding write
write_after_fin = refl

finished_all_acked_example :
    (step7.sender.buffer_fin ≡ some 3)
    × (step7.sender.acked_fin ≡ true)
    × (step7.sender.buffer_start ≡ 3)
    × ((x : ℕ) → (contains [] x ≡ false) × (in_flight_at [] x ≡ 0))
finished_all_acked_example = finished_all_acked content (some 0) step7 run7 refl

no_deadlock_example :
    ((written.buffer_is_empty ≡ false)
      × ((frame : QuicStreamFrame) × ((get_frame written 2 none).0 ≡ ok (some frame))))
    ⊎ ((any_fin [] ≡ true)
        × (written.acked_fin ≡ false)
        × (written.buffer_start ≡ written.buffer_stop)
        × (get_frame written 2 none ≡ (ok none, record written { buffer_is_empty = true })))
no_deadlock_example = no_deadlock content (some 0) step1 2 run1 refl refl refl (omega arith)

-- The stream is ended without a byte; the frame with the FIN alone is dropped, and there is no
-- other. The stream does not end.
abbrev fin_alone : QuicStreamFrame
fin_alone = record { bytes = []; fin = true; offset = 0 }

abbrev ended_empty : QuicStreamSender
ended_empty = record opened { buffer_is_empty = false; buffer_fin = some 0; pending_eof = true }

abbrev without_fin : QuicStreamSender
without_fin = record ended_empty { pending_eof = false }

abbrev dropped_fin : System
dropped_fin = record {
  sender = without_fin;
  in_flight = [];
  dropped = flight_of fin_alone ∷ [];
  sent = [];
}

fin_dropped : Reach content (initial (some 0)) dropped_fin
unfolding write segment get_frame
fin_dropped =
    next (next here (writes 0 true ended_empty refl)) (drops 0 none fin_alone without_fin refl refl)

fin_not_sent_again :
    (get_frame without_fin 100 none ≡ (ok none, record without_fin { buffer_is_empty = true }))
    × (without_fin.is_finished ≡ false)
unfolding get_frame
fin_not_sent_again = (refl, refl)

abbrev arrived : QuicStreamReceiver
arrived = record (Receiver.init (some 0)) {
  highest_offset = 3;
  is_finished = true;
  buffer_start = 3;
  final_size = some 3;
}

arrives :
    receive (Receiver.init (some 0)) (rest ∷ front ∷ front ∷ []) ≡ ok (10 ∷ 11 ∷ 12 ∷ [], arrived)
unfolding receive Receiver.handle_frame Receiver.accept_frame Receiver.deliver Receiver.pull_data
    Receiver.breaks_final_size fill_to assign_slice add add_loop merge_following
arrives = refl

end_to_end_example :
    (◌≡◌ {A = List ℕ} (10 ∷ 11 ∷ 12 ∷ []) (segment content 0 3)) × (3 ≤ step7.sender.buffer_stop)
end_to_end_example =
    end_to_end content (some 0) (some 0) step7 (rest ∷ front ∷ front ∷ []) (10 ∷ 11 ∷ 12 ∷ [])
      arrived run7 (inr (inl refl), (inl refl, (inl refl, tt))) arrives

Reach-IsSound_example : IsSound content step7
Reach-IsSound_example = Reach-IsSound run7
