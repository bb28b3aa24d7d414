-- ===== src/Stream/Receiver/Examples.antt =====
-- Runs of QuicStreamReceiver, after tests/test_stream.py, and the theorems at concrete frames.
use aioquic.Base.{
  ℕ, ◌+◌, ◌<◌, ◌≡◌, refl, arith, Bool, true, false, List, [], ◌∷◌, some, none, length,
}
use aioquic.Base.Exception.{ok, raise, final_size_error}
use aioquic.Base.Slices.{segment, fill_to, assign_slice}
use aioquic.RangeSet.{range, in_range, add, add_loop, merge_following, contains}
use aioquic.Stream.{QuicStreamFrame}
use aioquic.Stream.Receiver.{
  QuicStreamReceiver, init, handle_frame, accept_frame, deliver, pull_data, breaks_final_size,
  handle_reset,
}
use aioquic.Stream.Receiver.Reassembly.{Holds}
use aioquic.Stream.Receiver.Accept.{handle_frame_lem}
use aioquic.Stream.Receiver.Store.{Delivers}
use aioquic.Stream.Receiver.Session.{receive, receive_prefix, receive_order, covered}
use aioquic.Stream.Receiver.FinalSize.{handle_frame-IsSized, fin_below_start}
use aioquic.Stream.Receiver.Sizes.{IsSized}

-- A stream whose byte at offset `x` is `x + 10`.
abbrev content : ℕ → ℕ
content x = x + 10

abbrev frame : ℕ → ℕ → Bool → QuicStreamFrame
frame offset n fin = record { bytes = segment content offset n; fin = fin; offset = offset }

abbrev early : QuicStreamFrame
early = record { bytes = 13 ∷ 14 ∷ []; fin = true; offset = 3 }

abbrev front : QuicStreamFrame
front = record { bytes = 10 ∷ 11 ∷ 12 ∷ 13 ∷ []; fin = false; offset = 0 }

abbrev start : QuicStreamReceiver
start = init (some 0)

-- What both orders of the two frames leave.
abbrev finish : QuicStreamReceiver
finish = record start {
  highest_offset = 5;
  is_finished = true;
  buffer_start = 5;
  final_size = some 5;
}

receive_unordered : receive start (early ∷ front ∷ []) ≡ ok (10 ∷ 11 ∷ 12 ∷ 13 ∷ 14 ∷ [], finish)
unfolding receive handle_frame accept_frame deliver pull_data breaks_final_size fill_to assign_slice
    add add_loop merge_following
receive_unordered = refl

receive_ordered : receive start (front ∷ early ∷ []) ≡ ok (10 ∷ 11 ∷ 12 ∷ 13 ∷ 14 ∷ [], finish)
unfolding receive handle_frame accept_frame deliver pull_data breaks_final_size fill_to assign_slice
    add add_loop merge_following
receive_ordered = refl

-- An empty FIN ahead of the data.
receive_fin_first :
    receive start (frame 4 0 true ∷ front ∷ [])
    ≡ ok (
      10 ∷ 11 ∷ 12 ∷ 13 ∷ [],
      record finish { highest_offset = 4; buffer_start = 4; final_size = some 4 },
    )
unfolding receive handle_frame accept_frame deliver pull_data breaks_final_size fill_to assign_slice
    add add_loop merge_following segment
receive_fin_first = refl

handle_frame_beyond :
    (handle_frame finish (record early { fin = false; offset = 4 })).0 ≡ raise final_size_error
unfolding handle_frame breaks_final_size
handle_frame_beyond = refl

handle_reset_other : (handle_reset finish 6 0).0 ≡ raise final_size_error
unfolding handle_reset
handle_reset_other = refl

start-Holds : Holds content start
start-Holds = record { separated = tt; stored = λ x m. absurd (unfold contains in cc m) }

handle_frame_lem_example :
    Delivers content start (λ x. in_range x (range 3 5)) (handle_frame start early)
handle_frame_lem_example =
    handle_frame_lem content start early start-Holds (unfold segment in refl)
      (unfold breaks_final_size in refl)

receive_prefix_example :
    ((10 ∷ 11 ∷ 12 ∷ 13 ∷ 14 ∷ []) ≡ segment content 0 5)
    × (covered (early ∷ front ∷ []) 5 ≡ false)
    × ((x : ℕ) → x < 5 → covered (early ∷ front ∷ []) x ≡ true)
receive_prefix_example =
    receive_prefix content (some 0) (early ∷ front ∷ []) (10 ∷ 11 ∷ 12 ∷ 13 ∷ 14 ∷ []) finish
      (unfold segment in (refl, (refl, tt))) receive_unordered

swap_covered : (x : ℕ) → covered (early ∷ front ∷ []) x ≡ covered (front ∷ early ∷ []) x
swap_covered x = ground arith

receive_order_example : ◌≡◌ {A = List ℕ} (10 ∷ 11 ∷ 12 ∷ 13 ∷ 14 ∷ []) (10 ∷ 11 ∷ 12 ∷ 13 ∷ 14 ∷ [])
receive_order_example =
    receive_order content (some 0) (early ∷ front ∷ []) (front ∷ early ∷ [])
      (10 ∷ 11 ∷ 12 ∷ 13 ∷ 14 ∷ []) (10 ∷ 11 ∷ 12 ∷ 13 ∷ 14 ∷ []) finish finish
      (unfold segment in (refl, (refl, tt))) (unfold segment in (refl, (refl, tt))) swap_covered
      receive_unordered receive_ordered

start-IsSized : IsSized start
start-IsSized = record { start = omega arith; ends = tt; fits = tt; finished = refl }

handle_frame-IsSized_example : IsSized (handle_frame start early).1
handle_frame-IsSized_example =
    handle_frame-IsSized start early start-IsSized tt
      (unfold breaks_final_size in refl, λ e. omega arith)

-- Four bytes were handed over.
abbrev half : QuicStreamReceiver
half = record start { highest_offset = 4; buffer_start = 4 }

half-IsSized : IsSized half
half-IsSized = record { start = omega arith; ends = tt; fits = tt; finished = refl }

fin_below_start_example :
    ((handle_frame half (frame 1 2 true)).0 ≡ ok none)
    × ((handle_frame half (frame 1 2 true)).1.final_size ≡ some (1 + length (segment content 1 2)))
    × ((handle_frame half (frame 1 2 true)).1.is_finished ≡ false)
fin_below_start_example =
    fin_below_start half (frame 1 2 true) half-IsSized tt refl refl (unfold segment in omega arith)
