-- ===== src/Stream/Receiver/FinalSize.antt =====
-- When a QuicStreamReceiver is finished, and the final size of its stream.
use aioquic.Base.{
  ℕ, suc, ◌+◌, ◌-◌, ◌≤◌, ◌<◌, ◌≡◌, refl, sym, ap, ◌∙◌, arith, Bool, true, false, not, ◌||◌, ◌&&◌,
  List, [], ◌∷◌, Option, some, none, ltb, ltb→lt, ◌==◌, if◌then◌else◌, eq_some, Bool-cases, inl,
  inr, length, drop, length-drop,
}
use aioquic.Base.Exception.{ok}
use aioquic.Base.Slices.{fill_to, length-fill_to, length-fill_to_eq, length-assign_slice}
use aioquic.RangeSet.{RangeSet, add}
use native.Mathlib.Nat.{le_trans}
use aioquic.RangeSet.Shape.{IsSeparated, IsSeparated-weaken, add_loop-IsSeparated}
use aioquic.Stream.{QuicStreamFrame}
use aioquic.Stream.Receiver.Store.{marked}
use aioquic.Stream.Receiver.{
  QuicStreamReceiver, pull_front, pull_data, deliver, store, accept_frame, handle_frame, record_end,
  breaks_final_size, is_empty,
}
use aioquic.Stream.Receiver.Sizes.{EndsBy-weaken, add_loop-EndsBy, Fits, IsSized, deliver-IsSized}

-- What `handle_frame` needs of a frame for the receiver to stay sized: it keeps to a known final
-- size, and a final size that it sets is not below what was received.
abbrev pub SetsSize : QuicStreamReceiver → QuicStreamFrame → Type 0
SetsSize r frame =
    (breaks_final_size r.final_size (frame.offset + length frame.bytes) frame.fin ≡ false)
    × (frame.fin ≡ true → r.highest_offset ≤ frame.offset + length frame.bytes)

new-Fits :
    (size : Option ℕ) (highest reach reach' frame_end : ℕ) (fin : Bool)
    → Fits size highest reach
    → breaks_final_size size frame_end fin ≡ false
    → (fin ≡ true → highest ≤ frame_end)
    → reach ≤ reach'
    → frame_end ≤ reach'
    → Fits
        (if fin then some frame_end else size)
        (if ltb highest frame_end then frame_end else highest)
        reach'
unfolding breaks_final_size
new-Fits none highest reach reach' frame_end true f b l g k = ground (arith, l refl)
new-Fits none highest reach reach' frame_end false f b l g k = ground arith
new-Fits (some n) highest reach reach' frame_end true f b l g k = ground (arith, l refl)
new-Fits (some n) highest reach reach' frame_end false f b l g k = ground arith

new_finished :
    (size : Option ℕ) (frame_end start : ℕ) (fin : Bool)
    → breaks_final_size size frame_end fin ≡ false
    → eq_some size start ≡ true
    → eq_some (if fin then some frame_end else size) start ≡ true
unfolding breaks_final_size
new_finished none frame_end start fin b f = absurd (ground arith)
new_finished (some n) frame_end start true b f = ground arith
new_finished (some n) frame_end start false b f = ground arith

module _ (r : QuicStreamReceiver) (frame : QuicStreamFrame) (s : IsSized r)
    (w : IsSeparated (suc r.buffer_start) r.ranges) (sets : SetsSize r frame) where
  abbrev frame_end : ℕ
  frame_end = frame.offset + length frame.bytes

  slow-IsSized :
      (bytes : List ℕ) (offset : ℕ)
      → r.buffer_start ≤ offset
      → frame_end ≤ offset + length bytes
      → IsSized
          (store
            (record_end r frame_end frame.fin)
            bytes
            offset
            (if ltb offset frame_end then add r.ranges offset frame_end else ok r.ranges)).1
  slow-IsSized bytes offset above reach =
      let pos = offset - r.buffer_start in
      let filled = fill_to pos r.buffer in
      let highest = if ltb r.highest_offset frame_end then frame_end else r.highest_offset in
      let w0 = IsSeparated-weaken r.ranges {lo = r.buffer_start} (omega arith) w in
      let grown = length-assign_slice filled pos bytes (length-fill_to pos r.buffer) in
      let le : r.highest_offset ≤ highest = ground arith in
      let ge : frame_end ≤ highest = ground arith in
      rw (marked r.ranges offset frame_end) (
        deliver-IsSized _
          (record {
            start = le_trans s.start le;
            ends = elim (Bool-cases (ltb offset frame_end)) [
              | inl h ↦ rw h (
                  add_loop-EndsBy r.ranges offset frame_end highest
                    (EndsBy-weaken r.ranges r.highest_offset highest le s.ends) ge)
              | inr h ↦ rw h (EndsBy-weaken r.ranges r.highest_offset highest le s.ends)
            ];
            fits =
                new-Fits r.final_size r.highest_offset _ _ frame_end frame.fin s.fits sets.0 sets.1
                  (omega (arith, grown, length-fill_to_eq pos r.buffer))
                  (omega (arith, grown, length-fill_to_eq pos r.buffer));
            finished = λ f.
                new_finished r.final_size frame_end r.buffer_start frame.fin sets.0
                  (sym s.finished ∙ f);
          })
          (ground (arith, add_loop-IsSeparated r.ranges r.buffer_start offset frame_end)))

  fast-IsSized :
      frame.offset ≡ r.buffer_start
      → 0 < length frame.bytes
      → r.buffer ≡ []
      → IsSized (record (record_end r frame_end frame.fin) {
        buffer_start = r.buffer_start + length frame.bytes;
        is_finished = frame.fin || r.is_finished;
      })
  fast-IsSized at_start some_bytes empty = record {
    start = ground arith;
    ends = EndsBy-weaken r.ranges r.highest_offset _ (ground arith) s.ends;
    fits =
        new-Fits r.final_size r.highest_offset _ _ frame_end frame.fin s.fits sets.0 sets.1
          (omega arith) (omega arith);
    finished = ends_now r.final_size frame.fin s.fits sets.0 s.finished;
  }
    where
      ends_now :
          (size : Option ℕ) (fin : Bool)
          → Fits size r.highest_offset (r.buffer_start + length r.buffer)
          → breaks_final_size size frame_end fin ≡ false
          → r.is_finished ≡ eq_some size r.buffer_start
          → (fin || r.is_finished)
            ≡ eq_some (if fin then some frame_end else size) (r.buffer_start + length frame.bytes)
      ends_now none true f b e = ground arith
      ends_now none false f b e = ground arith
      ends_now (some n) true f b e = ground arith
      ends_now (some n) false f b e =
          absurd (unfold breaks_final_size in ground (arith, ap length empty))

-- A frame that keeps to the final size, and sets none below what was received, leaves a receiver
-- that is finished exactly when all bytes up to the final size were handed over.
pub handle_frame-IsSized :
    (r : QuicStreamReceiver) (frame : QuicStreamFrame)
    → IsSized r
    → IsSeparated (suc r.buffer_start) r.ranges
    → SetsSize r frame
    → IsSized (handle_frame r frame).1
unfolding handle_frame accept_frame
handle_frame-IsSized r frame s w sets =
    rw sets.0
      (elim (Bool-cases (
        (frame.offset == r.buffer_start) && (not (length frame.bytes == 0) && is_empty r.buffer))) [
          | inl fast ↦
              rw fast (fast-IsSized r frame s w sets (ground arith) (ground arith) (ground arith))
          | inr slow ↦ elim (Bool-cases (ltb frame.offset r.buffer_start)) [
            | inl late ↦
                rw (slow, late)
                  (slow-IsSized r frame s w sets (drop (r.buffer_start - frame.offset) frame.bytes)
                    r.buffer_start (omega arith)
                    (omega (
                      arith,
                      length-drop (r.buffer_start - frame.offset) frame.bytes,
                      ltb→lt _ _ late,
                    )))
            | inr on_time ↦
                rw (slow, on_time)
                  (slow-IsSized r frame s w sets frame.bytes frame.offset (ground arith)
                    (omega arith))
          ]
        ])

pull_front-none :
    (s : RangeSet) (r : QuicStreamReceiver)
    → IsSeparated (suc r.buffer_start) s
    → pull_front s r ≡ ([], r)
pull_front-none [] r w = refl
pull_front-none (q ∷ qs) r w = ground arith

-- A first FIN whose end lies below the bytes that were handed over already is not refused: the
-- call returns with no event, records the smaller final size, and the receiver is not finished.
pub fin_below_start :
    (r : QuicStreamReceiver) (frame : QuicStreamFrame)
    → IsSized r
    → IsSeparated (suc r.buffer_start) r.ranges
    → r.final_size ≡ none
    → frame.fin ≡ true
    → frame.offset + length frame.bytes < r.buffer_start
    → ((handle_frame r frame).0 ≡ ok none)
      × ((handle_frame r frame).1.final_size ≡ some (frame.offset + length frame.bytes))
      × ((handle_frame r frame).1.is_finished ≡ false)
unfolding handle_frame accept_frame breaks_final_size deliver pull_data
fin_below_start r frame s w unknown fin below =
    let fe = frame.offset + length frame.bytes in
    let late : ltb frame.offset r.buffer_start ≡ true = ground arith in
    let early : (frame.offset == r.buffer_start) ≡ false = ground arith in
    let unmarked : ltb r.buffer_start fe ≡ false = ground arith in
    let short : (fe == r.buffer_start) ≡ false = ground arith in
    let open_still : r.is_finished ≡ false =
      s.finished ∙ ap (λ o. eq_some o r.buffer_start) unknown in
    rw (unknown, late, early, unmarked, fin, pull_front-none) (ground arith, refl, ground arith)
