-- ===== src/Stream/Receiver/Accept.antt =====
-- `handle_frame` of QuicStreamReceiver, when the frame carries the content of the stream.
use aioquic.Base.{
  ℕ, suc, ◌+◌, ◌-◌, ◌≤◌, ◌<◌, ◌≡◌, refl, sym, ap, ◌∙◌, arith, Bool, false, not, ◌||◌, ◌&&◌, List,
  [], ◌∷◌, some, ltb, ltb→lt, ◌==◌, if◌then◌else◌, Bool-cases, inl, inr, length, drop,
}
use mathlib.Core.Path.{subst}
use aioquic.Base.Exception.{ok}
use aioquic.Base.Slices.{segment, drop-segment}
use aioquic.RangeSet.{RangeSet, range, in_range, contains, add}
use aioquic.RangeSet.Shape.{IsSeparated}
use aioquic.Stream.{QuicStreamFrame}
use aioquic.Stream.Receiver.{
  QuicStreamReceiver, store, accept_frame, handle_frame, record_end, breaks_final_size, is_empty,
}
use aioquic.Stream.Receiver.Reassembly.{IsStored, received, Holds}
use aioquic.Stream.Receiver.Store.{Delivers, mark, marked, store_lem}

-- With an empty buffer there is no range.
no_ranges :
    (c : ℕ → ℕ) (s : RangeSet) (lo start : ℕ) → IsSeparated lo s → IsStored c s [] start → s ≡ []
unfolding contains
no_ranges c [] lo start w stored = refl
no_ranges c (q ∷ qs) lo start w stored = absurd (ground (arith, stored q.start))

module _ (c : ℕ → ℕ) (r : QuicStreamReceiver) (frame : QuicStreamFrame) (h : Holds c r) where
  abbrev frame_end : ℕ
  frame_end = frame.offset + length frame.bytes

  abbrev fresh : ℕ → Bool
  fresh x = in_range x (range frame.offset frame_end)

  fast_lem :
      frame.bytes ≡ segment c frame.offset (length frame.bytes)
      → frame.offset ≡ r.buffer_start
      → r.buffer ≡ []
      → Delivers c r fresh (
        ok (some (record { bytes = frame.bytes; end_stream = frame.fin; stream_id = r.stream_id })),
        record r {
          buffer_start = r.buffer_start + length frame.bytes;
          is_finished = frame.fin || r.is_finished;
        },
      )
  fast_lem agrees at_start empty =
      let none_left =
        no_ranges c r.ranges (suc r.buffer_start) r.buffer_start h.separated
          (subst (λ b. IsStored c r.ranges b r.buffer_start) empty h.stored) in
      record {
        event = _;
        returns = refl;
        holds = record {
          separated =
              subst (IsSeparated (suc (r.buffer_start + length frame.bytes))) (sym none_left) tt;
          stored =
              λ x m. absurd (unfold contains in ground (arith, ap (λ s. contains s x) none_left));
        };
        forward = omega arith;
        delivered = ground arith;
        same = λ x. ground arith;
      }

  slow_lem :
      (bytes : List ℕ) (offset n : ℕ)
      → bytes ≡ segment c offset n
      → mark r.ranges offset frame_end ≡ mark r.ranges offset (offset + n)
      → r.buffer_start ≤ offset
      → ((x : ℕ)
          → (in_range x (range offset (offset + n)) || received r x) ≡ (fresh x || received r x))
      → Delivers c r fresh (
          store r bytes offset
            (if ltb offset frame_end then add r.ranges offset frame_end else ok r.ranges))
  slow_lem bytes offset n eb em above er =
      let d = store_lem c r offset n h above in
      rw (marked r.ranges offset frame_end, em, eb)
        (record {
          event = d.event;
          returns = d.returns;
          holds = d.holds;
          forward = d.forward;
          delivered = d.delivered;
          same = λ x. d.same x ∙ er x;
        })

  late_bytes :
      frame.offset < r.buffer_start
      → frame.bytes ≡ segment c frame.offset (length frame.bytes)
      → drop (r.buffer_start - frame.offset) frame.bytes
        ≡ segment c r.buffer_start (frame_end - r.buffer_start)
  late_bytes late agrees =
      let e : frame.offset + (r.buffer_start - frame.offset) ≡ r.buffer_start = omega arith in
      let f : length frame.bytes - (r.buffer_start - frame.offset) ≡ frame_end - r.buffer_start =
        omega arith in
      ap (drop (r.buffer_start - frame.offset)) agrees
      ∙ drop-segment c frame.offset (length frame.bytes) (r.buffer_start - frame.offset)
      ∙ rw (e, f)

  pub accept_frame_lem :
      frame.bytes ≡ segment c frame.offset (length frame.bytes)
      → Delivers c r fresh (accept_frame r frame)
  unfolding accept_frame
  accept_frame_lem agrees =
      elim (Bool-cases (
        (frame.offset == r.buffer_start) && (not (length frame.bytes == 0) && is_empty r.buffer))) [
          | inl fast ↦ rw fast (fast_lem agrees (ground arith) (ground arith))
          | inr slow ↦ elim (Bool-cases (ltb frame.offset r.buffer_start)) [
            | inl late ↦
                rw (slow, late)
                  (slow_lem (drop (r.buffer_start - frame.offset) frame.bytes) r.buffer_start
                    (frame_end - r.buffer_start) (late_bytes (ltb→lt _ _ late) agrees)
                    (ground arith) (omega arith) (λ x. ground arith))
            | inr on_time ↦
                rw (slow, on_time)
                  (slow_lem frame.bytes frame.offset (length frame.bytes) agrees refl (ground arith)
                    (λ x. refl))
          ]
        ]

-- A frame that carries the content of the stream and keeps to the final size is taken without an
-- exception. The event has exactly the content between the old and the new start of the buffer,
-- the offsets of the frame count as received besides the earlier ones, and the offset at the new
-- start of the buffer is not received.
pub handle_frame_lem :
    (c : ℕ → ℕ) (r : QuicStreamReceiver) (frame : QuicStreamFrame)
    → Holds c r
    → frame.bytes ≡ segment c frame.offset (length frame.bytes)
    → breaks_final_size r.final_size (frame.offset + length frame.bytes) frame.fin ≡ false
    → Delivers c r
        (λ x. in_range x (range frame.offset (frame.offset + length frame.bytes)))
        (handle_frame r frame)
unfolding handle_frame
handle_frame_lem c r frame h agrees fits =
    let r' = record_end r (frame.offset + length frame.bytes) frame.fin in
    let d =
      accept_frame_lem c r' frame (record { separated = h.separated; stored = h.stored }) agrees in
    rw fits (record {
      event = d.event;
      returns = d.returns;
      holds = d.holds;
      forward = d.forward;
      delivered = d.delivered;
      same = d.same;
    })
