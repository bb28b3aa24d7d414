-- ===== src/Stream/Sender/Frames.antt =====
-- `get_frame` of QuicStreamSender: what the frames carry, and where their bytes go.
use aioquic.Base.{
  ℕ, ◌+◌, ◌-◌, ◌≤◌, ◌<◌, ◌≡◌, refl, sym, ap, ◌∙◌, arith, Bool, true, false, List, [], ◌∷◌, Option,
  none, some, length, leb, eq_some, is_none, Bool-cases, inl, inr, ◌⊎◌, if◌then◌else◌,
}
use mathlib.Core.Path.{subst}
use aioquic.Base.Exception.{Result, ok, raise, assertion_error}
use aioquic.Base.Slices.{segment, length-segment, slice, slice-segment}
use aioquic.RangeSet.{Range, RangeSet, range, in_range, contains, subtract_loop}
use aioquic.RangeSet.Shape.{IsSeparated, subtract_loop-IsSeparated}
use aioquic.RangeSet.Members.{contains-subtract_loop}
use aioquic.Stream.{QuicStreamFrame}
use aioquic.Stream.Sender.{
  QuicStreamSender, get_frame, frame_from, frame_stop, make_frame, fin_only,
}
use aioquic.Stream.Sender.System.{Flight}
use aioquic.Stream.Sender.Places.{IsPlaced, EndsAt, subtract_ok, launched}

-- Flow control: the largest offset that a frame may reach.
abbrev pub Allows : Option ℕ → ℕ → Type 0
Allows none stop = Unit
Allows (some max_offset) stop = stop ≤ max_offset

-- A frame carries the content, no more than was written and no more than was asked for. One with
-- no bytes is a lone FIN.
abbrev pub Carries :
    (ℕ → ℕ) → QuicStreamSender → ℕ → Option ℕ → Result (Option QuicStreamFrame) → Type 0
Carries content s max_size max_offset (raise e) = Unit
Carries content s max_size max_offset (ok none) = Unit
Carries content s max_size max_offset (ok (some frame)) =
    (frame.bytes ≡ segment content frame.offset (length frame.bytes))
    × (length frame.bytes ≤ max_size)
    × (frame.offset + length frame.bytes ≤ s.buffer_stop)
    × ((frame.bytes ≡ []) ⊎ Allows max_offset (frame.offset + length frame.bytes))
    × (frame.fin ≡ eq_some s.buffer_fin (frame.offset + length frame.bytes))

pub record Launches (content : ℕ → ℕ) (s : QuicStreamSender) (fs : List Flight) (max_size : ℕ)
    (max_offset : Option ℕ) (out : Result (Option QuicStreamFrame) × QuicStreamSender)
    : Type 0 where
  pub placed : IsPlaced content out.1 (launched out.0 fs)
  pub carries : Carries content s max_size max_offset out.0
  pub frame : Option QuicStreamFrame
  pub returns : out.0 ≡ ok frame

-- The pending ranges lie between the start of the buffer and the last byte written.
pending_bounds :
    (c : ℕ → ℕ) (s : QuicStreamSender) (fs : List Flight) (r : Range) (rs : RangeSet)
    → IsPlaced c s fs
    → s.pending ≡ r ∷ rs
    → (s.buffer_start ≤ r.start) × (r.start < r.stop) × (r.stop ≤ s.buffer_stop)
pending_bounds c s fs r rs p e =
    let w : IsSeparated 0 (r ∷ rs) = subst (IsSeparated 0) e p.pending in
    unfold contains in
    (
      ground (arith, p.one r.start, ap (λ t. contains t r.start) e),
      w.1,
      ground (arith, p.one (r.stop - 1), ap (λ t. contains t (r.stop - 1)) e),
    )

stop_bounds :
    (r : Range) (max_size : ℕ) (max_offset : Option ℕ)
    → (frame_stop r max_size max_offset ≤ r.stop)
      × (frame_stop r max_size max_offset ≤ r.start + max_size)
      × Allows max_offset (frame_stop r max_size max_offset)
unfolding frame_stop
stop_bounds r max_size none = ground arith
stop_bounds r max_size (some m) = ground arith

module _ (c : ℕ → ℕ) (s : QuicStreamSender) (fs : List Flight) (p : IsPlaced c s fs) where
  frame_bytes :
      (start stop : ℕ)
      → s.buffer_start ≤ start
      → start ≤ stop
      → stop ≤ s.buffer_stop
      → slice s.buffer start s.buffer_start stop ≡ segment c start (stop - start)
  frame_bytes start stop a b d =
      ap (λ t. slice t start s.buffer_start stop) p.bytes
      ∙ slice-segment c s.buffer_start (s.buffer_stop - s.buffer_start) start stop a b
          (omega (arith, p.start))

  make_frame-Launches :
      (r : Range) (rs : RangeSet) (max_size : ℕ) (max_offset : Option ℕ) (stop : ℕ)
      → s.pending ≡ r ∷ rs
      → r.start < stop
      → (stop ≤ r.stop) × (stop ≤ r.start + max_size) × Allows max_offset stop
      → Launches c s fs max_size max_offset
          (make_frame s r.start stop (ok (subtract_loop s.pending r.start stop)))
  unfolding make_frame
  make_frame-Launches r rs max_size max_offset stop e above le =
      let b = pending_bounds c s fs r rs p e in
      let bytes = frame_bytes r.start stop b.0 (omega arith) (omega arith) in
      let size = ap length bytes ∙ length-segment c r.start (stop - r.start) in
      let end : r.start + length (slice s.buffer r.start s.buffer_start stop) ≡ stop =
        omega arith in
      record {
        placed = record {
          open_still = p.open_still;
          pending = subtract_loop-IsSeparated s.pending 0 r.start stop above p.pending;
          acked = p.acked;
          one = λ x. ground (
            arith,
            end,
            p.one x,
            contains-subtract_loop s.pending 0 r.start stop x above p.pending,
            inside x e le.0,
          );
          start = p.start;
          fin = p.fin;
          eof = ground (arith, p.eof);
          bytes = p.bytes;
        };
        carries = (
          bytes ∙ ap (segment c r.start) (sym size),
          omega (arith, size, le),
          omega (arith, size, le),
          inr (subst (Allows max_offset) (sym end) le.2),
          ap (eq_some s.buffer_fin) (sym end),
        );
        frame = _;
        returns = refl;
      }
    where
      inside :
          (x : ℕ)
          → s.pending ≡ r ∷ rs
          → stop ≤ r.stop
          → in_range x (range r.start stop) ≡ true
          → contains s.pending x ≡ true
      inside x e le h = unfold contains in ground (arith, ap (λ t. contains t x) e)

  -- Nothing is pending, and the FIN has to be sent.
  lone_fin-Launches :
      (fin : Option ℕ) (max_size : ℕ) (max_offset : Option ℕ)
      → s.buffer_fin ≡ fin
      → s.pending_eof ≡ true
      → Launches c s fs max_size max_offset (fin_only fin, record s { pending_eof = false })
  lone_fin-Launches none max_size max_offset e eof = absurd (ground (arith, p.eof))
  lone_fin-Launches (some n) max_size max_offset e eof = record {
    placed = record {
      open_still = p.open_still;
      pending = p.pending;
      acked = p.acked;
      one = λ x. ground (arith, p.one x);
      start = p.start;
      fin = p.fin;
      eof = refl;
      bytes = p.bytes;
    };
    carries = (
      unfold segment in refl,
      omega arith,
      ground (arith, subst (λ o. EndsAt o s.buffer_stop) e p.fin),
      inl refl,
      ground (arith, ap (λ o. eq_some o (n + 0)) e),
    );
    frame = _;
    returns = refl;
  }

  quiet-Launches :
      (e : Bool) (max_size : ℕ) (max_offset : Option ℕ)
      → Launches c s fs max_size max_offset (ok none, record s { buffer_is_empty = e })
  quiet-Launches e max_size max_offset = record {
    placed = record {
      open_still = p.open_still;
      pending = p.pending;
      acked = p.acked;
      one = p.one;
      start = p.start;
      fin = p.fin;
      eof = p.eof;
      bytes = p.bytes;
    };
    carries = tt;
    frame = none;
    returns = refl;
  }

  frame_from-Launches :
      (pending : RangeSet) (max_size : ℕ) (max_offset : Option ℕ)
      → s.pending ≡ pending
      → Launches c s fs max_size max_offset (frame_from pending s max_size max_offset)
  frame_from-Launches [] max_size max_offset e = elim (Bool-cases s.pending_eof) [
    | inl eof ↦
        subst
          (λ b. Launches c s fs max_size max_offset (
            if b
            then (fin_only s.buffer_fin, record s { pending_eof = false })
            else (ok none, record s { buffer_is_empty = true })))
          (sym eof) (lone_fin-Launches s.buffer_fin max_size max_offset refl eof)
    | inr idle ↦
        subst
          (λ b. Launches c s fs max_size max_offset (
            if b
            then (fin_only s.buffer_fin, record s { pending_eof = false })
            else (ok none, record s { buffer_is_empty = true })))
          (sym idle) (quiet-Launches true max_size max_offset)
  ]
  frame_from-Launches (r ∷ rs) max_size max_offset e =
      let stop = frame_stop r max_size max_offset in
      elim (Bool-cases (leb stop r.start)) [
        | inl full ↦ rw full (quiet-Launches s.buffer_is_empty max_size max_offset)
        | inr room ↦
            let above : r.start < stop = ground arith in
            rw (room, subtract_ok s.pending r.start stop above)
              (make_frame-Launches r rs max_size max_offset stop e above
                (stop_bounds r max_size max_offset))
      ]

-- `get_frame` returns normally. A frame carries the content at its offset, within the size and
-- the flow control limit that were asked for and within what was written; its FIN bit is set
-- exactly when it ends the stream. Its bytes go from the pending ranges into flight: each written
-- byte is still in one place.
pub get_frame_lem :
    (c : ℕ → ℕ) (s : QuicStreamSender) (fs : List Flight) (max_size : ℕ) (max_offset : Option ℕ)
    → IsPlaced c s fs
    → Launches c s fs max_size max_offset (get_frame s max_size max_offset)
unfolding get_frame
get_frame_lem c s fs max_size max_offset p =
    subst
      (λ b.
        Launches c s fs max_size max_offset
          (if b then frame_from s.pending s max_size max_offset else (raise assertion_error, s)))
      (sym (ap is_none p.open_still))
      (frame_from-Launches c s fs p s.pending max_size max_offset refl)
