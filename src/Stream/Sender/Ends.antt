-- ===== src/Stream/Sender/Ends.antt =====
-- What write and get_frame do to the end of a stream (QuicStreamSender in src/aioquic/quic/stream.py).
use aioquic.Base.{
  ℕ, ◌+◌, ◌≡◌, refl, sym, ◌∙◌, arith, Bool, true, false, not, ◌||◌, ◌&&◌, List, [], ◌∷◌, ◌++◌,
  Option, none, some, length, eq_some, is_none, Bool-cases, inl, inr, if◌then◌else◌,
}
use mathlib.Core.Path.{subst}
use aioquic.Base.Exception.{Result, ok, raise, assertion_error}
use aioquic.RangeSet.{RangeSet, add}
use aioquic.Stream.{QuicStreamFrame}
use aioquic.Stream.Sender.{
  QuicStreamSender, write, append_bytes, write_bytes, write_end, get_frame, frame_from, fin_only,
  make_frame, frame_stop,
}
use aioquic.Stream.Sender.System.{Flight, flight_of}
use aioquic.Stream.Sender.Places.{IsPlaced, launched}
use aioquic.Stream.Sender.Frames.{Launches, get_frame_lem}

abbrev pub any_fin : List Flight → Bool
any_fin [] = false
any_fin (f ∷ fs) = f.fin || any_fin fs

-- Frames with the FIN bit end at the end of the stream.
abbrev pub FinsAt : Option ℕ → List Flight → Type 0
FinsAt fin [] = Unit
FinsAt fin (f ∷ fs) = ((f.fin && not (eq_some fin f.stop)) ≡ false) × FinsAt fin fs

-- Where the FIN of a stream that was ended is, and what `is_finished` stands for.
pub record IsFinal (s : QuicStreamSender) (fs : List Flight) : Type 0 where
  pub flights : FinsAt s.buffer_fin fs
  pub acked : (s.acked_fin && is_none s.buffer_fin) ≡ false
  pub somewhere : (is_none s.buffer_fin || (s.pending_eof || (any_fin fs || s.acked_fin))) ≡ true
  pub finished : s.is_finished ≡ (eq_some s.buffer_fin s.buffer_start && s.acked_fin)

FinsAt-none : (fs : List Flight) (fin : Option ℕ) → FinsAt none fs → FinsAt fin fs
FinsAt-none [] fin h = tt
FinsAt-none (f ∷ fs) fin h = (ground (arith, h.0), FinsAt-none fs fin h.1)

pub FinsAt-remove :
    (front : List Flight) (f : Flight) (back : List Flight) (fin : Option ℕ)
    → FinsAt fin (front ++ (f ∷ back))
    → FinsAt fin (front ++ back) × ((f.fin && not (eq_some fin f.stop)) ≡ false)
FinsAt-remove [] f back fin h = (h.1, h.0)
FinsAt-remove (g ∷ front) f back fin h =
    let (rest, this) = FinsAt-remove front f back fin h.1 in ((h.0, rest), this)

pub any_fin-remove :
    (front : List Flight) (f : Flight) (back : List Flight)
    → any_fin (front ++ (f ∷ back)) ≡ (f.fin || any_fin (front ++ back))
any_fin-remove [] f back = refl
any_fin-remove (g ∷ front) f back = ground (arith, any_fin-remove front f back)

FinsAt-insert :
    (front : List Flight) (f : Flight) (back : List Flight) (fin : Option ℕ)
    → FinsAt fin (f ∷ (front ++ back))
    → FinsAt fin (front ++ (f ∷ back))
FinsAt-insert [] f back fin h = h
FinsAt-insert (g ∷ front) f back fin (x, (y, rest)) = (y, FinsAt-insert front f back fin (x, rest))

-- The order of the flights does not matter.
pub IsFinal-insert :
    (s : QuicStreamSender) (front : List Flight) (f : Flight) (back : List Flight)
    → IsFinal s (f ∷ (front ++ back))
    → IsFinal s (front ++ (f ∷ back))
IsFinal-insert s front f back p = record {
  flights = FinsAt-insert front f back s.buffer_fin p.flights;
  acked = p.acked;
  somewhere = ground (arith, p.somewhere, any_fin-remove front f back);
  finished = p.finished;
}

-- What `write` does to the fields that the FIN depends on.
write_bytes-keeps :
    (s : QuicStreamSender) (bytes : List ℕ)
    → ((write_bytes s bytes).1.buffer_fin ≡ s.buffer_fin)
      × ((write_bytes s bytes).1.acked_fin ≡ s.acked_fin)
      × ((write_bytes s bytes).1.is_finished ≡ s.is_finished)
      × ((write_bytes s bytes).1.pending_eof ≡ s.pending_eof)
      × ((write_bytes s bytes).1.buffer_start ≡ s.buffer_start)
write_bytes-keeps s [] = (refl, refl, refl, refl, refl)
write_bytes-keeps s (x ∷ xs) =
    elim (add s.pending s.buffer_stop (s.buffer_stop + length (x ∷ xs)))
      as (λ r.
        ((append_bytes r s (x ∷ xs)).1.buffer_fin ≡ s.buffer_fin)
        × ((append_bytes r s (x ∷ xs)).1.acked_fin ≡ s.acked_fin)
        × ((append_bytes r s (x ∷ xs)).1.is_finished ≡ s.is_finished)
        × ((append_bytes r s (x ∷ xs)).1.pending_eof ≡ s.pending_eof)
        × ((append_bytes r s (x ∷ xs)).1.buffer_start ≡ s.buffer_start)) [
          | raise e ↦ (refl, refl, refl, refl, refl)
          | ok r ↦ (refl, refl, refl, refl, refl)
        ]

write_end-IsFinal :
    (out : Result (Unit {0}) × QuicStreamSender) (fs : List Flight) (e : Bool)
    → out.1.buffer_fin ≡ none
    → IsFinal out.1 fs
    → IsFinal (write_end out e).1 fs
write_end-IsFinal (raise x, s) fs e o p = p
write_end-IsFinal (ok u, s) fs false o p = p
write_end-IsFinal (ok u, s) fs true o p = record {
  flights = FinsAt-none fs (some s.buffer_stop) (subst (λ t. FinsAt t fs) o p.flights);
  acked = ground (arith, p.acked);
  somewhere = refl;
  finished = ground (arith, p.acked, p.finished);
}

pub write-IsFinal :
    (s : QuicStreamSender) (fs : List Flight) (bytes : List ℕ) (e : Bool)
    → IsFinal s fs
    → IsFinal (write s bytes e).1 fs
unfolding write
write-IsFinal s fs bytes e p =
    elim (Bool-cases (is_none s.buffer_fin && is_none s.reset_error_code)) [
      | inl h ↦
          let k = write_bytes-keeps s bytes in
          let unended : s.buffer_fin ≡ none = ground arith in
          rw h (
            write_end-IsFinal (write_bytes s bytes) fs e (k.0 ∙ unended) (record {
              flights = subst (λ t. FinsAt t fs) (sym k.0) p.flights;
              acked = ground (arith, p.acked, k);
              somewhere = ground (arith, p.somewhere, k);
              finished = ground (arith, p.finished, k);
            }))
      | inr h ↦ rw h p
    ]

pub fin_of : Result (Option QuicStreamFrame) → Bool
fin_of (raise e) = false
fin_of (ok none) = false
fin_of (ok (some frame)) = frame.fin

-- What `get_frame` does to them.
pub record Keeps (s : QuicStreamSender) (out : Result (Option QuicStreamFrame) × QuicStreamSender)
    : Type 0 where
  pub fin : out.1.buffer_fin ≡ s.buffer_fin
  pub acked : out.1.acked_fin ≡ s.acked_fin
  pub finished : out.1.is_finished ≡ s.is_finished
  pub start : out.1.buffer_start ≡ s.buffer_start
  pub stop : out.1.buffer_stop ≡ s.buffer_stop
  pub eof :
      (not s.pending_eof || (is_none s.buffer_fin || (out.1.pending_eof || fin_of out.0))) ≡ true

make_frame-Keeps :
    (s : QuicStreamSender) (start stop : ℕ) (r : Result RangeSet)
    → Keeps s (make_frame s start stop r)
unfolding make_frame fin_of
make_frame-Keeps s start stop (raise e) = record {
  fin = refl;
  acked = refl;
  finished = refl;
  start = refl;
  stop = refl;
  eof = ground arith;
}
make_frame-Keeps s start stop (ok r) = record {
  fin = refl;
  acked = refl;
  finished = refl;
  start = refl;
  stop = refl;
  eof = ground arith;
}

fin_only-Keeps :
    (s : QuicStreamSender) (fin : Option ℕ)
    → s.buffer_fin ≡ fin
    → Keeps s (fin_only fin, record s { pending_eof = false })
unfolding fin_of
fin_only-Keeps s none e = record {
  fin = refl;
  acked = refl;
  finished = refl;
  start = refl;
  stop = refl;
  eof = ground arith;
}
fin_only-Keeps s (some n) e = record {
  fin = refl;
  acked = refl;
  finished = refl;
  start = refl;
  stop = refl;
  eof = ground arith;
}

same-Keeps :
    (s : QuicStreamSender) (e : Result (Option QuicStreamFrame)) (b : Bool)
    → Keeps s (e, record s { buffer_is_empty = b })
same-Keeps s e b = record {
  fin = refl;
  acked = refl;
  finished = refl;
  start = refl;
  stop = refl;
  eof = ground arith;
}

if-Keeps :
    (s : QuicStreamSender) (b : Bool) (t u : Result (Option QuicStreamFrame) × QuicStreamSender)
    → Keeps s t
    → Keeps s u
    → Keeps s (if b then t else u)
if-Keeps s true t u kt ku = kt
if-Keeps s false t u kt ku = ku

frame_from-Keeps :
    (s : QuicStreamSender) (pending : RangeSet) (max_size : ℕ) (max_offset : Option ℕ)
    → Keeps s (frame_from pending s max_size max_offset)
frame_from-Keeps s [] max_size max_offset =
    if-Keeps s s.pending_eof _ _ (fin_only-Keeps s s.buffer_fin refl) (same-Keeps s (ok none) true)
frame_from-Keeps s (r ∷ rs) max_size max_offset =
    if-Keeps s _ _ _ (same-Keeps s (ok none) s.buffer_is_empty)
      (make_frame-Keeps s r.start (frame_stop r max_size max_offset) _)

pub get_frame-Keeps :
    (s : QuicStreamSender) (max_size : ℕ) (max_offset : Option ℕ)
    → Keeps s (get_frame s max_size max_offset)
unfolding get_frame
get_frame-Keeps s max_size max_offset =
    if-Keeps s _ _ _ (frame_from-Keeps s s.pending max_size max_offset)
      (same-Keeps s (raise assertion_error) s.buffer_is_empty)

launched-IsFinal :
    (c : ℕ → ℕ) (s : QuicStreamSender) (fs : List Flight) (max_size : ℕ) (max_offset : Option ℕ)
    (out : Result (Option QuicStreamFrame) × QuicStreamSender)
    → IsFinal s fs
    → Keeps s out
    → Launches c s fs max_size max_offset out
    → IsFinal out.1 (launched out.0 fs)
unfolding fin_of
launched-IsFinal c s fs max_size max_offset (raise e, s') p k l = record {
  flights = subst (λ t. FinsAt t fs) (sym k.fin) p.flights;
  acked = ground (arith, p.acked, k.fin, k.acked);
  somewhere = ground (arith, p.somewhere, k.fin, k.acked, k.eof);
  finished = ground (arith, p.finished, k.fin, k.acked, k.finished, k.start);
}
launched-IsFinal c s fs max_size max_offset (ok none, s') p k l = record {
  flights = subst (λ t. FinsAt t fs) (sym k.fin) p.flights;
  acked = ground (arith, p.acked, k.fin, k.acked);
  somewhere = ground (arith, p.somewhere, k.fin, k.acked, k.eof);
  finished = ground (arith, p.finished, k.fin, k.acked, k.finished, k.start);
}
launched-IsFinal c s fs max_size max_offset (ok (some frame), s') p k l = record {
  flights =
      subst (λ t. FinsAt t (flight_of frame ∷ fs)) (sym k.fin)
        (ground (arith, l.carries.4), p.flights);
  acked = ground (arith, p.acked, k.fin, k.acked);
  somewhere = ground (arith, p.somewhere, k.fin, k.acked, k.eof);
  finished = ground (arith, p.finished, k.fin, k.acked, k.finished, k.start);
}

pub get_frame-IsFinal :
    (c : ℕ → ℕ) (s : QuicStreamSender) (fs : List Flight) (max_size : ℕ) (max_offset : Option ℕ)
    → IsPlaced c s fs
    → IsFinal s fs
    → IsFinal (get_frame s max_size max_offset).1 (launched (get_frame s max_size max_offset).0 fs)
get_frame-IsFinal c s fs max_size max_offset q p =
    launched-IsFinal c s fs max_size max_offset (get_frame s max_size max_offset) p
      (get_frame-Keeps s max_size max_offset) (get_frame_lem c s fs max_size max_offset q)
