-- ===== src/Stream/Sender/Dropped.antt =====
-- Frames that were taken from a QuicStreamSender and put into no packet hold no bytes
-- (_write_stream_frame of src/aioquic/quic/connection.py).
use aioquic.Base.{ℕ, ◌≡◌, refl, arith, List, [], ◌∷◌, ◌++◌}
use aioquic.Stream.Sender.{QuicStreamSender}
use aioquic.Stream.Sender.System.{Flight}
use aioquic.Stream.Sender.Places.{in_flight_at, in_flight_at-append, IsPlaced}

-- Only the FIN can be dropped.
abbrev pub NoBytes : List Flight → Type 0
NoBytes [] = Unit
NoBytes (f ∷ fs) = (f.start ≡ f.stop) × NoBytes fs

-- A dropped frame holds no byte, so it is no place where a byte could be.
in_flight_at-NoBytes : (fs : List Flight) (x : ℕ) → NoBytes fs → in_flight_at fs x ≡ 0
in_flight_at-NoBytes [] x h = refl
in_flight_at-NoBytes (f ∷ fs) x (e, h) = ground (arith, e, in_flight_at-NoBytes fs x h)

pub with_dropped :
    {c : ℕ → ℕ} {s : QuicStreamSender} (fs gs : List Flight)
    → NoBytes gs
    → IsPlaced c s fs
    → IsPlaced c s (fs ++ gs)
with_dropped fs gs e p = record {
  open_still = p.open_still;
  pending = p.pending;
  acked = p.acked;
  one = λ x. omega (arith, p.one x, in_flight_at-append fs gs x, in_flight_at-NoBytes gs x e);
  start = p.start;
  fin = p.fin;
  eof = p.eof;
  bytes = p.bytes;
}

pub without_first :
    {c : ℕ → ℕ} {s : QuicStreamSender} (f : Flight) (fs : List Flight)
    → f.start ≡ f.stop
    → IsPlaced c s (f ∷ fs)
    → IsPlaced c s fs
without_first f fs e p = record {
  open_still = p.open_still;
  pending = p.pending;
  acked = p.acked;
  one = λ x. ground (arith, p.one x, e);
  start = p.start;
  fin = p.fin;
  eof = p.eof;
  bytes = p.bytes;
}
