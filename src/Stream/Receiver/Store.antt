-- ===== src/Stream/Receiver/Store.antt =====
-- What storing and delivering bytes does to a QuicStreamReceiver (src/aioquic/quic/stream.py).
use aioquic.Base.{
  ℕ, ◌+◌, ◌-◌, ◌≤◌, ◌≡◌, refl, ◌∙◌, arith, Bool, true, false, not, ◌||◌, List, [], ◌∷◌, Option,
  some, none, ltb, if◌then◌else◌, get_elem?,
}
use aioquic.Base.Exception.{Result, ok}
use aioquic.Base.Slices.{
  segment, length-segment, get_elem?-segment, get_elem?-lt, fill_to, assign_slice, length-fill_to,
  get_elem?-fill_to, get_elem?-assign_slice,
}
use aioquic.RangeSet.{RangeSet, range, in_range, contains, add_loop, add}
use aioquic.RangeSet.Shape.{IsSeparated, IsSeparated-weaken, add_loop-IsSeparated}
use aioquic.RangeSet.Members.{contains-below, contains-add_loop}
use aioquic.Stream.Receiver.{
  QuicStreamReceiver, StreamDataReceived, pull_data, deliver, store, is_empty,
}
use aioquic.Stream.Receiver.Reassembly.{IsStored, received, Holds, pull_front_lem}

abbrev pub event_bytes : Option StreamDataReceived → List ℕ
event_bytes none = []
event_bytes (some e) = e.bytes

-- A normal return: the event has the content from the old to the new start of the buffer, and
-- the offsets `fresh` are received besides the old ones.
pub record Delivers (content : ℕ → ℕ) (r : QuicStreamReceiver) (fresh : ℕ → Bool)
    (out : Result (Option StreamDataReceived) × QuicStreamReceiver) : Type 0 where
  pub event : Option StreamDataReceived
  pub returns : out.0 ≡ ok event
  pub holds : Holds content out.1
  pub forward : r.buffer_start ≤ out.1.buffer_start
  pub delivered :
      event_bytes event ≡ segment content r.buffer_start (out.1.buffer_start - r.buffer_start)
  pub same : (x : ℕ) → received out.1 x ≡ (fresh x || received r x)

-- The ranges after `marked received range`.
abbrev pub mark : RangeSet → ℕ → ℕ → RangeSet
mark ranges start stop = if ltb start stop then add_loop ranges start stop else ranges

pub marked :
    (s : RangeSet) (start stop : ℕ)
    → (if ltb start stop then add s start stop else ok s) ≡ ok (mark s start stop)
unfolding add
marked s start stop = ground arith

event_of :
    (bytes : List ℕ) (e : Bool) (ev : StreamDataReceived)
    → ev.bytes ≡ bytes
    → event_bytes (if not (is_empty bytes) || e then some ev else none) ≡ bytes
event_of [] true ev h = h
event_of [] false ev h = refl
event_of (x ∷ xs) e ev h = h

deliver_lem :
    (c : ℕ → ℕ) (r : QuicStreamReceiver)
    → IsSeparated r.buffer_start r.ranges
    → IsStored c r.ranges r.buffer r.buffer_start
    → Delivers c r (λ x. false) (deliver r)
unfolding deliver pull_data
deliver_lem c r w stored =
    let p = pull_front_lem c r.ranges r refl w stored in
    record {
      event = _;
      returns = refl;
      holds = record { separated = p.holds.separated; stored = p.holds.stored };
      forward = p.forward;
      delivered = event_of _ _ _ refl ∙ p.delivered;
      same = p.same;
    }

-- Bytes written at `offset`, which is not below the start of the buffer.
module _ (c : ℕ → ℕ) (ranges : RangeSet) (buffer : List ℕ) (start offset n : ℕ)
    (above : start ≤ offset) where
  abbrev written : List ℕ
  written = assign_slice (fill_to (offset - start) buffer) (offset - start) (segment c offset n)

  pub mark-IsSeparated :
      IsSeparated start ranges → IsSeparated start (mark ranges offset (offset + n))
  mark-IsSeparated w = ground (arith, add_loop-IsSeparated ranges start offset (offset + n))

  contains-mark :
      (x : ℕ)
      → IsSeparated start ranges
      → contains (mark ranges offset (offset + n)) x
        ≡ (in_range x (range offset (offset + n)) || contains ranges x)
  contains-mark x w = ground (arith, contains-add_loop ranges start offset (offset + n) x)

  kept :
      (x : ℕ)
      → IsStored c ranges buffer start
      → contains ranges x ≡ true
      → get_elem? (fill_to (offset - start) buffer) (x - start) ≡ some (c x)
  kept x stored m =
      get_elem?-fill_to (offset - start) buffer (x - start)
        (get_elem?-lt buffer (x - start) (c x) (stored x m))
      ∙ stored x m

  written-IsStored :
      IsSeparated start ranges
      → IsStored c ranges buffer start
      → IsStored c (mark ranges offset (offset + n)) written start
  written-IsStored w stored x m = ground (
    arith,
    contains-mark x w,
    contains-below ranges start x w,
    kept x stored,
    get_elem?-assign_slice (fill_to (offset - start) buffer) (offset - start) (segment c offset n)
        (x - start) (length-fill_to (offset - start) buffer),
    length-segment c offset n,
    get_elem?-segment c offset n (x - offset),
  )

pub store_lem :
    (c : ℕ → ℕ) (r : QuicStreamReceiver) (offset n : ℕ)
    → Holds c r
    → r.buffer_start ≤ offset
    → Delivers c r
        (λ x. in_range x (range offset (offset + n)))
        (store r (segment c offset n) offset (ok (mark r.ranges offset (offset + n))))
store_lem c r offset n h above =
    let w = IsSeparated-weaken r.ranges {lo = r.buffer_start} (omega arith) h.separated in
    let d =
      deliver_lem c
        (record r {
          ranges = mark r.ranges offset (offset + n);
          buffer = written c r.ranges r.buffer r.buffer_start offset n above;
        })
        (mark-IsSeparated c r.ranges r.buffer r.buffer_start offset n above w)
        (written-IsStored c r.ranges r.buffer r.buffer_start offset n above w h.stored) in
    record {
      event = d.event;
      returns = d.returns;
      holds = d.holds;
      forward = d.forward;
      delivered = d.delivered;
      same = λ x.
          ground
            (arith, d.same x, contains-mark c r.ranges r.buffer r.buffer_start offset n above x w);
    }
