-- ===== src/Connection/PeerCids/Runs.antt =====
-- Runs of the operations on the peer's connection identifiers, with the RETIRE_CONNECTION_ID frames
-- that are in flight (src/aioquic/quic/connection.py).
use aioquic.Base.{
  ℕ, ◌+◌, ◌≡◌, ◌≢◌, ◌⊎◌, inl, inr, refl, ap, arith, Bool, true, false, List, [], ◌∷◌, ◌++◌, count,
  count-append, if◌then◌else◌,
}
use mathlib.Core.Path.{subst}
use aioquic.Base.Exception.{Result, ok, raise, index_error}
use aioquic.Base.Run.{Out}
use aioquic.Buffer.{Buffer}
use aioquic.Connection.PeerCids.{
  QuicConnectionId, PeerCids, change_connection_id, handle_new_connection_id_frame,
  write_retire_connection_id, on_retire_connection_id_delivery,
}
use aioquic.Connection.PeerCids.Places.{numbers_of, AllFrom}
use aioquic.Connection.PeerCids.Handled.{
  IsCounted, IsLimited, handle_new_connection_id_frame-IsCounted,
}

-- The identifiers, the sequence numbers of the frames in flight, and those that were acknowledged.
pub record System : Type 0 where
  pub cids : PeerCids
  pub in_flight : List ℕ
  pub acked : List ℕ

-- A frame that arrives may be refused; an IndexError is not handled by the connection.
pub data Step (y : System) : System → Type 0 where
  receives :
      (b : Buffer) (out : Result Buffer) (c : PeerCids)
      → handle_new_connection_id_frame b y.cids ≡ (out, c)
      → out ≢ raise index_error
      → Step y (record y { cids = c })
  changes :
      (out : Result (Unit {0})) (c : PeerCids)
      → change_connection_id y.cids ≡ (out, c)
      → Step y (record y { cids = c })
  writes :
      (n : ℕ) (c : PeerCids)
      → write_retire_connection_id y.cids ≡ (ok n, c)
      → Step y (record y { cids = c; in_flight = n ∷ y.in_flight })
  delivers :
      (is_acked : Bool) (n : ℕ) (front back : List ℕ)
      → y.in_flight ≡ front ++ (n ∷ back)
      → Step y (record {
        cids = on_retire_connection_id_delivery is_acked n y.cids;
        in_flight = front ++ back;
        acked = if is_acked then n ∷ y.acked else y.acked;
      })

pub data Reach (y : System) : System → Type 0 where
  here : Reach y y
  next : {z w : System} → Reach y z → Step z w → Reach y w

abbrev pub elsewhere : System → ℕ → ℕ
elsewhere y n = count n y.in_flight + count n y.acked

module _ (k : ℕ → ℕ) where
  received :
      (out : Result Buffer) (s : PeerCids)
      → Out (λ e s. (e ≡ index_error) ⊎ IsCounted k s) (λ b s. IsCounted k s × IsLimited s) (out, s)
      → out ≢ raise index_error
      → IsCounted k s
  received (raise e) s (inl h) n = absurd (n (ap raise h))
  received (raise e) s (inr h) n = h
  received (ok b) s (h, u) n = h

  change_connection_id-IsCounted :
      (c : PeerCids) → IsCounted k c → IsCounted k (change_connection_id c).1
  unfolding change_connection_id
  change_connection_id-IsCounted c w = go c.peer_cid_available refl
    where
      go :
          (cids : List QuicConnectionId)
          → c.peer_cid_available ≡ cids
          → IsCounted k (change_connection_id c).1
      go [] e = rw e (record {
        once = λ n. omega (arith, w.once n, ap (λ t. count n (numbers_of t)) e);
        active = w.active;
        available = tt;
      })
      go (cid ∷ cids) e =
          let (first, rest) = subst (AllFrom c.peer_retire_prior_to) e w.available in
          rw e (record {
            once = λ n. omega (
              arith,
              w.once n,
              ap (λ t. count n (numbers_of t)) e,
              count-append n c.retire_connection_ids (c.peer_cid.sequence_number ∷ []),
            );
            active = first;
            available = rest;
          })

write-IsCounted :
    (k : ℕ → ℕ) (c d : PeerCids) (n : ℕ)
    → write_retire_connection_id c ≡ (ok n, d)
    → IsCounted k c
    → IsCounted (λ m. count m (n ∷ []) + k m) d
unfolding write_retire_connection_id
write-IsCounted k c d n e w = go c.retire_connection_ids refl
  where
    go : (ns : List ℕ) → c.retire_connection_ids ≡ ns → IsCounted (λ m. count m (n ∷ []) + k m) d
    go [] f = absurd (ground (arith, rw f at e))
    go (x ∷ xs) f =
        let popped : ◌≡◌ {A = Result ℕ × PeerCids} (ok x, record c { retire_connection_ids = xs })
            (ok n, d) =
          rw f at e in
        let same : x ≡ n = ground (arith, ap (λ (t : Result ℕ × PeerCids). t.0) popped) in
        let left : record c { retire_connection_ids = xs } ≡ d =
          ap (λ (t : Result ℕ × PeerCids). t.1) popped in
        subst (IsCounted (λ m. count m (n ∷ []) + k m)) left (record {
          once = λ m. omega (arith, w.once m, ap (count m) f, ap (λ t. count m (t ∷ [])) same);
          active = w.active;
          available = w.available;
        })

delivery-IsCounted :
    (y : System) (is_acked : Bool) (n : ℕ) (front back : List ℕ)
    → y.in_flight ≡ front ++ (n ∷ back)
    → IsCounted (elsewhere y) y.cids
    → IsCounted
        (λ m. count m (front ++ back) + count m (if is_acked then n ∷ y.acked else y.acked))
        (on_retire_connection_id_delivery is_acked n y.cids)
unfolding on_retire_connection_id_delivery
delivery-IsCounted y true n front back e w = record {
  once = λ m.
      omega (
        arith,
        w.once m,
        ap (count m) e,
        count-append m front (n ∷ back),
        count-append m front back,
      );
  active = w.active;
  available = w.available;
}
delivery-IsCounted y false n front back e w = record {
  once = λ m. omega (
    arith,
    w.once m,
    ap (count m) e,
    count-append m front (n ∷ back),
    count-append m front back,
    count-append m y.cids.retire_connection_ids (n ∷ []),
  );
  active = w.active;
  available = w.available;
}

step-IsCounted :
    (y z : System) → Step y z → IsCounted (elsewhere y) y.cids → IsCounted (elsewhere z) z.cids
step-IsCounted y z (receives b out c e n) w =
    let h = handle_new_connection_id_frame-IsCounted (elsewhere y) b y.cids w in
    received (elsewhere y) out c (rw e at h) n
step-IsCounted y z (changes out c e) w =
    subst (IsCounted (elsewhere y)) (ap (λ (t : Result (Unit {0}) × PeerCids). t.1) e)
      (change_connection_id-IsCounted (elsewhere y) y.cids w)
step-IsCounted y z (writes n c e) w =
    let v = write-IsCounted (elsewhere y) y.cids c n e w in
    record { once = λ m. omega (arith, v.once m); active = v.active; available = v.available }
step-IsCounted y z (delivers is_acked n front back e) w =
    delivery-IsCounted y is_acked n front back e w

-- In every run of the operations on the peer's connection identifiers in which no IndexError is
-- raised, whatever NEW_CONNECTION_ID frames arrive, and in whatever order RETIRE_CONNECTION_ID frames
-- are acknowledged or lost: each sequence number that was seen is in one place. It is that of the
-- active identifier or of one that is available, waits for a RETIRE_CONNECTION_ID frame, or is in such
-- a frame in flight or acknowledged; and no other number is. The identifiers in use are not below
-- the number to which the peer asked to retire them.
pub Reach-IsCounted :
    {y z : System} → Reach y z → IsCounted (elsewhere y) y.cids → IsCounted (elsewhere z) z.cids
Reach-IsCounted here w = w
Reach-IsCounted (next r s) w = step-IsCounted _ _ s (Reach-IsCounted r w)
