-- ===== src/Connection/HostCids/Retired.antt =====
-- What a RETIRE_CONNECTION_ID frame does to the identifiers that this endpoint issued
-- (src/aioquic/quic/connection.py).
use aioquic.Base.{
  ℕ, zero, suc, ◌+◌, ◌-◌, ◌≤◌, ◌<◌, ◌≡◌, ◌≢◌, ◌⊎◌, inl, inr, refl, sym, ap, ◌∙◌, arith, false,
  Bool-cases, Option, none, some, List, [], ◌∷◌, ◌++◌, append_assoc, append-nil, length,
  length-append, ltb, min, ◌==◌, if◌then◌else◌,
}
use mathlib.Core.Path.{subst}
use aioquic.Base.Bytes.{eq_bytes, eq_bytes-eq, eq_bytes_self}
use aioquic.Base.Exception.{ok, raise, quic_connection_error}
use aioquic.Connection.PeerCids.{QuicConnectionId}
use aioquic.Connection.HostCids.{
  HostCids, delete_cid, retire_event, make_cid, replenish, retire_connection_id,
}

-- The identifiers have ascending sequence numbers, from `low` on and below `high`.
abbrev pub Ascends : ℕ → List QuicConnectionId → ℕ → Type 0
Ascends low [] high = low ≤ high
Ascends low (cid ∷ cids) high =
    (low ≤ cid.sequence_number) × Ascends (cid.sequence_number + 1) cids high

abbrev pub IsIssued : HostCids → Type 0
IsIssued h = Ascends 0 h.host_cids h.host_cid_seq

-- The identifiers without those of a sequence number, and the first of these.
abbrev pub without : ℕ → List QuicConnectionId → List QuicConnectionId
without n [] = []
without n (cid ∷ cids) = if cid.sequence_number == n then without n cids else cid ∷ without n cids

abbrev pub find_cid : ℕ → List QuicConnectionId → Option (List ℕ)
find_cid n [] = none
find_cid n (cid ∷ cids) = if cid.sequence_number == n then some cid.cid else find_cid n cids

-- There is no identifier, or it is another one.
abbrev pub IsOther : List ℕ → Option (List ℕ) → Type 0
IsOther host_cid none = Unit
IsOther host_cid (some cid) = cid ≢ host_cid

eq_bytes-≢ : (xs ys : List ℕ) → eq_bytes xs ys ≡ false → xs ≢ ys
eq_bytes-≢ xs ys h e = ground (arith, h, ap (eq_bytes xs) e, eq_bytes_self xs)

without_self :
    (n low high : ℕ) (cids : List QuicConnectionId)
    → n < low
    → Ascends low cids high
    → without n cids ≡ cids
without_self n low high [] h a = refl
without_self n low high (cid ∷ cids) h (a, as') =
    let other : (cid.sequence_number == n) ≡ false = ground (arith, a) in
    rw other
      (ap (λ t. cid ∷ t) (without_self n (cid.sequence_number + 1) high cids (omega arith) as'))

Ascends-weaken :
    (low low' high : ℕ) (cids : List QuicConnectionId)
    → low' ≤ low
    → Ascends low cids high
    → Ascends low' cids high
Ascends-weaken low low' high [] h a = omega (arith, a)
Ascends-weaken low low' high (cid ∷ cids) h (a, rest) = (omega (arith, a), rest)

without-Ascends :
    (n low high : ℕ) (cids : List QuicConnectionId)
    → Ascends low cids high
    → Ascends low (without n cids) high
without-Ascends n low high [] a = a
without-Ascends n low high (cid ∷ cids) (a, rest) = elim (Bool-cases (cid.sequence_number == n)) [
  | inl e ↦ rw e (
      Ascends-weaken (cid.sequence_number + 1) low high (without n cids) (omega (arith, a))
        (without-Ascends n (cid.sequence_number + 1) high cids rest))
  | inr e ↦ rw e (a, without-Ascends n (cid.sequence_number + 1) high cids rest)
]

-- The loop finds the identifier, and refuses to delete the one that is in use.
delete_cid_lem :
    (n low high : ℕ) (host_cid : List ℕ) (cids : List QuicConnectionId)
    → Ascends low cids high
    → ((delete_cid n host_cid cids ≡ raise (quic_connection_error 10))
        × (find_cid n cids ≡ some host_cid))
      ⊎ ((delete_cid n host_cid cids ≡ ok (without n cids, find_cid n cids))
          × IsOther host_cid (find_cid n cids))
unfolding delete_cid
delete_cid_lem n low high host_cid [] a = inr (refl, tt)
delete_cid_lem n low high host_cid (cid ∷ cids) (a, rest) =
    elim (Bool-cases (cid.sequence_number == n)) [
      | inl e ↦ elim (Bool-cases (eq_bytes cid.cid host_cid)) [
        | inl f ↦ inl (rw (e, f) refl, rw e (ap some (eq_bytes-eq cid.cid host_cid f)))
        | inr f ↦ inr (
          rw (e, f)
              (ap (λ t. ok (t, some cid.cid))
                (sym (without_self n (cid.sequence_number + 1) high cids (ground arith) rest))),
          rw e (eq_bytes-≢ cid.cid host_cid f),
        )
      ]
      | inr e ↦ elim (delete_cid_lem n (cid.sequence_number + 1) high host_cid cids rest) [
        | inl (f, g) ↦ inl (rw (e, f) refl, rw e g)
        | inr (f, g) ↦ inr (rw (e, f) refl, rw e g)
      ]
    ]

module _ (urandom_cid urandom_token : ℕ → List ℕ) where
  -- Identifiers with consecutive sequence numbers.
  abbrev pub fresh : ℕ → ℕ → List QuicConnectionId
  fresh zero n = []
  fresh (suc count) n = make_cid urandom_cid urandom_token n ∷ fresh count (n + 1)

  fresh-Ascends :
      (low n count : ℕ) (cids : List QuicConnectionId)
      → Ascends low cids n
      → Ascends low (cids ++ fresh count n) (n + count)
  fresh-Ascends low n zero [] a = omega (arith, a)
  fresh-Ascends low n (suc count) [] a = (
    a,
    subst (λ m. Ascends (n + 1) (fresh count (n + 1)) m) (omega arith)
        (fresh-Ascends (n + 1) (n + 1) count [] (omega arith)),
  )
  fresh-Ascends low n count (cid ∷ cids) (a, rest) =
      (a, fresh-Ascends (cid.sequence_number + 1) n count cids rest)

  length-fresh : (count n : ℕ) → length (fresh count n) ≡ count
  length-fresh zero n = refl
  length-fresh (suc count) n = omega (arith, length-fresh count (n + 1))

  abbrev pub missing : HostCids → ℕ
  missing h = min 8 h.remote_active_connection_id_limit - length h.host_cids

  abbrev pub issue : ℕ → HostCids → HostCids
  issue count h = record h {
    host_cids = h.host_cids ++ fresh count h.host_cid_seq;
    host_cid_seq = h.host_cid_seq + count;
  }

  issue_none : (h : HostCids) (count : ℕ) → count ≡ 0 → h ≡ issue count h
  issue_none h zero e =
      ap (λ t. record h { host_cids = t }) (sym (append-nil h.host_cids))
      ∙ ap (λ n. record h { host_cids = h.host_cids ++ []; host_cid_seq = n }) (omega arith)
  issue_none h (suc count) e = absurd (omega (arith, e))

  issue_more :
      (h : HostCids) (count total : ℕ) → total ≡ suc count → issue count (issue 1 h) ≡ issue total h
  issue_more h count zero e = absurd (omega (arith, e))
  issue_more h count (suc m) e =
      let same : count ≡ m = omega (arith, e) in
      let cid = make_cid urandom_cid urandom_token h.host_cid_seq in
      ap (λ t. record h { host_cids = t; host_cid_seq = h.host_cid_seq + 1 + count })
        (append_assoc h.host_cids (cid ∷ []) (fresh count (h.host_cid_seq + 1)))
      ∙ ap
          (λ n. record h {
            host_cids = h.host_cids ++ (cid ∷ fresh count (h.host_cid_seq + 1));
            host_cid_seq = n;
          })
          (omega arith)
      ∙ ap (λ n. issue (suc n) h) same

  -- Eight rounds are enough.
  replenish_lem :
      (rounds : ℕ) (h : HostCids)
      → missing h ≤ rounds
      → replenish urandom_cid urandom_token rounds h ≡ issue (missing h) h
  unfolding replenish
  replenish_lem zero h e = issue_none h (missing h) (omega (arith, e))
  replenish_lem (suc rounds) h e =
      elim (Bool-cases (ltb (length h.host_cids) (min 8 h.remote_active_connection_id_limit))) [
        | inr f ↦ rw (f, replenish) (issue_none h (missing h) (ground (arith, f)))
        | inl f ↦
            let long = length-append h.host_cids (fresh 1 h.host_cid_seq) in
            let below : length h.host_cids < min 8 h.remote_active_connection_id_limit =
              ground (arith, f) in
            rw (f, replenish)
              (replenish_lem rounds (issue 1 h) (omega (arith, e, long))
                ∙ issue_more h (missing (issue 1 h)) (missing h) (omega (arith, long, below)))
      ]

  -- A RETIRE_CONNECTION_ID frame is refused with PROTOCOL_VIOLATION, where its sequence number was
  -- not issued or is that of the identifier to which the packet was sent. Else the identifier of the
  -- sequence number, which was issued and is not that one, is gone and the others are not; then new
  -- ones are issued until there are eight,
  -- or as many as the peer allows: their numbers follow the last one. The event tells which was
  -- retired, and the sequence numbers stay ascending.
  pub retire_connection_id_lem :
      (n : ℕ) (host_cid : List ℕ) (h : HostCids)
      → IsIssued h
      → ((retire_connection_id urandom_cid urandom_token n host_cid h
            ≡ raise (quic_connection_error 10))
          × ((h.host_cid_seq ≤ n) ⊎ (find_cid n h.host_cids ≡ some host_cid)))
        ⊎ ((left : HostCids) × (retire_connection_id urandom_cid urandom_token n host_cid h
              ≡ ok left)
            × (n < h.host_cid_seq)
            × IsOther host_cid (find_cid n h.host_cids)
            × (left.host_cids
                ≡ without n h.host_cids
                  ++ fresh
                      (min 8 h.remote_active_connection_id_limit - length (without n h.host_cids))
                      h.host_cid_seq)
            × (left.events ≡ h.events ++ retire_event (find_cid n h.host_cids))
            × IsIssued left
            × (min 8 h.remote_active_connection_id_limit ≤ length left.host_cids))
  unfolding retire_connection_id
  retire_connection_id_lem n host_cid h a = elim (Bool-cases (ltb n h.host_cid_seq)) [
    | inr e ↦ inl (rw e refl, inl (ground (arith, e)))
    | inl e ↦ elim (delete_cid_lem n 0 h.host_cid_seq host_cid h.host_cids a) [
      | inl (f, g) ↦ inl (rw (e, f) refl, inr g)
      | inr (f, g) ↦
          let d : HostCids = record h {
            host_cids = without n h.host_cids;
            events = h.events ++ retire_event (find_cid n h.host_cids);
          } in
          inr (
            issue (missing d) d,
            rw (e, f) (ap ok (replenish_lem 8 d (omega arith))),
            ground (arith, e),
            g,
            refl,
            refl,
            fresh-Ascends 0 h.host_cid_seq (missing d) (without n h.host_cids)
                (without-Ascends n 0 h.host_cid_seq h.host_cids a),
            omega (
              arith,
              length-append d.host_cids (fresh (missing d) d.host_cid_seq),
              length-fresh (missing d) d.host_cid_seq,
            ),
          )
    ]
  ]
