-- ===== src/Connection/PeerCids/Places.antt =====
-- Where the sequence numbers of a connection's peer identifiers are
-- (src/aioquic/quic/connection.py): in use, available or waiting to be retired.
use aioquic.Base.{
  ℕ, ◌+◌, ◌≤◌, ◌≡◌, refl, sym, ap, ◌∙◌, arith, true, false, not, ◌&&◌, inl, inr, Bool, Bool-cases,
  List, [], ◌∷◌, ◌++◌, append_assoc, append-nil, ltb, leb, is_in, bit, count, ◌==◌, if◌then◌else◌,
}
use aioquic.Connection.PeerCids.{
  QuicConnectionId, PeerCids, older, newer, retire_all, retire_peer_cid, is_new, add_cid,
  retire_prior, retired,
}

abbrev pub numbers_of : List QuicConnectionId → List ℕ
numbers_of [] = []
numbers_of (cid ∷ cids) = cid.sequence_number ∷ numbers_of cids

-- Where the active identifier has its place elsewhere.
abbrev pub others : PeerCids → ℕ → ℕ
others c n = count n (numbers_of c.peer_cid_available) + count n c.retire_connection_ids

abbrev pub total : PeerCids → ℕ → ℕ
total c n = bit (n == c.peer_cid.sequence_number) + others c n

abbrev pub seen : PeerCids → ℕ → ℕ
seen c n = bit (is_in n c.peer_cid_sequence_numbers)

count-add :
    (n : ℕ) (cids : List QuicConnectionId) (cid : QuicConnectionId)
    → count n (numbers_of (cids ++ (cid ∷ [])))
      ≡ count n (numbers_of cids) + bit (n == cid.sequence_number)
count-add n [] cid = omega arith
count-add n (c ∷ cids) cid = omega (arith, count-add n cids cid)

count-older-newer :
    (n m : ℕ) (cids : List QuicConnectionId)
    → count n (numbers_of (older m cids)) + count n (numbers_of (newer m cids))
      ≡ count n (numbers_of cids)
count-older-newer n m [] = refl
count-older-newer n m (c ∷ cids) = ground (arith, count-older-newer n m cids)

pub retire_all_lem :
    (cids : List QuicConnectionId) (c : PeerCids)
    → retire_all cids c
      ≡ record c { retire_connection_ids = c.retire_connection_ids ++ numbers_of cids }
retire_all_lem [] c =
    ap (λ ns. record c { retire_connection_ids = ns }) (sym (append-nil c.retire_connection_ids))
retire_all_lem (cid ∷ cids) c =
    retire_all_lem cids (retire_peer_cid cid c)
    ∙ ap (λ ns. record c { retire_connection_ids = ns })
        (append_assoc c.retire_connection_ids (cid.sequence_number ∷ []) (numbers_of cids))

and_not : (a b : Bool) → (a && not b) ≡ true → b ≡ false
and_not true true h = absurd (ground (arith, h))
and_not true false h = refl
and_not false b h = absurd (ground (arith, h))

-- The new identifier is counted once, as it was not seen before.
pub count-add_cid :
    (cid : QuicConnectionId) (c : PeerCids) (n k : ℕ)
    → others c n + k ≡ seen c n
    → others (add_cid cid c) n + k ≡ seen (add_cid cid c) n
count-add_cid cid c n k h = elim (Bool-cases (is_new cid c)) [
  | inr e ↦ rw e h
  | inl e ↦
      let add = count-add n c.peer_cid_available cid in
      let unseen = and_not _ (is_in cid.sequence_number c.peer_cid_sequence_numbers) e in
      elim (Bool-cases (n == cid.sequence_number)) [
        | inr q ↦ rw e (rw q (omega (arith, add, ap bit q, h)))
        | inl q ↦
            let same : n ≡ cid.sequence_number = ground arith in
            let none_yet : seen c n ≡ 0 =
              ap (λ m. bit (is_in m c.peer_cid_sequence_numbers)) same ∙ ap bit unseen in
            rw e (rw q (omega (arith, add, ap bit q, h, none_yet)))
      ]
]

-- What is retired of the identifiers is not lost.
pub count-retired :
    (m : ℕ) (c : PeerCids) (n : ℕ)
    → others (retire_prior m c) n + count n (numbers_of (retired m c))
      ≡ others c n
        + (if ltb c.peer_cid.sequence_number m then bit (n == c.peer_cid.sequence_number) else 0)
count-retired m c n = elim (Bool-cases (ltb c.peer_cid.sequence_number m)) [
  | inl e ↦ rw e (omega (arith, count-older-newer n m c.peer_cid_available))
  | inr e ↦ rw e (omega (arith, count-older-newer n m c.peer_cid_available))
]

abbrev pub AllFrom : ℕ → List QuicConnectionId → Type 0
AllFrom m [] = Unit
AllFrom m (c ∷ cs) = (m ≤ c.sequence_number) × AllFrom m cs

newer-AllFrom : (m : ℕ) (cids : List QuicConnectionId) → AllFrom m (newer m cids)
newer-AllFrom m [] = tt
newer-AllFrom m (c ∷ cids) = elim (Bool-cases (leb m c.sequence_number)) [
  | inl e ↦ rw e (ground arith, newer-AllFrom m cids)
  | inr e ↦ rw e (newer-AllFrom m cids)
]

AllFrom-add :
    (m : ℕ) (cids : List QuicConnectionId) (cid : QuicConnectionId)
    → AllFrom m cids
    → m ≤ cid.sequence_number
    → AllFrom m (cids ++ (cid ∷ []))
AllFrom-add m [] cid a h = (h, tt)
AllFrom-add m (c ∷ cs) cid (a, rest) h = (a, AllFrom-add m cs cid rest h)

-- What is available after a frame is not to be retired.
pub add_cid-AllFrom :
    (m : ℕ) (cid : QuicConnectionId) (c : PeerCids)
    → AllFrom m (add_cid cid (retire_prior m c)).peer_cid_available
add_cid-AllFrom m cid c = elim (Bool-cases (is_new cid (retire_prior m c))) [
  | inl e ↦ rw e (
      AllFrom-add m (newer m c.peer_cid_available) cid (newer-AllFrom m c.peer_cid_available)
        (ground (arith, e)))
  | inr e ↦ rw e (newer-AllFrom m c.peer_cid_available)
]
