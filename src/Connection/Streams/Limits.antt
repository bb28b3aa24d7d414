-- ===== src/Connection/Streams/Limits.antt =====
-- The limits on the number of streams, in both directions (src/aioquic/quic/connection.py).
use aioquic.Base.{
  ℕ, ◌+◌, ◌/◌, ◌≤◌, ◌<◌, ◌≡◌, ◌⊎◌, inl, inr, sym, arith, Bool, true, false, Bool-cases, List, [],
  ◌∷◌, ◌++◌, ◌==◌, if◌then◌else◌,
}
use mathlib.Core.Path.{subst}
use aioquic.H3.State.{stream_is_unidirectional, stream_is_client_initiated}
use aioquic.Connection.Streams.State.{
  QuicStream, QuicStreams, same, modify, local_max_streams, remote_max_streams, streams_blocked,
}
use aioquic.Connection.Streams.Opening.{use_stream}
use aioquic.Connection.Streams.Unblocking.{set_remote_max_streams}

-- A stream of the peer is one of those that were counted; one of this endpoint is blocked, or below
-- the peer's limit.
abbrev pub Within : Bool → ℕ → ℕ → ℕ → Bool → Type 0
Within false used remote id is_blocked = id / 4 + 1 ≤ used
Within true used remote id is_blocked = (is_blocked ≡ true) ⊎ (id / 4 < remote)

abbrev pub AllWithin : (Bool → ℕ) → (Bool → ℕ) → Bool → List (ℕ × QuicStream) → Type 0
AllWithin used remote client [] = Unit
AllWithin used remote client ((id, s) ∷ xs) =
    Within (same (stream_is_client_initiated id) client) (used (stream_is_unidirectional id))
      (remote (stream_is_unidirectional id)) id s.is_blocked
    × AllWithin used remote client xs

Within-grow :
    (own : Bool) (used used' remote remote' id : ℕ) (s : Bool)
    → used ≤ used'
    → remote ≤ remote'
    → Within own used remote id s
    → Within own used' remote' id s
Within-grow false used used' remote remote' id s h k w = omega (arith, h, w)
Within-grow true used used' remote remote' id s h k (inl b) = inl b
Within-grow true used used' remote remote' id s h k (inr b) = inr (omega (arith, k, b))

pub AllWithin-grow :
    (used used' remote remote' : Bool → ℕ) (client : Bool) (xs : List (ℕ × QuicStream))
    → ((u : Bool) → used u ≤ used' u)
    → ((u : Bool) → remote u ≤ remote' u)
    → AllWithin used remote client xs
    → AllWithin used' remote' client xs
AllWithin-grow used used' remote remote' client [] h k w = tt
AllWithin-grow used used' remote remote' client ((id, s) ∷ xs) h k (w, ws) = (
  Within-grow (same (stream_is_client_initiated id) client) _ _ _ _ id s.is_blocked
      (h (stream_is_unidirectional id)) (k (stream_is_unidirectional id)) w,
  AllWithin-grow used used' remote remote' client xs h k ws,
)

pub AllWithin-snoc :
    (used remote : Bool → ℕ) (client : Bool) (xs : List (ℕ × QuicStream)) (id : ℕ) (s : QuicStream)
    → AllWithin used remote client xs
    → AllWithin used remote client ((id, s) ∷ [])
    → AllWithin used remote client (xs ++ ((id, s) ∷ []))
AllWithin-snoc used remote client [] id s w l = l
AllWithin-snoc used remote client (x ∷ xs) id s (w, ws) l =
    (w, AllWithin-snoc used remote client xs id s ws l)

-- A change of one stream that keeps it within its limit.
pub AllWithin-modify :
    (used remote : Bool → ℕ) (client : Bool) (id : ℕ) (f : QuicStream → QuicStream)
    (xs : List (ℕ × QuicStream))
    → ((s : QuicStream)
        → AllWithin used remote client ((id, s) ∷ [])
        → AllWithin used remote client ((id, f s) ∷ []))
    → AllWithin used remote client xs
    → AllWithin used remote client (modify id f xs)
AllWithin-modify used remote client id f [] h w = tt
AllWithin-modify used remote client id f ((key, s) ∷ xs) h (w, ws) = elim (Bool-cases (id == key)) [
  | inl e ↦
      let equal : id ≡ key = ground arith in
      let one =
        subst
          (λ k.
            Within (same (stream_is_client_initiated k) client) (used (stream_is_unidirectional k))
              (remote (stream_is_unidirectional k)) k s.is_blocked)
          (sym equal) w in
      let changed = h s (one, tt) in
      rw e (
        subst
            (λ k.
              Within (same (stream_is_client_initiated k) client)
                (used (stream_is_unidirectional k)) (remote (stream_is_unidirectional k)) k
                (f s).is_blocked)
            equal changed.0,
        AllWithin-modify used remote client id f xs h ws,
      )
  | inr e ↦ rw e (w, AllWithin-modify used remote client id f xs h ws)
]

abbrev pub AllOf : Bool → List ℕ → Type 0
AllOf u [] = Unit
AllOf u (id ∷ ids) = (stream_is_unidirectional id ≡ u) × AllOf u ids

pub AllOf-snoc :
    (u : Bool) (ids : List ℕ) (id : ℕ)
    → AllOf u ids
    → stream_is_unidirectional id ≡ u
    → AllOf u (ids ++ (id ∷ []))
AllOf-snoc u [] id a e = (e, tt)
AllOf-snoc u (i ∷ ids) id (a, rest) e = (a, AllOf-snoc u ids id rest e)

abbrev pub used_of : QuicStreams → Bool → ℕ
used_of c u = (local_max_streams u c).used

abbrev pub remote_of : QuicStreams → Bool → ℕ
remote_of c u = remote_max_streams u c

-- What the limits promise.
pub record IsWithin (c : QuicStreams) : Type 0 where
  pub each : AllWithin (used_of c) (remote_of c) c.is_client c.streams
  pub counted : (u : Bool) → (local_max_streams u c).used ≤ (local_max_streams u c).value
  pub blocked : (u : Bool) → AllOf u (streams_blocked u c)

pub Within-opened :
    (used remote : ℕ) (own : Bool) (id : ℕ) (s : Bool)
    → own ≡ false
    → id / 4 + 1 ≤ used
    → Within own used remote id s
Within-opened used remote false id s e h = h
Within-opened used remote true id s e h = absurd (ground (arith, e))

pub used_grows : (u v : Bool) (n : ℕ) (c : QuicStreams) → used_of c v ≤ used_of (use_stream u n c) v
used_grows true true n c = ground arith
used_grows true false n c = omega arith
used_grows false true n c = omega arith
used_grows false false n c = ground arith

pub used_reaches : (u : Bool) (n : ℕ) (c : QuicStreams) → n ≤ used_of (use_stream u n c) u
used_reaches true n c = ground arith
used_reaches false n c = ground arith

pub used_counted :
    (u v : Bool) (n : ℕ) (c : QuicStreams)
    → used_of c v ≤ (local_max_streams v c).value
    → n ≤ (local_max_streams u c).value
    → used_of (use_stream u n c) v ≤ (local_max_streams v (use_stream u n c)).value
used_counted true true n c h k = ground arith
used_counted true false n c h k = h
used_counted false true n c h k = h
used_counted false false n c h k = ground arith

pub Within-own :
    (used remote : ℕ) (own : Bool) (id : ℕ) (is_blocked : Bool)
    → own ≡ true
    → (is_blocked ≡ true) ⊎ (id / 4 < remote)
    → Within own used remote id is_blocked
Within-own used remote true id s e h = h
Within-own used remote false id s e h = absurd (ground (arith, e))

pub Within-unblocked :
    (used remote : ℕ) (own : Bool) (id : ℕ) (s t : Bool)
    → id / 4 < remote
    → Within own used remote id s
    → Within own used remote id t
Within-unblocked used remote true id s t h w = inr h
Within-unblocked used remote false id s t h w = w

pub AllOf-blocked :
    (u v : Bool) (id : ℕ) (uni bidi : List ℕ)
    → stream_is_unidirectional id ≡ u
    → AllOf v (if v then uni else bidi)
    → AllOf v
        (if v then (if u then uni ++ (id ∷ []) else uni) else if u then bidi else bidi ++ (id ∷ []))
AllOf-blocked true true id uni bidi e a = AllOf-snoc true uni id a e
AllOf-blocked true false id uni bidi e a = a
AllOf-blocked false true id uni bidi e a = a
AllOf-blocked false false id uni bidi e a = AllOf-snoc false bidi id a e

pub AllOf-put :
    (u v : Bool) (ids uni bidi : List ℕ)
    → AllOf u ids
    → AllOf v (if v then uni else bidi)
    → AllOf v (if v then (if u then ids else uni) else if u then bidi else ids)
AllOf-put true true ids uni bidi b a = b
AllOf-put true false ids uni bidi b a = a
AllOf-put false true ids uni bidi b a = a
AllOf-put false false ids uni bidi b a = b

pub remote_grows :
    (u v : Bool) (n : ℕ) (c : QuicStreams)
    → remote_of c u ≤ n
    → remote_of c v ≤ remote_of (set_remote_max_streams u n c) v
remote_grows true true n c h = h
remote_grows true false n c h = omega arith
remote_grows false true n c h = omega arith
remote_grows false false n c h = h
