-- ===== src/H3/Connection/Streams.antt =====
-- The dictionary of streams (_get_or_create_stream of src/aioquic/h3/connection.py) holds no stream
-- that was ended by the call.
use aioquic.Base.{
  ℕ, Bool, false, Option, none, some, List, [], ◌∷◌, ◌≡◌, refl, arith, true, ◌⊎◌, inl, inr,
  Bool-cases, ◌==◌, if◌then◌else◌,
}
use aioquic.Base.Exception.{Result}
use aioquic.Base.Run.{Run}
use aioquic.H3.{H3Event, Headers}
use aioquic.H3.State.{
  Qpack, H3Stream, H3Connection, Streams, is_ended, find, pop, stream_is_unidirectional,
}
use aioquic.H3.Connection.{
  close_found, close_stream, open_stream, with_stream, closing, at_stream, receive_uni,
  receive_stream_data,
}
use aioquic.H3.Sending.{send_headers, send_allowed_headers}
use aioquic.H3.Frames.{receive_request_or_push_data}

find-pop : (stream_id : ℕ) (streams : Streams) → find stream_id (pop stream_id streams) ≡ none
find-pop stream_id [] = refl
find-pop stream_id ((id, s) ∷ streams) = elim (Bool-cases (stream_id == id)) [
  | inl e ↦ rw e (find-pop stream_id streams)
  | inr e ↦ rw (e, e) (find-pop stream_id streams)
]

-- No stream, or one on which there is more to send or to receive, or blocked headers to resume.
abbrev pub IsLive : Option H3Stream → Type 0
IsLive none = Unit
IsLive (some s) = (s.sending_ended ≡ false) ⊎ (s.receiving_ended ≡ false) ⊎ (s.blocked ≡ true)

-- What becomes of a stream at the end of a call: it stays as it is, unless it has ended.
abbrev pub Closes : Option H3Stream → Option H3Stream → Type 0
Closes none after = after ≡ none
Closes (some s) after =
    (IsLive (some s) × (after ≡ some s))
    ⊎ ((s.sending_ended ≡ true) × (s.receiving_ended ≡ true) × (s.blocked ≡ false) × (after ≡ none))

has_ended :
    (s : H3Stream)
    → is_ended s ≡ true
    → (s.sending_ended ≡ true) × (s.receiving_ended ≡ true) × (s.blocked ≡ false)
has_ended s h = (ground (arith, h), ground (arith, h), ground (arith, h))

not_ended : (s : H3Stream) → is_ended s ≡ false → IsLive (some s)
not_ended s h = ground (arith, h)

module _ {D E : Type 0} where
  -- What is in the dictionary after a call that left `c` is closed.
  abbrev Settled : ℕ → H3Connection D E → H3Connection D E → Type 0
  Settled stream_id c d =
      IsLive (find stream_id d.streams)
      × Closes (find stream_id c.streams) (find stream_id d.streams)

  close_stream-Settled :
      (stream_id : ℕ) (c : H3Connection D E) → Settled stream_id c (close_stream stream_id c)
  unfolding close_stream
  close_stream-Settled stream_id c = go (find stream_id c.streams) refl
    where
      go :
          (found : Option H3Stream)
          → find stream_id c.streams ≡ found
          → IsLive (find stream_id (close_found stream_id found c).streams)
            × Closes found (find stream_id (close_found stream_id found c).streams)
      go none e = rw e (tt, refl)
      go (some s) e = elim (Bool-cases (is_ended s)) [
        | inl f ↦
            let (a, b, d) = has_ended s f in
            rw (f, find-pop stream_id c.streams) (tt, inr (a, b, d, refl))
        | inr f ↦ rw (f, e) (not_ended s f, inl (not_ended s f, refl))
      ]

  with_stream-Settled :
      {A : Type 0} (stream_id : ℕ) (m : Run (H3Connection D E) A) (c : H3Connection D E)
      → Settled stream_id (m (open_stream stream_id c)).1 (with_stream stream_id m c).1
  with_stream-Settled {A = A} stream_id m c = closed (m (open_stream stream_id c))
    where
      closed :
          (out : Result A × H3Connection D E) → Settled stream_id out.1 (closing stream_id out).1
      closed (r, d) = close_stream-Settled stream_id d

module _ {D E : Type 0} (q : Qpack D E) where
  -- What a call does between the two parts of `_get_or_create_stream`.
  abbrev pub receives : ℕ → List ℕ → Bool → Run (H3Connection D E) (List H3Event)
  receives stream_id bytes ended =
      if stream_is_unidirectional stream_id
      then receive_uni q stream_id bytes ended
      else at_stream stream_id (receive_request_or_push_data q bytes ended)

  abbrev pub sends : ℕ → Headers → Bool → Run (H3Connection D E) (Unit {0})
  sends stream_id headers ended =
      at_stream stream_id (send_allowed_headers q stream_id headers ended)

  -- A stream that has ended in both directions, with no blocked headers, is not in the dictionary
  -- after data was received on it or headers were sent on it, nor is it when an exception is raised.
  -- One that has not ended, or has blocked headers, is there as the handling of the call left it.
  pub streams-IsLive :
      (stream_id : ℕ) (bytes : List ℕ) (ended : Bool) (headers : Headers) (c : H3Connection D E)
      → IsLive (find stream_id (receive_stream_data q stream_id bytes ended c).1.streams)
        × Closes
            (find stream_id (receives stream_id bytes ended (open_stream stream_id c)).1.streams)
            (find stream_id (receive_stream_data q stream_id bytes ended c).1.streams)
        × IsLive (find stream_id (send_headers q stream_id headers ended c).1.streams)
        × Closes
            (find stream_id (sends stream_id headers ended (open_stream stream_id c)).1.streams)
            (find stream_id (send_headers q stream_id headers ended c).1.streams)
  unfolding receive_stream_data send_headers
  streams-IsLive stream_id bytes ended headers c =
      let (a, b) =
        with_stream-Settled {A = List H3Event} stream_id (receives stream_id bytes ended) c in
      let (d, e) = with_stream-Settled {A = Unit {0}} stream_id (sends stream_id headers ended) c in
      (a, b, d, e)
