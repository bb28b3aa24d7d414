-- ===== src/H3/Message/Data.antt =====
-- What the handler of DATA frames emits (src/aioquic/h3/connection.py).
use aioquic.Base.{
  ℕ, ◌+◌, Bool, true, false, not, ◌||◌, List, [], ◌∷◌, ◌≡◌, refl, ap, ◌⊎◌, inl, inr, Bool-cases,
  arith, length, if◌then◌else◌,
}
use aioquic.Base.Exception.{Exception, ok, raise, stream_blocked}
use aioquic.Base.Run.{Out, Out-test, return, ◌>>◌}
use aioquic.H3.{H3Event, data_received, message_error, frame_unexpected}
use aioquic.H3.State.{
  HeadersState, is_after_headers, initial, after_headers, after_trailers, H3Stream, Handling,
  modify_stream,
}
use aioquic.H3.Request.{is_empty, wrong_length, check_content_length, check_at_end, handle_data}
use aioquic.H3.Message.{view, Matches, Steps}

abbrev pub is_blocked : Exception → Bool
is_blocked e = elim e [ stream_blocked ↦ true | _ ↦ false ]

pub after_headers-inv :
    (state : HeadersState) → not (is_after_headers state) ≡ false → state ≡ after_headers
after_headers-inv initial h = absurd (ground (arith, h))
after_headers-inv after_headers h = refl
after_headers-inv after_trailers h = absurd (ground (arith, h))

or-inv : (a b : Bool) → (a || b) ≡ false → b ≡ false
or-inv true b h = absurd (ground (arith, h))
or-inv false b h = h

no_bytes : (bytes : List ℕ) (n : ℕ) → not (is_empty bytes) ≡ false → n + length bytes ≡ n
no_bytes [] n h = omega arith
no_bytes (b ∷ bytes) n h = absurd (ground (arith, h))

module _ {D E : Type 0} where
  -- StreamBlocked leaves the stream as it was.
  abbrev pub Unblocked : H3Stream → Exception → Handling D E → Type 0
  Unblocked s e h = (is_blocked e ≡ false) ⊎ (h.stream ≡ s)

  -- The events are steps of the message, and the frame that is being read is the same;
  -- the stream is blocked as it was.
  abbrev pub Emits : H3Stream → List H3Event → Handling D E → Type 0
  Emits s events h =
      Steps (view s) events (view h.stream)
      × (h.stream.frame_type ≡ s.frame_type)
      × (h.stream.frame_size ≡ s.frame_size)
      × (h.stream.blocked ≡ s.blocked)

  pub check_at_end-Matches :
      (ended : Bool) (h : Handling D E)
      → (check_at_end ended h ≡ (raise message_error, h))
        ⊎ ((check_at_end ended h ≡ (ok tt, h)) × Matches ended (view h.stream))
  unfolding check_at_end check_content_length
  check_at_end-Matches false h = inr (refl, inl refl)
  check_at_end-Matches true h = elim (Bool-cases (wrong_length h.stream)) [
    | inl e ↦ inl (rw e refl)
    | inr e ↦ inr (rw e refl, inr e)
  ]

  data_step :
      (bytes : List ℕ) (ended : Bool) (h : Handling D E)
      → h.stream.headers_recv_state ≡ after_headers
      → Out (Unblocked h.stream) (Emits h.stream) (
          (modify_stream (λ s. record s { content_length = s.content_length + length bytes })
              >> (check_at_end ended
                  >> return (
                      if ended || not (is_empty bytes)
                      then data_received bytes h.stream.push_id h.stream.stream_id ended ∷ []
                      else [])))
            h)
  data_step bytes ended h a =
      let g = record h {
        stream = record h.stream { content_length = h.stream.content_length + length bytes };
      } in
      elim (check_at_end-Matches ended g) [
        | inl c ↦ rw c (inl refl)
        | inr (c, m) ↦ elim (Bool-cases (ended || not (is_empty bytes))) [
          | inl e ↦
              rw (c, e) ((view g.stream, (inl a, refl, refl, refl, m), refl), refl, refl, refl)
          | inr e ↦
              let none_more : h.stream.content_length + length bytes ≡ h.stream.content_length =
                no_bytes bytes h.stream.content_length (or-inv ended _ e) in
              rw (c, e)
                (
                  ap
                      (λ n. record {
                        state = h.stream.headers_recv_state;
                        expected = h.stream.expected_content_length;
                        length = n;
                      })
                      none_more,
                  refl,
                  refl,
                  refl,
                )
        ]
      ]

  pub handle_data-Emits :
      (bytes : List ℕ) (ended : Bool) (h : Handling D E)
      → Out (Unblocked h.stream) (Emits h.stream) (handle_data bytes ended h)
  unfolding handle_data
  handle_data-Emits bytes ended h =
      Out-test (Unblocked h.stream) (Emits h.stream)
        (not (is_after_headers h.stream.headers_recv_state)) frame_unexpected _ h (inl refl)
        (λ t. data_step bytes ended h (after_headers-inv h.stream.headers_recv_state t))
