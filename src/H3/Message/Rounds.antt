-- ===== src/H3/Message/Rounds.antt =====
-- The rounds of the loop over the frames keep to the order of a message
-- (_receive_request_or_push_data of src/aioquic/h3/connection.py).
use aioquic.Base.{
  ℕ, zero, suc, ◌-◌, min, Bool, false, not, ◌&&◌, ◌||◌, Option, none, some, List, ◌≡◌, refl, sym,
  ◌∙◌, inl, inr, Bool-cases, Option-cases, ◌==◌, ltb, leb, length, drop, eq_some, append-nil,
}
use mathlib.Core.Path.{subst}
use aioquic.Base.Run.{Out, Out-then}
use aioquic.Buffer.{Buffer, tell, capacity}
use aioquic.Buffer.Moves.{pull_uint_var-Reads, pull_bytes-Reads}
use aioquic.H3.{H3Event}
use aioquic.H3.State.{Qpack, H3Stream, Handling}
use aioquic.H3.Request.{is_empty, handle_request_or_push_frame}
use aioquic.H3.Frames.{
  Fetched, incomplete, web_transport, frame, less, handle_frame_of, receive_payload, set_frame_size,
  fetch_header, receive_web_transport, receive_round, after_fetch,
}
use aioquic.H3.Message.{View, view, Steps, Steps-append}
use aioquic.H3.Message.Handlers.{frame-Emits}
use aioquic.H3.Message.Views.{
  reads_data, IsOrdered, and_false, not_data, Any, Good, GoodRound, handle_data-After, Handled,
  catch_blocked-Good, Leaves, frame_of_others, frame_of_Data,
}

module _ {D E : Type 0} (q : Qpack D E) where
  frame_of-Leaves :
      (frame_type : Option ℕ) (bytes : List ℕ) (ended : Bool) (h : Handling D E)
      → h.stream.blocked ≡ false
      → (eq_some frame_type 0x0 ≡ false → reads_data h.stream ≡ false)
      → Out (Handled h.stream) (Leaves h.stream) (handle_frame_of q frame_type bytes ended h)
  unfolding handle_request_or_push_frame
  frame_of-Leaves none bytes ended h n r = (refl, inl (r refl), refl)
  frame_of-Leaves (some frame_type) bytes ended h n r =
      let emits = frame-Emits q frame_type (some bytes) ended h in
      elim (Bool-cases (frame_type == 0x0)) [
        | inl e ↦ frame_of_Data h.stream _ emits (rw e (handle_data-After bytes ended h n))
        | inr e ↦ frame_of_others h.stream _ (r e) emits
      ]

  less-reads :
      (s : H3Stream) (size chunk_size : ℕ)
      → eq_some s.frame_type 0x0 ≡ false
      → reads_data (less s size chunk_size) ≡ false
  less-reads s zero chunk_size h = refl
  less-reads s (suc n) chunk_size h = elim (Bool-cases (leb (suc n) chunk_size)) [
    | inl e ↦ rw e refl
    | inr e ↦ rw (e, h) refl
  ]

  less-view : (s : H3Stream) (size chunk_size : ℕ) → view (less s size chunk_size) ≡ view s
  less-view s zero chunk_size = refl
  less-view s (suc n) chunk_size = elim (Bool-cases (leb (suc n) chunk_size)) [
    | inl e ↦ rw e refl
    | inr e ↦ rw e refl
  ]

  less-blocked : (s : H3Stream) (size chunk_size : ℕ) → (less s size chunk_size).blocked ≡ s.blocked
  less-blocked s zero chunk_size = refl
  less-blocked s (suc n) chunk_size = elim (Bool-cases (leb (suc n) chunk_size)) [
    | inl e ↦ rw e refl
    | inr e ↦ rw e refl
  ]

  receive_payload-Good :
      (u : View) (b : Buffer) (consumed size : ℕ) (events : List H3Event) (h : Handling D E)
      → h.stream.blocked ≡ false
      → Steps u events (view h.stream)
      → Out Any (GoodRound u) (receive_payload q b consumed size events h)
  unfolding receive_payload
  receive_payload-Good u b consumed size events h n k =
      let chunk_size = min size (capacity b - consumed) in
      let s = less h.stream size chunk_size in
      let open_still = less-blocked h.stream size chunk_size ∙ n in
      elim (Bool-cases (not (eq_some h.stream.frame_type 0x0) && ltb chunk_size size)) [
        | inl e ↦ rw e (k, inl (not_data h.stream _ e))
        | inr e ↦ elim (pull_bytes-Reads b chunk_size) [
          | inl f ↦ rw (e, f) tt
          | inr (bytes, c, f) ↦
              rw (e, f)
                (catch_blocked-Good u (length bytes) c (tell c) events s _ open_still
                  (rw (less-view h.stream size chunk_size) k)
                  (frame_of-Leaves h.stream.frame_type bytes _ (record h { stream = s }) open_still
                    (less-reads h.stream size chunk_size)))
        ]
      ]

  -- What a frame's header leaves: the message as it was, and no frame that is being read unless
  -- one was found.
  abbrev Found : View → Fetched → Handling D E → Type 0
  Found v incomplete g = (view g.stream ≡ v) × IsOrdered g.stream
  Found v (web_transport after) g = (view g.stream ≡ v) × IsOrdered g.stream
  Found v (frame b after) g = (view g.stream ≡ v) × (g.stream.blocked ≡ false)

  size-Found :
      (frame_type : ℕ) (b : Buffer) (size : ℕ) (h : Handling D E)
      → h.stream.blocked ≡ false
      → Out Any (Found (view h.stream)) (set_frame_size frame_type b size h)
  size-Found frame_type b size h n = elim (Bool-cases (frame_type == 0x41)) [
    | inl e ↦ rw e (refl, inl (and_false _))
    | inr e ↦ rw e (refl, n)
  ]

  fetch_header-Found :
      (b : Buffer) (consumed : ℕ) (h : Handling D E)
      → h.stream.blocked ≡ false
      → Out Any (Found (view h.stream)) (fetch_header b consumed h)
  unfolding fetch_header
  fetch_header-Found b consumed h n = elim (Option-cases h.stream.frame_size) [
    | inr (size, e) ↦ rw e (refl, n)
    | inl e ↦ elim (pull_uint_var-Reads b) [
      | inl f ↦ rw (e, f) (refl, inl (and_false _))
      | inr (frame_type, c, f) ↦ elim (pull_uint_var-Reads c) [
        | inl g ↦ rw (e, f, g) (refl, inl (and_false _))
        | inr (size, d, g) ↦
            rw (e, f, g)
              (size-Found frame_type d size
                (record h {
                  stream = record h.stream { frame_size = none; frame_type = some frame_type };
                })
                n)
      ]
    ]
  ]

  receive_web_transport-Good :
      (u : View) (consumed : ℕ) (ended : Bool) (events : List H3Event) (h : Handling D E)
      → Good u events h
      → Out Any (GoodRound u) (receive_web_transport consumed ended events h)
  unfolding receive_web_transport
  receive_web_transport-Good u consumed ended events h (k, o) =
      elim (Option-cases h.stream.session_id) [
        | inl e ↦ rw (e, append-nil events) (k, o)
        | inr (session_id, e) ↦
            elim (Bool-cases (ended || not (is_empty (drop consumed h.stream.buffer)))) [
              | inl f ↦
                  rw (e, f)
                    (
                      Steps-append events _ u (view h.stream) (view h.stream) k
                          (view h.stream, refl, refl),
                      o,
                    )
              | inr f ↦ rw (e, f, append-nil events) (k, o)
            ]
      ]

  pub receive_round-Good :
      (u : View) (b : Buffer) (consumed : ℕ) (ended : Bool) (events : List H3Event)
      (h : Handling D E)
      → h.stream.blocked ≡ false
      → Steps u events (view h.stream)
      → Out Any (GoodRound u) (receive_round q b consumed ended events h)
  unfolding receive_round
  receive_round-Good u b consumed ended events h open_still k =
      Out-then Any Any (Found (view h.stream)) (GoodRound u) (fetch_header b consumed)
        (after_fetch q consumed ended events) h (fetch_header-Found b consumed h open_still)
        (λ e g x. tt) (λ f g x. found f g x)
    where
      found :
          (f : Fetched) (g : Handling D E)
          → Found (view h.stream) f g
          → Out Any (GoodRound u) (after_fetch q consumed ended events f g)
      found incomplete g (e, o) = (subst (λ (v : View). Steps u events v) (sym e) k, o)
      found (web_transport after) g (e, o) =
          receive_web_transport-Good u after ended events g
            (subst (λ (v : View). Steps u events v) (sym e) k, o)
      found (frame c after) g (e, m) = elim (Option-cases g.stream.frame_size) [
        | inl n ↦ rw n (subst (λ (v : View). Steps u events v) (sym e) k, inl (and_false _))
        | inr (size, n) ↦ rw n (
            receive_payload-Good u c after size events
              (record g { stream = record g.stream { frame_size = some size } }) m
              (subst (λ (v : View). Steps u events v) (sym e) k))
      ]
