-- ===== src/H3/Message/Handlers.antt =====
-- The handlers of frames keep to the order of a message (_handle_request_or_push_frame of
-- src/aioquic/h3/connection.py).
use aioquic.Base.{
  ℕ, Bool, true, false, not, ◌&&◌, Option, none, some, List, [], ◌∷◌, ◌≡◌, refl, ap, sym, ◌∙◌, ◌⊎◌,
  inl, inr, Bool-cases, arith, ◌==◌, is_none, drop, if◌then◌else◌,
}
use mathlib.Core.Path.{subst}
use aioquic.Base.Exception.{Result, ok, raise}
use aioquic.Base.Run.{Run, Out, Out-then, Out-test, Out-map, return, lift, ◌>>◌}
use aioquic.H3.{Headers, headers_received, frame_unexpected, message_error}
use aioquic.H3.State.{
  Qpack, HeadersState, is_initial, is_after_trailers, next_headers_state, H3Connection, initial,
  after_headers, after_trailers, H3Stream, Handling, modify_stream, on_connection,
}
use aioquic.H3.Request.{
  is_refused, bytes_of, check_at_end, validate_first, decode_headers, handle_headers,
  handle_push_promise, handle_request_or_push_frame,
}
use aioquic.H3.Headers.{validate_request_headers, validate_response_headers, validate_trailers}
use aioquic.H3.Headers.Outcomes.{validate_push_promise_headers-Validates}
use aioquic.H3.Headers.Valid.{validate_headers_lem}
use aioquic.H3.Name
use aioquic.Buffer.{new, tell}
use aioquic.Buffer.Moves.{pull_uint_var-Reads}
use aioquic.H3.Message.{view, IsHead, IsTrailers}
use aioquic.H3.Message.Data.{Unblocked, Emits, check_at_end-Matches, handle_data-Emits}

-- Either validation raises a MessageError, or the headers are valid.
abbrev Checked : Headers → Option ℕ → Result (Option ℕ) → Type 0
Checked headers before r =
    (r ≡ raise message_error)
    ⊎ ((expected : Option ℕ) × (r ≡ ok expected) × IsHead headers before expected)

validated_first :
    (is_client : Bool) (headers : Headers) (before : Option ℕ)
    → Checked headers before (
        if is_client
        then validate_response_headers headers before
        else validate_request_headers headers before)
unfolding validate_request_headers validate_response_headers
validated_first true headers before =
    elim (validate_headers_lem (Name.status ∷ []) (Name.status ∷ []) headers before) [
      | inl e ↦ inl e
      | inr (expected, e, v) ↦ inr (expected, e, inr v)
    ]
validated_first false headers before =
    elim (validate_headers_lem
      (Name.method ∷ Name.scheme ∷ Name.authority ∷ Name.path ∷ Name.protocol ∷ [])
      (Name.method ∷ Name.authority ∷ []) headers before) [
        | inl e ↦ inl e
        | inr (expected, e, v) ↦ inr (expected, e, inl v)
      ]

validate_trailers_lem :
    (headers : Headers)
    → (validate_trailers headers ≡ raise message_error)
      ⊎ ((validate_trailers headers ≡ ok tt) × IsTrailers headers)
unfolding validate_trailers
validate_trailers_lem headers = elim (validate_headers_lem [] [] headers none) [
  | inl e ↦ inl (rw e refl)
  | inr (expected, e, v) ↦ inr (rw e refl, (expected, v))
]

module _ {D E : Type 0} where
  abbrev Same : {A : Type 0} → H3Stream → A → Handling D E → Type 0
  Same s a h = h.stream ≡ s

  on_connection-Same :
      {A : Type 0} (m : Run (H3Connection D E) A) (h : Handling D E)
      → Out (Same h.stream) (Same h.stream) (on_connection m h)
  on_connection-Same {A = A} m h = go (m h.connection)
    where
      go :
          (out : Result A × H3Connection D E)
          → Out (Same h.stream) (Same h.stream) (out.0, record h { connection = out.1 })
      go (raise e, c) = refl
      go (ok a, c) = refl

  -- The stream after its headers are validated.
  abbrev Validated : Headers → H3Stream → Unit {0} → Handling D E → Type 0
  Validated headers s u h =
      ((s.headers_recv_state ≡ initial)
        × ((expected : Option ℕ) × (h.stream ≡ record s { expected_content_length = expected })
            × IsHead headers s.expected_content_length expected))
      ⊎ ((s.headers_recv_state ≡ after_headers) × (h.stream ≡ s) × IsTrailers headers)

  validate_first-Validated :
      (headers : Headers) (h : Handling D E)
      → h.stream.headers_recv_state ≡ initial
      → Out (Unblocked h.stream) (Validated headers h.stream) (validate_first headers h)
  unfolding validate_first
  validate_first-Validated headers h i =
      elim (validated_first h.connection.is_client headers h.stream.expected_content_length) [
        | inl e ↦ rw e (inl refl)
        | inr (expected, e, v) ↦ rw e (inl (i, (expected, refl, v)))
      ]

  validate_any :
      (headers : Headers) (h : Handling D E)
      → is_after_trailers h.stream.headers_recv_state ≡ false
      → Out (Unblocked h.stream) (Validated headers h.stream) (
          (if is_initial h.stream.headers_recv_state
              then validate_first headers
              else lift (validate_trailers headers))
            h)
  validate_any headers h t = go h.stream.headers_recv_state refl t
    where
      go :
          (state : HeadersState)
          → h.stream.headers_recv_state ≡ state
          → is_after_trailers state ≡ false
          → Out (Unblocked h.stream) (Validated headers h.stream) (
              (if is_initial state
                  then validate_first headers
                  else lift (validate_trailers headers))
                h)
      go initial e n = validate_first-Validated headers h e
      go after_headers e n = elim (validate_trailers_lem headers) [
        | inl x ↦ rw x (inl refl)
        | inr (x, v) ↦ rw x (inr (e, refl, v))
      ]
      go after_trailers e n = absurd (ground (arith, n))

  decode-Same :
      (m : Run (H3Connection D E) Headers) (h : Handling D E)
      → Out (Unblocked h.stream) (Same h.stream) (on_connection m h)
  decode-Same m h =
      Out-map (Same h.stream) (Unblocked h.stream) (Same h.stream) (on_connection m h)
        (on_connection-Same m h) (λ e t x. inr x)

  -- The rest of the handler: the end of the message, the new state and the event.
  headers_step :
      (headers : Headers) (ended : Bool) (push_id : Option ℕ) (stream_id : ℕ) (s : H3Stream)
      (g : Handling D E)
      → Validated headers s tt g
      → Out (Unblocked s) (Emits s) (
          (check_at_end ended
              >> (modify_stream
                    (λ s. record s { headers_recv_state = next_headers_state s.headers_recv_state })
                  >> return (headers_received headers push_id stream_id ended ∷ [])))
            g)
  headers_step headers ended push_id stream_id s g v = elim (check_at_end-Matches ended g) [
    | inl c ↦ rw c (inl refl)
    | inr (c, m) ↦
        let w = view (record g.stream {
          headers_recv_state = next_headers_state g.stream.headers_recv_state;
        }) in
        rw c (elim v [
          | inl (i, (expected, e, head)) ↦ (
            (
              w,
              (
                inl (
                  i,
                  ap next_headers_state (ap (λ z. z.headers_recv_state) e ∙ i),
                  subst (IsHead headers s.expected_content_length)
                      (sym (ap (λ (z : H3Stream). z.expected_content_length) e)) head,
                ),
                ap (λ z. z.content_length) e,
                m,
              ),
              refl,
            ),
            ap (λ z. z.frame_type) e,
            ap (λ z. z.frame_size) e,
            ap (λ z. z.blocked) e,
          )
          | inr (i, e, trailers) ↦ (
            (
              w,
              (
                inr (
                  i,
                  ap next_headers_state (ap (λ z. z.headers_recv_state) e ∙ i),
                  ap (λ z. z.expected_content_length) e,
                  trailers,
                ),
                ap (λ z. z.content_length) e,
                m,
              ),
              refl,
            ),
            ap (λ z. z.frame_type) e,
            ap (λ z. z.frame_size) e,
            ap (λ z. z.blocked) e,
          )
        ])
  ]

module _ {D E : Type 0} (q : Qpack D E) where
  pub handle_headers-Emits :
      (frame_data : Option (List ℕ)) (ended : Bool) (h : Handling D E)
      → Out (Unblocked h.stream) (Emits h.stream) (handle_headers q frame_data ended h)
  unfolding handle_headers
  handle_headers-Emits frame_data ended h =
      let s = h.stream in
      Out-test (Unblocked s) (Emits s) (is_after_trailers s.headers_recv_state) frame_unexpected _ h
        (inl refl)
        (λ t.
          Out-then (Unblocked s) (Unblocked s) (Same s) (Emits s)
            (on_connection (decode_headers q s.stream_id frame_data)) _ h
            (decode-Same (decode_headers q s.stream_id frame_data) h) (λ e g x. x)
            (λ headers g e.
              Out-then (Unblocked s) (Unblocked s) (Validated headers s) (Emits s)
                (if is_initial s.headers_recv_state
                  then validate_first headers
                  else lift (validate_trailers headers))
                _ g
                (subst
                  (λ (z : H3Stream). Out (Unblocked z) (Validated headers z) (
                    (if is_initial z.headers_recv_state
                        then validate_first headers
                        else lift (validate_trailers headers))
                      g))
                  e
                  (validate_any headers g (ap (λ z. is_after_trailers z.headers_recv_state) e ∙ t)))
                (λ x f y. y) (λ u f v. headers_step headers ended s.push_id s.stream_id s f v)))

  handle_push_promise-Emits :
      (frame_data : List ℕ) (h : Handling D E)
      → Out (Unblocked h.stream) (Emits h.stream) (handle_push_promise q frame_data h)
  unfolding handle_push_promise
  handle_push_promise-Emits frame_data h =
      let s = h.stream in
      Out-test (Unblocked s) (Emits s) (not h.connection.is_client) frame_unexpected _ h (inl refl)
        (λ t. elim (pull_uint_var-Reads (new frame_data)) [
          | inl e ↦ rw e (inl refl)
          | inr (push_id, b, e) ↦ rw e (
              Out-then (Unblocked s) (Unblocked s) (Same s) (Emits s)
                (on_connection (decode_headers q s.stream_id (some (drop (tell b) frame_data)))) _ h
                (decode-Same (decode_headers q s.stream_id (some (drop (tell b) frame_data))) h)
                (λ e g x. x)
                (λ headers g e. elim (validate_push_promise_headers-Validates headers) [
                  | inl x ↦ rw x (inl refl)
                  | inr (u, x) ↦ rw x (
                    (view s, refl, ap view e),
                    ap (λ z. z.frame_type) e,
                    ap (λ z. z.frame_size) e,
                    ap (λ z. z.blocked) e,
                  )
                ]))
        ])

  -- Every frame of a request or push stream is a step of the message, or none.
  pub frame-Emits :
      (frame_type : ℕ) (frame_data : Option (List ℕ)) (ended : Bool) (h : Handling D E)
      → Out
          (Unblocked h.stream)
          (Emits h.stream)
          (handle_request_or_push_frame q frame_type frame_data ended h)
  unfolding handle_request_or_push_frame
  frame-Emits frame_type frame_data ended h = elim (Bool-cases (frame_type == 0x0)) [
    | inl e ↦ rw e (handle_data-Emits (bytes_of frame_data) ended h)
    | inr e ↦ elim (Bool-cases (frame_type == 0x1)) [
      | inl f ↦ rw (e, f) (handle_headers-Emits frame_data ended h)
      | inr f ↦ elim (Bool-cases ((frame_type == 0x5) && is_none h.stream.push_id)) [
        | inl g ↦ rw (e, f, g) (handle_push_promise-Emits (bytes_of frame_data) h)
        | inr g ↦ elim (Bool-cases (is_refused frame_type)) [
          | inl k ↦ rw (e, f, g, k) (inl refl)
          | inr k ↦ rw (e, f, g, k) (refl, refl, refl, refl)
        ]
      ]
    ]
  ]
