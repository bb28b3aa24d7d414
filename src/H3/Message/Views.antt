-- ===== src/H3/Message/Views.antt =====
-- What a round leaves of the part of a stream that the order of its events depends on
-- (src/aioquic/h3/connection.py).
use aioquic.Base.{
  ℕ, ◌+◌, Bool, true, false, not, ◌&&◌, List, ◌≡◌, refl, ap, sym, ◌∙◌, ◌⊎◌, inl, inr, Bool-cases,
  arith, length, eq_some, is_none,
}
use mathlib.Core.Path.{subst}
use aioquic.Base.Exception.{Exception, Result, ok, raise, stream_blocked}
use aioquic.Base.Run.{Out, Out-test}
use aioquic.Buffer.{Buffer}
use aioquic.H3.{H3Event, frame_unexpected}
use aioquic.H3.State.{is_after_headers, after_headers, H3Stream, Handling}
use aioquic.H3.Request.{handle_data}
use aioquic.H3.Frames.{Round, breaks, returns, continues, catch_blocked}
use aioquic.H3.Message.{View, view, Steps, Steps-append}
use aioquic.H3.Message.Data.{is_blocked, Unblocked, Emits, check_at_end-Matches, after_headers-inv}

-- A DATA frame is being read.
abbrev pub reads_data : H3Stream → Bool
reads_data s = eq_some s.frame_type 0x0 && not (is_none s.frame_size)

-- A DATA frame is only read after headers, and by a stream that is not blocked.
abbrev pub IsOrdered : H3Stream → Type 0
IsOrdered s =
    (reads_data s ≡ false) ⊎ ((s.headers_recv_state ≡ after_headers) × (s.blocked ≡ false))

pub same_reads :
    (s t : H3Stream)
    → t.frame_type ≡ s.frame_type
    → t.frame_size ≡ s.frame_size
    → reads_data t ≡ reads_data s
same_reads s t e f = rw (e, f) refl

pub and_false : (b : Bool) → (b && false) ≡ false
and_false true = refl
and_false false = refl

pub not_data :
    (s : H3Stream) (b : Bool) → (not (eq_some s.frame_type 0x0) && b) ≡ true → reads_data s ≡ false
not_data s b h = elim (Bool-cases (eq_some s.frame_type 0x0)) [
  | inl e ↦ absurd (ground (arith, h, e))
  | inr e ↦ rw e refl
]

module _ {D E : Type 0} where
  abbrev pub Any : Exception → Handling D E → Type 0
  Any e h = Unit

  -- The events are the steps of the message since `u`.
  abbrev pub Good : View → List H3Event → Handling D E → Type 0
  Good u events h = Steps u events (view h.stream) × IsOrdered h.stream

  -- The loop only goes on while the stream is not blocked.
  abbrev pub GoodRound : View → Round → Handling D E → Type 0
  GoodRound u (breaks consumed events) h = Good u events h
  GoodRound u (returns events) h = Good u events h
  GoodRound u (continues b consumed events) h = Good u events h × (h.stream.blocked ≡ false)

  -- DATA is only accepted after headers, and is never blocked.
  abbrev Data : Exception → Handling D E → Type 0
  Data e h = is_blocked e ≡ false

  abbrev After : List H3Event → Handling D E → Type 0
  After events h = (h.stream.headers_recv_state ≡ after_headers) × (h.stream.blocked ≡ false)

  pub handle_data-After :
      (bytes : List ℕ) (ended : Bool) (h : Handling D E)
      → h.stream.blocked ≡ false
      → Out Data After (handle_data bytes ended h)
  unfolding handle_data
  handle_data-After bytes ended h open_still =
      Out-test Data After (not (is_after_headers h.stream.headers_recv_state)) frame_unexpected _ h
        refl
        (λ t.
          elim (check_at_end-Matches ended (record h {
            stream = record h.stream { content_length = h.stream.content_length + length bytes };
          })) [
            | inl c ↦ rw c refl
            | inr (c, m) ↦ rw c (after_headers-inv h.stream.headers_recv_state t, open_still)
          ])

  pub blocked-cases :
      (size : ℕ) (b : Buffer) (consumed : ℕ) (events : List H3Event) (e : Exception)
      (g : Handling D E)
      → (e ≡ stream_blocked)
        ⊎ ((is_blocked e ≡ false)
            × (catch_blocked size b consumed events (raise e, g) ≡ (raise e, g)))
  blocked-cases size b consumed events e g =
      elim e
        as (λ e.
          (e ≡ stream_blocked)
          ⊎ ((is_blocked e ≡ false)
              × (catch_blocked size b consumed events (raise e, g) ≡ (raise e, g)))) [
                | stream_blocked ↦ inl refl
                | _ ↦ inr (refl, refl)
              ]

  -- What the frame that was read leaves: a stream that reads data only of a DATA frame.
  abbrev pub Handled : H3Stream → Exception → Handling D E → Type 0
  Handled s e h = (is_blocked e ≡ false) ⊎ ((h.stream ≡ s) × (reads_data s ≡ false))

  -- What is known of a handler's frame, with the stream `s` that it was given.
  abbrev pub Leaves : H3Stream → List H3Event → Handling D E → Type 0
  Leaves s events g =
      Steps (view s) events (view g.stream) × IsOrdered g.stream × (g.stream.blocked ≡ s.blocked)

  pub catch_blocked-Good :
      (u : View) (size : ℕ) (b : Buffer) (consumed : ℕ) (events : List H3Event) (s : H3Stream)
      (out : Result (List H3Event) × Handling D E)
      → s.blocked ≡ false
      → Steps u events (view s)
      → Out (Handled s) (Leaves s) out
      → Out Any (GoodRound u) (catch_blocked size b consumed events out)
  catch_blocked-Good u size b consumed events s (ok others, g) n h (k, o, same) =
      ((Steps-append events others u (view s) (view g.stream) h k, o), same ∙ n)
  catch_blocked-Good u size b consumed events s (raise e, g) n h k =
      elim (blocked-cases size b consumed events e g) [
        | inl i ↦ rw i (elim k [
          | inl x ↦ absurd (ground (arith, ap is_blocked (sym i) ∙ x))
          | inr (same, r) ↦ (
            subst (λ (z : H3Stream). Steps u events (view z)) (sym same) h,
            inl (ap reads_data same ∙ r),
          )
        ])
        | inr (i, c) ↦ rw c tt
      ]

  -- Two properties of what a call does.
  both :
      (R R' : Exception → Handling D E → Type 0) (P Q : List H3Event → Handling D E → Type 0)
      (out : Result (List H3Event) × Handling D E)
      → Out R P out
      → Out R' Q out
      → Out (λ e g. R e g × R' e g) (λ a g. P a g × Q a g) out
  both R R' P Q (raise e, g) h k = (h, k)
  both R R' P Q (ok a, g) h k = (h, k)

  pub frame_of_others :
      (s : H3Stream) (out : Result (List H3Event) × Handling D E)
      → reads_data s ≡ false
      → Out (Unblocked s) (Emits s) out
      → Out (Handled s) (Leaves s) out
  frame_of_others s (raise e, g) r (inl x) = inl x
  frame_of_others s (raise e, g) r (inr x) = inr (x, r)
  frame_of_others s (ok a, g) r (k, e, f, b) = (k, inl (same_reads s g.stream e f ∙ r), b)

  pub frame_of_Data :
      (s : H3Stream) (out : Result (List H3Event) × Handling D E)
      → Out (Unblocked s) (Emits s) out
      → Out Data After out
      → Out (Handled s) (Leaves s) out
  frame_of_Data s (raise e, g) h k = inl k
  frame_of_Data s (ok a, g) (h, e, f, b) k = (h, inr k, b)
