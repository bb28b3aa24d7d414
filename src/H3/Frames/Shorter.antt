-- ===== src/H3/Frames/Shorter.antt =====
-- The payload of a frame leaves fewer rounds of the loop over the frames of a stream
-- (_receive_request_or_push_data of src/aioquic/h3/connection.py).
use aioquic.Base.{
  ℕ, zero, suc, ◌+◌, ◌-◌, ◌*◌, ◌≤◌, ◌<◌, min, Bool, not, ◌&&◌, Option, none, some, List, ◌≡◌, refl,
  ap, sym, inl, inr, Bool-cases, arith, ltb, leb, length, eq_some,
}
use mathlib.Core.Path.{subst}
use aioquic.Base.Exception.{Result, ok, raise}
use aioquic.Base.Run.{Out, Out-if}
use aioquic.Buffer.{Buffer, tell, capacity}
use aioquic.Buffer.Moves.{pull_bytes-Reads, pull_bytes-Moves}
use aioquic.H3.{H3Event}
use aioquic.H3.State.{Qpack, H3Stream, Handling}
use aioquic.H3.Frames.{
  Round, breaks, returns, continues, less, catch_blocked, handle_frame_of, receive_payload,
}
use aioquic.H3.Message.Handlers.{frame-Emits}
use aioquic.H3.Message.Data.{Emits, Unblocked}
use aioquic.H3.Message.Views.{Any, blocked-cases}

-- What is left of the buffer.
abbrev pub left : Buffer → ℕ
left b = length b.memory - b.pos

abbrev pub size_weight : Option ℕ → ℕ
size_weight none = 0
size_weight (some size) = 1

-- A bound for the rounds that are left.
abbrev pub weight : Buffer → H3Stream → ℕ
weight b s = 2 * left b + size_weight s.frame_size

less-weight :
    (s : H3Stream) (size chunk_size : ℕ)
    → (size ≤ chunk_size → size_weight (less s size chunk_size).frame_size ≡ 0)
      × (size_weight (less s size chunk_size).frame_size ≤ 1)
less-weight s zero chunk_size = (λ h. refl, omega arith)
less-weight s (suc n) chunk_size = elim (Bool-cases (leb (suc n) chunk_size)) [
  | inl e ↦ rw e (λ h. refl, omega arith)
  | inr e ↦ rw e (λ h. absurd (ground (arith, e, h)), omega arith)
]

module _ {D E : Type 0} where
  -- After a round that goes on, what was consumed is what was read, and the bound is smaller.
  abbrev pub Shorter : ℕ → Round → Handling D E → Type 0
  Shorter limit (breaks consumed events) h = Unit
  Shorter limit (returns events) h = Unit
  Shorter limit (continues b consumed events) h =
      (consumed ≡ b.pos) × (b.pos ≤ length b.memory) × (weight b h.stream < limit)

  abbrev KeepsSize : H3Stream → List H3Event → Handling D E → Type 0
  KeepsSize s events h = h.stream.frame_size ≡ s.frame_size

  catch_blocked-Shorter :
      (limit size : ℕ) (c : Buffer) (events : List H3Event) (s : H3Stream)
      (out : Result (List H3Event) × Handling D E)
      → c.pos ≤ length c.memory
      → weight c s < limit
      → Out Any (KeepsSize s) out
      → Out Any (Shorter limit) (catch_blocked size c (tell c) events out)
  catch_blocked-Shorter limit size c events s (ok others, g) i w k =
      (refl, i, subst (λ z. 2 * left c + size_weight z < limit) (sym k) w)
  catch_blocked-Shorter limit size c events s (raise e, g) i w k =
      elim (blocked-cases size c (tell c) events e g) [ inl x ↦ rw x tt | inr (x, y) ↦ rw y tt ]

  keeps-size :
      (s : H3Stream) (out : Result (List H3Event) × Handling D E)
      → Out (Unblocked s) (Emits s) out
      → Out Any (KeepsSize s) out
  keeps-size s (raise e, g) h = tt
  keeps-size s (ok a, g) (h, e, f, b) = f

module _ {D E : Type 0} (q : Qpack D E) where
  frame_of-KeepsSize :
      (frame_type : Option ℕ) (bytes : List ℕ) (ended : Bool) (h : Handling D E)
      → Out Any (KeepsSize h.stream) (handle_frame_of q frame_type bytes ended h)
  frame_of-KeepsSize none bytes ended h = refl
  frame_of-KeepsSize (some frame_type) bytes ended h =
      keeps-size h.stream _ (frame-Emits q frame_type (some bytes) ended h)

  pub receive_payload-Shorter :
      (b : Buffer) (size extra : ℕ) (events : List H3Event) (h : Handling D E)
      → b.pos ≤ length b.memory
      → 0 < left b + extra
      → Out Any (Shorter (2 * left b + 1 + extra)) (receive_payload q b b.pos size events h)
  unfolding receive_payload
  receive_payload-Shorter b size extra events h i more =
      let chunk_size = min size (capacity b - b.pos) in
      let s = less h.stream size chunk_size in
      Out-if Any (Shorter (2 * left b + 1 + extra))
        (not (eq_some h.stream.frame_type 0x0) && ltb chunk_size size) _ _ h (λ e. tt)
        (λ e. elim (pull_bytes-Reads b chunk_size) [
          | inl f ↦ rw f tt
          | inr (bytes, c, f) ↦
              let (m, n) = pull_bytes-Moves b c chunk_size bytes f in
              let same : length c.memory ≡ length b.memory = ap length m.memory in
              let (none_left, some_left) = less-weight h.stream size chunk_size in
              rw f (
                catch_blocked-Shorter (2 * left b + 1 + extra) (length bytes) c events s _
                  (omega (arith, m.within, same))
                  (elim (Bool-cases (leb size chunk_size)) [
                    | inl d ↦
                        omega (arith, m.forward, m.within, same, none_left (ground (arith, d)))
                    | inr d ↦
                        let all : chunk_size ≡ left b = ground (arith, d) in
                        omega (arith, m.forward, m.within, same, some_left, all, more, i)
                  ])
                  (frame_of-KeepsSize h.stream.frame_type bytes _ (record h { stream = s })))
        ])
