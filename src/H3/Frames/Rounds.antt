-- ===== src/H3/Frames/Rounds.antt =====
-- The loop over the frames of a stream ends: there are as many rounds as it can need
-- (_receive_request_or_push_data of src/aioquic/h3/connection.py).
use aioquic.Base.{
  ℕ, zero, suc, ◌+◌, ◌*◌, ◌≤◌, ◌<◌, Bool, true, false, Option, none, some, List, [], ◌≡◌, refl, ap,
  ◌∙◌, ◌⊎◌, inl, inr, Bool-cases, Option-cases, arith, ◌==◌, length,
}
use native.Mathlib.Nat.{zero-add, add-zero, suc-add}
use aioquic.Base.Exception.{Exception, Result, ok, raise}
use aioquic.Base.Run.{Run, continue, Out, Out-then, bind-eq}
use aioquic.Buffer.{Buffer, new, eof}
use aioquic.Buffer.Moves.{Moves, Moves-trans, pull_uint_var-Reads, pull_uint_var-Moves}
use aioquic.H3.{H3Event}
use aioquic.H3.State.{Qpack, H3Stream, Handling}
use aioquic.H3.Frames.{
  Round, breaks, returns, continues, Fetched, incomplete, web_transport, frame, receive_payload,
  set_frame_size, fetch_header, after_fetch, receive_web_transport, receive_round, receive_frames,
  receive_all, on_round, trim,
}
use aioquic.H3.Message.Views.{Any}
use aioquic.H3.Frames.Shorter.{left, size_weight, weight, Shorter, receive_payload-Shorter}

module _ {D E : Type 0} (q : Qpack D E) where
  -- The header of a frame takes two bytes at least, unless the frame was begun before.
  abbrev Fetches : H3Stream → Buffer → Fetched → Handling D E → Type 0
  Fetches s b incomplete g = Unit
  Fetches s b (web_transport after) g = Unit
  Fetches s b (frame c after) g =
      (after ≡ c.pos)
      × (c.pos ≤ length c.memory)
      × (((c ≡ b) × (size_weight s.frame_size ≡ 1)) ⊎ (left c + 2 ≤ left b))

  size-Fetches :
      (s : H3Stream) (frame_type : ℕ) (b c : Buffer) (size : ℕ) (h : Handling D E)
      → Moves 2 b c
      → Out Any (Fetches s b) (set_frame_size frame_type c size h)
  size-Fetches s frame_type b c size h m = elim (Bool-cases (frame_type == 0x41)) [
    | inl e ↦ rw e tt
    | inr e ↦
        let same : length c.memory ≡ length b.memory = ap length m.memory in
        rw e (refl, omega (arith, m.within, same), inr (omega (arith, m.within, m.forward, same)))
  ]

  fetch_header-Fetches :
      (b : Buffer) (h : Handling D E)
      → b.pos ≤ length b.memory
      → Out Any (Fetches h.stream b) (fetch_header b b.pos h)
  unfolding fetch_header
  fetch_header-Fetches b h i = elim (Option-cases h.stream.frame_size) [
    | inr (size, e) ↦ rw e (refl, i, inl (refl, refl))
    | inl e ↦ elim (pull_uint_var-Reads b) [
      | inl f ↦ rw (e, f) tt
      | inr (frame_type, c, f) ↦ elim (pull_uint_var-Reads c) [
        | inl g ↦ rw (e, f, g) tt
        | inr (size, d, g) ↦
            rw (e, f, g)
              (size-Fetches (record h.stream { frame_size = none }) frame_type b d size
                (record h {
                  stream = record h.stream { frame_size = none; frame_type = some frame_type };
                })
                (Moves-trans (pull_uint_var-Moves b c frame_type f)
                  (pull_uint_var-Moves c d size g)))
      ]
    ]
  ]

  Shorter-weaken :
      (limit limit' : ℕ) (out : Result Round × Handling D E)
      → limit ≤ limit'
      → Out Any (Shorter limit) out
      → Out Any (Shorter limit') out
  Shorter-weaken limit limit' (raise e, g) h k = tt
  Shorter-weaken limit limit' (ok (breaks c events), g) h k = tt
  Shorter-weaken limit limit' (ok (returns events), g) h k = tt
  Shorter-weaken limit limit' (ok (continues c n events), g) h (a, i, w) = (a, i, omega arith)

  web_transport-Shorter :
      (limit consumed : ℕ) (ended : Bool) (events : List H3Event) (h : Handling D E)
      → Out Any (Shorter limit) (receive_web_transport consumed ended events h)
  unfolding receive_web_transport
  web_transport-Shorter limit consumed ended events h = tt

  -- A round that goes on leaves fewer rounds.
  receive_round-Shorter :
      (b : Buffer) (ended : Bool) (events : List H3Event) (h : Handling D E)
      → b.pos ≤ length b.memory
      → eof b ≡ false
      → Out Any (Shorter (weight b h.stream)) (receive_round q b b.pos ended events h)
  unfolding receive_round
  receive_round-Shorter b ended events h i m =
      let limit = weight b h.stream in
      Out-then Any Any (Fetches h.stream b) (Shorter limit) (fetch_header b b.pos)
        (after_fetch q b.pos ended events) h (fetch_header-Fetches b h i) (λ e g x. tt)
        (λ f g x. fetched f g x)
    where
      payload :
          (c : Buffer) (size : ℕ) (g : Handling D E)
          → c.pos ≤ length c.memory
          → ((c ≡ b) × (size_weight h.stream.frame_size ≡ 1)) ⊎ (left c + 2 ≤ left b)
          → Out Any (Shorter (weight b h.stream)) (receive_payload q c c.pos size events g)
      payload c size g j (inl (e, w)) =
          Shorter-weaken _ (weight b h.stream) _ (omega (arith, w, ap left e))
            (receive_payload-Shorter q c size 0 events g j (ground (arith, ap left e, i, m)))
      payload c size g j (inr w) =
          Shorter-weaken _ (weight b h.stream) _ (omega (arith, w))
            (receive_payload-Shorter q c size 1 events g j (omega arith))

      fetched :
          (f : Fetched) (g : Handling D E)
          → Fetches h.stream b f g
          → Out Any (Shorter (weight b h.stream)) (after_fetch q b.pos ended events f g)
      fetched incomplete g x = tt
      fetched (web_transport after) g x =
          web_transport-Shorter (weight b h.stream) after ended events g
      fetched (frame c after) g (e, j, x) = elim (Option-cases g.stream.frame_size) [
        | inl n ↦ rw n tt
        | inr (size, n) ↦
            rw (e, n)
              (payload c size (record g { stream = record g.stream { frame_size = some size } }) j
                x)
      ]

  on_round-eq :
      (f g : Buffer → ℕ → List H3Event → Run (Handling D E) (List H3Event)) (limit : ℕ) (r : Round)
      (h : Handling D E)
      → Shorter limit r h
      → ((c : Buffer) (events : List H3Event)
          → c.pos ≤ length c.memory
          → weight c h.stream < limit
          → f c c.pos events h ≡ g c c.pos events h)
      → on_round f r h ≡ on_round g r h
  on_round-eq f g limit (breaks consumed events) h x k = refl
  on_round-eq f g limit (returns events) h x k = refl
  on_round-eq f g limit (continues c consumed events) h (e, i, w) k = rw e (k c events i w)

  receive_frames-rounds :
      (rounds more : ℕ) (b : Buffer) (ended : Bool) (events : List H3Event) (h : Handling D E)
      → b.pos ≤ length b.memory
      → weight b h.stream ≤ rounds
      → receive_frames q (rounds + more) b b.pos ended events h
        ≡ receive_frames q rounds b b.pos ended events h
  unfolding receive_frames
  receive_frames-rounds rounds zero b ended events h i w = rw (add-zero rounds) refl
  receive_frames-rounds zero (suc more) b ended events h i w =
      let done : eof b ≡ true = ground (arith, i, w) in rw (zero-add (suc more), done) refl
  receive_frames-rounds (suc rounds) (suc more) b ended events h i w = elim (Bool-cases (eof b)) [
    | inl e ↦ rw (suc-add rounds (suc more), e) refl
    | inr e ↦
        rw (suc-add rounds (suc more), e)
          (bind-eq Any (Shorter (weight b h.stream)) (receive_round q b b.pos ended events) _ _ h
            (receive_round-Shorter b ended events h i e)
            (λ r g x.
              on_round-eq _ _ (weight b h.stream) r g x (λ c new j v.
                receive_frames-rounds rounds (suc more) c ended new g j (omega arith))))
  ]

  -- The `while` loop without a number of rounds: from a buffer, what was consumed of it and the
  -- events so far, it ends with a result and a state. A loop that goes on for ever has no derivation.
  pub data Ends (ended : Bool)
      : Buffer
        → ℕ
        → List H3Event
        → Handling D E
        → Result (List H3Event) × Handling D E
        → Type 0 where
    at_end :
        {b : Buffer} {consumed : ℕ} {events : List H3Event} {h : Handling D E}
        → eof b ≡ true
        → Ends ended b consumed events h (trim consumed events h)
    raises :
        {b : Buffer} {consumed : ℕ} {events : List H3Event} {h g : Handling D E} {e : Exception}
        → eof b ≡ false
        → receive_round q b consumed ended events h ≡ (raise e, g)
        → Ends ended b consumed events h (raise e, g)
    broken :
        {b : Buffer} {consumed after : ℕ} {events others : List H3Event} {h g : Handling D E}
        → eof b ≡ false
        → receive_round q b consumed ended events h ≡ (ok (breaks after others), g)
        → Ends ended b consumed events h (trim after others g)
    returned :
        {b : Buffer} {consumed : ℕ} {events others : List H3Event} {h g : Handling D E}
        → eof b ≡ false
        → receive_round q b consumed ended events h ≡ (ok (returns others), g)
        → Ends ended b consumed events h (ok others, g)
    continued :
        {b c : Buffer} {consumed after : ℕ} {events others : List H3Event} {h g : Handling D E}
        {out : Result (List H3Event) × Handling D E}
        → eof b ≡ false
        → receive_round q b consumed ended events h ≡ (ok (continues c after others), g)
        → Ends ended c after others g out
        → Ends ended b consumed events h out

  -- A round, and what is left of the loop after it.
  on_round-Ends :
      (next : Buffer → ℕ → List H3Event → Run (Handling D E) (List H3Event)) (limit consumed : ℕ)
      (b : Buffer) (ended : Bool) (events : List H3Event) (h : Handling D E)
      (out : Result Round × Handling D E)
      → eof b ≡ false
      → receive_round q b consumed ended events h ≡ out
      → Out Any (Shorter limit) out
      → ((c : Buffer) (others : List H3Event) (g : Handling D E)
          → c.pos ≤ length c.memory
          → weight c g.stream < limit
          → Ends ended c c.pos others g (next c c.pos others g))
      → Ends ended b consumed events h (continue (on_round next) out)
  on_round-Ends next limit consumed b ended events h (raise x, g) n e y k = raises n e
  on_round-Ends next limit consumed b ended events h (ok (breaks after others), g) n e y k =
      broken n e
  on_round-Ends next limit consumed b ended events h (ok (returns others), g) n e y k = returned n e
  on_round-Ends next limit consumed b ended events h (ok (continues c after others), g) n e
        (at, j, v) k =
      rw at (continued n (e ∙ ap (λ m. (ok (continues c m others), g)) at) (k c others g j v))

  receive_frames-Ends :
      (rounds : ℕ) (b : Buffer) (ended : Bool) (events : List H3Event) (h : Handling D E)
      → b.pos ≤ length b.memory
      → weight b h.stream ≤ rounds
      → Ends ended b b.pos events h (receive_frames q rounds b b.pos ended events h)
  unfolding receive_frames
  receive_frames-Ends zero b ended events h i w = at_end (ground (arith, i, w))
  receive_frames-Ends (suc rounds) b ended events h i w = elim (Bool-cases (eof b)) [
    | inl e ↦ rw e (at_end e)
    | inr e ↦ rw e (
        on_round-Ends _ (weight b h.stream) b.pos b ended events h
          (receive_round q b b.pos ended events h) e refl
          (receive_round-Shorter b ended events h i e)
          (λ c others g j v. receive_frames-Ends rounds c ended others g j (omega arith)))
  ]

  -- The loop over the frames of a stream's buffer ends by itself: `receive_all`, with twice as many
  -- rounds as there are bytes and one, leaves what the loop without a number of rounds ends with;
  -- and with any more rounds the result and the state are the same.
  pub receive_frames-terminates :
      (more : ℕ) (ended : Bool) (h : Handling D E)
      → Ends ended (new h.stream.buffer) 0 [] h (receive_all q ended h)
        × (receive_frames q
              (2 * length h.stream.buffer + 1 + more)
              (new h.stream.buffer)
              0
              ended
              []
              h
            ≡ receive_all q ended h)
  receive_frames-terminates more ended h =
      let enough : weight (new h.stream.buffer) h.stream ≤ 2 * length h.stream.buffer + 1 =
        omega (arith, small h.stream.frame_size) in
      (
        receive_frames-Ends (2 * length h.stream.buffer + 1) (new h.stream.buffer) ended [] h
            (omega arith) enough,
        receive_frames-rounds (2 * length h.stream.buffer + 1) more (new h.stream.buffer) ended [] h
            (omega arith) enough,
      )
    where
      small : (size : Option ℕ) → size_weight size ≤ 1
      small none = omega arith
      small (some n) = omega arith
