-- ===== src/H3/Message/Stream.antt =====
-- The events of a request or push stream are a message in order, whatever pieces the stream's data
-- arrives in (_receive_request_or_push_data of src/aioquic/h3/connection.py).
use aioquic.Base.{
  ℕ, zero, suc, ◌+◌, ◌*◌, Bool, true, false, none, ◌&&◌, ◌||◌, List, [], ◌∷◌, ◌++◌, if◌then◌else◌,
  ◌≡◌, refl, sym, ◌∙◌, inl, inr, Bool-cases, Option-cases, arith, length, eq_some,
}
use mathlib.Core.Path.{subst}
use aioquic.Base.Exception.{Result, ok}
use aioquic.Base.Run.{Run, get, Out, Out-then, Out-if, return, ◌>>=◌}
use aioquic.Buffer.{Buffer, new, eof}
use aioquic.H3.{H3Event}
use aioquic.H3.State.{Qpack, after_headers, H3Stream, Handling}
use aioquic.H3.Request.{handle_headers, is_empty, check_content_length, wrong_length}
use aioquic.H3.Frames.{
  on_round, Round, breaks, returns, continues, receive_round, receive_frames, trim, is_fragment,
  in_session, receive_session_fragment, receive_fragment, receive_fin, receive_request_or_push_data,
}
use aioquic.H3.Connection.{resume_stream}
use aioquic.H3.Message.{View, view, Steps, Steps-append}
use aioquic.H3.Message.Data.{Unblocked, Emits}
use aioquic.H3.Message.Handlers.{handle_headers-Emits}
use aioquic.H3.Message.Rounds.{receive_round-Good}
use aioquic.H3.Message.Views.{and_false, reads_data, same_reads, IsOrdered, Any, Good, GoodRound}

and-left : (a b : Bool) → (a && b) ≡ true → (a && true) ≡ true
and-left true b h = refl
and-left false b h = absurd (ground (arith, h))

fragment-reads : (s : H3Stream) → is_fragment s ≡ true → reads_data s ≡ true
fragment-reads s h = elim (Option-cases s.frame_size) [
  | inl e ↦ absurd (ground (arith, and_false (eq_some s.frame_type 0x0), (rw e at h)))
  | inr (size, e) ↦ rw e (and-left (eq_some s.frame_type 0x0) _ (rw e at h))
]

ordered :
    (s : H3Stream)
    → reads_data s ≡ true
    → IsOrdered s
    → (s.headers_recv_state ≡ after_headers) × (s.blocked ≡ false)
ordered s h (inl e) = absurd (ground (arith, sym h ∙ e))
ordered s h (inr e) = e

blocked-reads : (s : H3Stream) → s.blocked ≡ true → IsOrdered s → reads_data s ≡ false
blocked-reads s h (inl e) = e
blocked-reads s h (inr (a, b)) = absurd (ground (arith, h, b))

pub data Piece : Type 0 where
  arrives : List ℕ → Bool → Piece
  resumes : Piece

module _ {D E : Type 0} (q : Qpack D E) where
  trim-Good :
      (u : View) (consumed : ℕ) (events : List H3Event) (h : Handling D E)
      → Good u events h
      → Out Any (Good u) (trim consumed events h)
  unfolding trim
  trim-Good u consumed events h k = k

  on_round-Good :
      (next : Buffer → ℕ → List H3Event → Run (Handling D E) (List H3Event)) (u : View) (r : Round)
      (g : Handling D E)
      → GoodRound u r g
      → ((b : Buffer) (consumed : ℕ) (events : List H3Event) (h : Handling D E)
          → h.stream.blocked ≡ false
          → Good u events h
          → Out Any (Good u) (next b consumed events h))
      → Out Any (Good u) (on_round next r g)
  on_round-Good next u (breaks consumed events) g k ih = trim-Good u consumed events g k
  on_round-Good next u (returns events) g k ih = k
  on_round-Good next u (continues b consumed events) g (k, n) ih = ih b consumed events g n k

  receive_frames-Good :
      (u : View) (rounds : ℕ) (b : Buffer) (consumed : ℕ) (ended : Bool) (events : List H3Event)
      (h : Handling D E)
      → h.stream.blocked ≡ false
      → Good u events h
      → Out Any (Good u) (receive_frames q rounds b consumed ended events h)
  unfolding receive_frames
  receive_frames-Good u zero b consumed ended events h n k = trim-Good u consumed events h k
  receive_frames-Good u (suc rounds) b consumed ended events h n k = elim (Bool-cases (eof b)) [
    | inl e ↦ rw e (trim-Good u consumed events h k)
    | inr e ↦ rw e (
        Out-then Any Any (GoodRound u) (Good u) (receive_round q b consumed ended events) _ h
          (receive_round-Good q u b consumed ended events h n k.0) (λ x g y. tt)
          (λ r g x.
            on_round-Good _ u r g x
              (λ c m new g z y. receive_frames-Good u rounds c m ended new g z y)))
  ]

  -- What is said of the fragment's event.
  receive_fragment-Good :
      (h : Handling D E)
      → is_fragment h.stream ≡ true
      → IsOrdered h.stream
      → Out Any (Good (view h.stream)) (receive_fragment h)
  unfolding receive_fragment
  receive_fragment-Good h f o =
      let a = ordered h.stream (fragment-reads h.stream f) o in
      let w =
        view
          (record h.stream { content_length = h.stream.content_length + length h.stream.buffer }) in
      ((w, (inl a.0, refl, refl, refl, inl refl), refl), inr a)

  receive_fin-Good :
      (h : Handling D E) → IsOrdered h.stream → Out Any (Good (view h.stream)) (receive_fin h)
  unfolding receive_fin check_content_length
  receive_fin-Good h o = elim (Bool-cases (wrong_length h.stream)) [
    | inl e ↦ rw e tt
    | inr e ↦ rw e ((view h.stream, (inr (refl, refl), refl, refl, omega arith, inr e), refl), o)
  ]

  receive_session_fragment-Good :
      (ended : Bool) (h : Handling D E)
      → IsOrdered h.stream
      → Out Any (Good (view h.stream)) (receive_session_fragment ended h)
  unfolding receive_session_fragment
  receive_session_fragment-Good ended h o = elim (Option-cases h.stream.session_id) [
    | inl e ↦ rw e (refl, o)
    | inr (session_id, e) ↦ rw e ((view h.stream, refl, refl), o)
  ]

  -- The events are steps of the message, and a DATA frame is still only read after headers.
  receive_request_or_push_data-Good :
      (bytes : List ℕ) (ended : Bool) (h : Handling D E)
      → IsOrdered h.stream
      → Out Any (Good (view h.stream)) (receive_request_or_push_data q bytes ended h)
  unfolding receive_request_or_push_data
  receive_request_or_push_data-Good bytes ended h o =
      let g = record h {
        stream = record h.stream {
          buffer = h.stream.buffer ++ bytes;
          receiving_ended = ended || h.stream.receiving_ended;
        };
      } in
      let v = view h.stream in
      Out-if Any (Good v) g.stream.blocked _ _ g (λ a. (refl, o))
        (λ a.
          Out-if Any (Good v) (in_session g.stream) _ _ g
            (λ b. receive_session_fragment-Good ended g o)
            (λ b.
              Out-if Any (Good v) (is_fragment g.stream) _ _ g (λ c. receive_fragment-Good g c o)
                (λ c.
                  Out-if Any (Good v) (ended && is_empty g.stream.buffer) _ _ g
                    (λ d. receive_fin-Good g o)
                    (λ d.
                      receive_frames-Good v (2 * length g.stream.buffer + 1) (new g.stream.buffer) 0
                        ended [] g a (refl, o)))))

  -- The rest of a stream that was blocked: its headers, and the frames after them.
  resume_stream-Good :
      (h : Handling D E)
      → h.stream.blocked ≡ true
      → IsOrdered h.stream
      → Out Any (Good (view h.stream)) (resume_stream q h)
  unfolding resume_stream
  resume_stream-Good h b o =
      let v = view h.stream in
      Out-then (Unblocked h.stream) Any (Emits h.stream) (Good v)
        (handle_headers q none (h.stream.receiving_ended && is_empty h.stream.buffer)) _ h
        (handle_headers-Emits q none (h.stream.receiving_ended && is_empty h.stream.buffer) h)
        (λ e g x. tt)
        (λ events g (k, t, z, _).
          let f = record g {
            stream = record g.stream { blocked = false; blocked_frame_size = none };
          } in
          let d : reads_data f.stream ≡ false =
            same_reads h.stream g.stream t z ∙ blocked-reads h.stream b o in
          Out-then Any Any (Good (view f.stream)) (Good v)
            (if is_empty f.stream.buffer
              then return []
              else receive_request_or_push_data q [] f.stream.receiving_ended)
            (λ more. return (events ++ more)) f
            (Out-if Any (Good (view f.stream)) (is_empty f.stream.buffer) _ _ f (λ _. (refl, inl d))
              (λ _. receive_request_or_push_data-Good [] f.stream.receiving_ended f (inl d)))
            (λ e x y. tt)
            (λ more x (l, p). (Steps-append events more v (view f.stream) (view x.stream) k l, p)))

  -- What happens to a request or push stream: a piece of its data arrives, with whether the stream
  -- ends with it, or it is resumed if it is blocked.
  unfoldable pub receive_piece : Piece → Run (Handling D E) (List H3Event)
  receive_piece (arrives bytes ended) = receive_request_or_push_data q bytes ended
  receive_piece resumes = do h ← get; if h.stream.blocked then resume_stream q else return []

  unfoldable pub receive_pieces : List Piece → Run (Handling D E) (List H3Event)
  receive_pieces [] = return []
  receive_pieces (piece ∷ pieces) = do
    events ← receive_piece piece
    more ← receive_pieces pieces
    return (events ++ more)

  receive_piece-Good :
      (piece : Piece) (h : Handling D E)
      → IsOrdered h.stream
      → Out Any (Good (view h.stream)) (receive_piece piece h)
  unfolding receive_piece
  receive_piece-Good (arrives bytes ended) h o = receive_request_or_push_data-Good bytes ended h o
  receive_piece-Good resumes h o =
      Out-if Any (Good (view h.stream)) h.stream.blocked _ _ h (λ b. resume_stream-Good h b o)
        (λ b. (refl, o))

  receive_pieces-Good :
      (pieces : List Piece) (h : Handling D E)
      → IsOrdered h.stream
      → Out Any (Good (view h.stream)) (receive_pieces pieces h)
  unfolding receive_pieces
  receive_pieces-Good [] h o = (refl, o)
  receive_pieces-Good (piece ∷ pieces) h o =
      let v = view h.stream in
      Out-then Any Any (Good v) (Good v) (receive_piece piece) _ h (receive_piece-Good piece h o)
        (λ e g x. tt)
        (λ events g (k, o').
          Out-then Any Any (Good (view g.stream)) (Good v) (receive_pieces pieces) _ g
            (receive_pieces-Good pieces g o') (λ e f x. tt)
            (λ more f (l, p). (Steps-append events more v (view g.stream) (view f.stream) k l, p)))

  -- In whatever pieces the data of a request or push stream arrives, and whenever it is resumed after
  -- it was blocked: when no exception is raised, the events are a message in order, from where the
  -- message was to where it is then, if the stream only reads a DATA frame after headers and while it
  -- is not blocked, as a new stream does; and that still holds afterwards. Data is only reported
  -- after headers and before trailers, headers only at the start and once more as trailers, and an
  -- empty piece that ends the message may come at any point. The first headers are valid as those of
  -- a request or of a response, and the length that is expected then is the one that they declare;
  -- the others are valid as trailers. An event that ends the message is only there when the content
  -- has the expected length, and the content length that the stream keeps is that of the data in the
  -- events.
  pub receive_pieces-Steps :
      (pieces : List Piece) (events : List H3Event) (h g : Handling D E)
      → IsOrdered h.stream
      → receive_pieces pieces h ≡ (ok events, g)
      → Steps (view h.stream) events (view g.stream) × IsOrdered g.stream
  receive_pieces-Steps pieces events h g o e =
      subst (λ (out : Result (List H3Event) × Handling D E). Out Any (Good (view h.stream)) out) e
        (receive_pieces-Good pieces h o)
