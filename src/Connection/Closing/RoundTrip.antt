-- ===== src/Connection/Closing/RoundTrip.antt =====
-- The peer takes the reason for which a connection is closed from the frame that tells it
-- (src/aioquic/quic/connection.py).
use aioquic.Base.{
  ℕ, ◌+◌, ◌≤◌, ◌<◌, ◌≡◌, ◌⊎◌, refl, sym, ap, ◌∙◌, arith, true, false, Bool-cases, Option, none,
  some, List, [], ◌++◌, append-nil, length, length-append, leb, inl, inr,
}
use mathlib.Core.Path.{subst}
use native.Mathlib.Nat.{add-zero, zero-add}
use aioquic.Base.Exception.{ok, raise, packet_builder_stop, ◌>>=◌}
use aioquic.Buffer.{Buffer, new, put, written, pull_uint_var, pull_bytes, push_uint_var, push_bytes}
use aioquic.Buffer.Codes.{Pushes-then, written-put, push_bytes_lem}
use aioquic.Buffer.Pulls.{Pushes, Pulls, Pulls-then, pull_bytes_lem}
use aioquic.Buffer.Varint.{Fits, uint_var, length-uint_var, push_uint_var_lem, pull_uint_var_lem}
use aioquic.Congestion.{QuicCongestionControl}
use aioquic.Connection.Closing.Frame.{
  Epoch, ConnectionTerminated, convert, decodes, decode_reason, pull_frame_type,
  pull_connection_close, start_frame, capacity_of, push_close, write_connection_close_frame,
  is_allowed,
}
use aioquic.Connection.Closing.State.{Closing, close_begin, handle_connection_close_frame}

abbrev close_type : Option ℕ → ℕ
close_type none = 0x1D
close_type (some frame_type) = 0x1C

abbrev type_bytes : Option ℕ → List ℕ
type_bytes none = []
type_bytes (some frame_type) = uint_var frame_type

abbrev reason_bytes : ConnectionTerminated → List ℕ
reason_bytes event = uint_var (length event.reason_phrase) ++ event.reason_phrase

abbrev body : ConnectionTerminated → List ℕ
body event = uint_var event.error_code ++ (type_bytes event.frame_type ++ reason_bytes event)

abbrev frame : ConnectionTerminated → List ℕ
frame event = uint_var (close_type event.frame_type) ++ body event

abbrev FitsOption : Option ℕ → Type 0
FitsOption none = Unit
FitsOption (some n) = Fits n

-- A reason that can be written, and that is text.
pub record IsEvent (event : ConnectionTerminated) : Type 0 where
  pub code : Fits event.error_code
  pub type : FitsOption event.frame_type
  pub size : Fits (length event.reason_phrase)
  pub text : decodes event.reason_phrase ≡ true

convert-IsEvent :
    (epoch : Epoch) (event : ConnectionTerminated) → IsEvent event → IsEvent (convert epoch event)
unfolding decodes
convert-IsEvent epoch event v = ground (arith, v.code, v.size, v.text)

reason_lem :
    (event : ConnectionTerminated)
    → IsEvent event
    → Pushes
        (λ b.
          push_uint_var b (length event.reason_phrase) >>= λ b'. push_bytes b' event.reason_phrase)
        (reason_bytes event)
reason_lem event v =
    Pushes-then (λ b. push_uint_var b (length event.reason_phrase))
      (λ b. push_bytes b event.reason_phrase) (uint_var (length event.reason_phrase))
      event.reason_phrase (push_uint_var_lem (length event.reason_phrase) v.size)
      (push_bytes_lem event.reason_phrase)

start_frame_lem :
    (space frame_type capacity : ℕ)
    → Fits frame_type
    → capacity ≤ space
    → Pushes (start_frame space frame_type capacity) (uint_var frame_type)
start_frame_lem space frame_type capacity f h =
    let enough : leb capacity space ≡ true = ground arith in
    rw enough (push_uint_var_lem frame_type f)

push_close_lem :
    (space : ℕ) (event : ConnectionTerminated) (type : Option ℕ)
    → event.frame_type ≡ type
    → IsEvent event
    → capacity_of event ≤ space
    → Pushes (push_close space event type) (
        uint_var (close_type type)
        ++ (uint_var event.error_code ++ (type_bytes type ++ reason_bytes event)))
push_close_lem space event none e v h =
    Pushes-then (start_frame space 0x1D (capacity_of event)) _ (uint_var 0x1D)
      (uint_var event.error_code ++ reason_bytes event)
      (start_frame_lem space 0x1D (capacity_of event) (omega arith) h)
      (Pushes-then (λ b. push_uint_var b event.error_code) _ (uint_var event.error_code)
        (reason_bytes event) (push_uint_var_lem event.error_code v.code) (reason_lem event v))
push_close_lem space event (some n) e v h =
    let fits : Fits n = subst FitsOption e v.type in
    Pushes-then (start_frame space 0x1C (capacity_of event)) _ (uint_var 0x1C)
      (uint_var event.error_code ++ (uint_var n ++ reason_bytes event))
      (start_frame_lem space 0x1C (capacity_of event) (omega arith) h)
      (Pushes-then (λ b. push_uint_var b event.error_code) _ (uint_var event.error_code)
        (uint_var n ++ reason_bytes event) (push_uint_var_lem event.error_code v.code)
        (Pushes-then (λ b. push_uint_var b n) _ (uint_var n) (reason_bytes event)
          (push_uint_var_lem n fits) (reason_lem event v)))

pull_type_lem :
    (type : Option ℕ)
    → FitsOption type
    → Pulls (pull_frame_type (close_type type)) (type_bytes type) type
unfolding pull_frame_type
pull_type_lem none f b after i e = rw (add-zero b.pos) refl
pull_type_lem (some n) f b after i e = rw (pull_uint_var_lem n f b after i e) refl

pull_reason_lem :
    (event : ConnectionTerminated)
    → IsEvent event
    → Pulls
        (λ b.
          ◌>>=◌ {B = ConnectionTerminated × Buffer}
            (pull_bytes b (length event.reason_phrase))
            (λ (reason, b'). ok (record event { reason_phrase = decode_reason reason }, b')))
        event.reason_phrase
        event
unfolding decode_reason
pull_reason_lem event v b after i e =
    rw (pull_bytes_lem event.reason_phrase b after i e, v.text) refl

pull_close_lem :
    (event : ConnectionTerminated)
    → IsEvent event
    → Pulls (pull_connection_close (close_type event.frame_type)) (body event) event
unfolding pull_connection_close
pull_close_lem event v =
    Pulls-then pull_uint_var
      (λ code b. do
        (frame_type, b) ← pull_frame_type (close_type event.frame_type) b
        (reason_length, b) ← pull_uint_var b
        (reason, b) ← pull_bytes b reason_length
        ok (
          record {
            error_code = code;
            frame_type = frame_type;
            reason_phrase = decode_reason reason;
          },
          b,
        ))
      (uint_var event.error_code) _ event.error_code event
      (pull_uint_var_lem event.error_code v.code)
      (Pulls-then (pull_frame_type (close_type event.frame_type))
        (λ frame_type b. do
          (reason_length, b) ← pull_uint_var b
          (reason, b) ← pull_bytes b reason_length
          ok (record event { frame_type = frame_type; reason_phrase = decode_reason reason }, b))
        (type_bytes event.frame_type) (reason_bytes event) event.frame_type event
        (pull_type_lem event.frame_type v.type)
        (Pulls-then pull_uint_var
          (λ reason_length b. do
            (reason, b) ← pull_bytes b reason_length
            ok (record event { reason_phrase = decode_reason reason }, b))
          (uint_var (length event.reason_phrase)) event.reason_phrase (length event.reason_phrase)
          event (pull_uint_var_lem (length event.reason_phrase) v.size) (pull_reason_lem event v)))

type_bytes-le :
    (event : ConnectionTerminated) (type : Option ℕ)
    → event.frame_type ≡ type
    → IsEvent event
    → length (uint_var (close_type type))
        + length (type_bytes type)
        + 16
        + length event.reason_phrase
      ≤ capacity_of event
type_bytes-le event none e v = ground (arith, e)
type_bytes-le event (some n) e v =
    let fits : Fits n = subst FitsOption e v.type in ground (arith, e, length-uint_var n fits)

frame-le : (event : ConnectionTerminated) → IsEvent event → length (frame event) ≤ capacity_of event
frame-le event v = omega (
  arith,
  type_bytes-le event event.frame_type refl v,
  length-append (uint_var (close_type event.frame_type)) (body event),
  length-append (uint_var event.error_code) (type_bytes event.frame_type ++ reason_bytes event),
  length-append (type_bytes event.frame_type) (reason_bytes event),
  length-append (uint_var (length event.reason_phrase)) event.reason_phrase,
  length-uint_var event.error_code v.code,
  length-uint_var (length event.reason_phrase) v.size,
)

push_close-stop :
    (space : ℕ) (event : ConnectionTerminated) (type : Option ℕ) (b : Buffer)
    → leb (capacity_of event) space ≡ false
    → push_close space event type b ≡ raise packet_builder_stop
push_close-stop space event none b h = rw h refl
push_close-stop space event (some n) b h = rw h refl

convert_allowed :
    (epoch : Epoch) (event : ConnectionTerminated)
    → is_allowed (close_type (convert epoch event).frame_type) epoch ≡ true
convert_allowed epoch event = ground arith

close_type-Fits : (type : Option ℕ) → Fits (close_type type)
close_type-Fits none = omega arith
close_type-Fits (some n) = omega arith

module _ (alg : QuicCongestionControl) where
  handle_lem :
      (event : ConnectionTerminated) (now : ℕ) (c : Closing alg)
      → IsEvent event
      → c.close_event ≡ none
      → Pulls
          (λ b. handle_connection_close_frame alg (close_type event.frame_type) b now c)
          (body event)
          (close_begin alg false now (record c { close_event = some event }))
  unfolding handle_connection_close_frame
  handle_lem event now c v n b after i e = rw (pull_close_lem event v b after i e, n) refl

  -- The peer, which has no reason yet, reads the frame type and the frame: it drains.
  abbrev pub Reads : List ℕ → ℕ → Closing alg → Closing alg → Type 0
  Reads bytes now c d =
      (pull_uint_var (new bytes) >>= λ (frame_type, b).
      handle_connection_close_frame alg frame_type b now c)
      ≡ ok (d, record { memory = bytes; pos = length bytes })

  reads_lem :
      (event : ConnectionTerminated) (now : ℕ) (c : Closing alg)
      → IsEvent event
      → c.close_event ≡ none
      → Reads
          (frame event)
          now
          c
          (close_begin alg false now (record c { close_event = some event }))
  reads_lem event now c v n =
      let bytes = frame event in
      let type = close_type event.frame_type in
      let d = close_begin alg false now (record c { close_event = some event }) in
      Pulls-then pull_uint_var (λ t b. handle_connection_close_frame alg t b now c) (uint_var type)
        (body event) type d (pull_uint_var_lem type (close_type-Fits event.frame_type))
        (handle_lem event now c v n) (new bytes) [] (omega arith) (sym (append-nil bytes))
      ∙ ap (λ (p : ℕ). ok (d, record { memory = bytes; pos = p })) (zero-add (length bytes))

  abbrev pub Tells : ℕ → Epoch → ConnectionTerminated → Buffer → ℕ → Closing alg → Type 0
  Tells space epoch event b now c =
      ((space < capacity_of (convert epoch event))
        × (write_connection_close_frame space epoch event b ≡ raise packet_builder_stop))
      ⊎ ((frame_type : ℕ) × (bytes : List ℕ) × (b' : Buffer) × (write_connection_close_frame space
              epoch event b
            ≡ ok b')
          × (written b' ≡ written b ++ bytes)
          × (is_allowed frame_type epoch ≡ true)
          × ((rest : List ℕ) × (bytes ≡ uint_var frame_type ++ rest))
          × Reads bytes now c
              (close_begin alg false now (record c { close_event = some (convert epoch event) })))

  -- The frame that closes a connection is written where the packet has room for it, and then its type
  -- is one that the peer takes in the epoch of the packet. A peer that has no reason yet reads it: it
  -- drains from then on, for three probe timeouts, with the same reason; but in the early epochs a
  -- reason of the application is replaced by APPLICATION_ERROR. Without room for the capacity that is
  -- asked for, QuicPacketBuilderStop is raised. The numbers are below 2^62, the reason phrase is
  -- UTF-8, and the buffer holds the room of the packet.
  pub close_frame_lem :
      (space : ℕ) (epoch : Epoch) (event : ConnectionTerminated) (b : Buffer) (now : ℕ)
      (c : Closing alg)
      → IsEvent event
      → b.pos + space ≤ length b.memory
      → c.close_event ≡ none
      → Tells space epoch event b now c
  unfolding write_connection_close_frame
  close_frame_lem space epoch event b now c v room n =
      let e = convert epoch event in
      let w = convert-IsEvent epoch event v in
      elim (Bool-cases (leb (capacity_of e) space)) [
        | inl fits ↦
            let bytes = frame e in
            let enough : capacity_of e ≤ space = ground (arith, fits) in
            let short : b.pos + length bytes ≤ length b.memory =
              omega (arith, frame-le e w, enough) in
            inr (
              close_type e.frame_type,
              bytes,
              put b bytes,
              push_close_lem space e e.frame_type refl w enough b short,
              written-put b bytes short,
              convert_allowed epoch event,
              (body e, refl),
              reads_lem e now c w n,
            )
        | inr none_left ↦
            inl (ground (arith, none_left), push_close-stop space e e.frame_type b none_left)
      ]
