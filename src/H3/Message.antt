-- ===== src/H3/Message.antt =====
-- What HTTP/3 promises of the events of a request or push stream: the order of a message. The
-- children show that _handle_request_or_push_frame and _receive_request_or_push_data of
-- src/aioquic/h3/connection.py keep to it.
pub mod Data
pub mod Handlers
pub mod Views
pub mod Rounds
pub mod Stream
use aioquic.Base.{
  ℕ, ◌+◌, Bool, true, false, not, ◌&&◌, Option, none, some, List, [], ◌∷◌, ◌++◌, ◌≡◌, refl, ap, sym,
  ◌∙◌, ◌≢◌, ◌⊎◌, inl, inr, Bool-cases, arith, ◌==◌, length, eq_some, is_none, if◌then◌else◌,
}
use mathlib.Core.Path.{subst}
use aioquic.Base.Exception.{Exception, Result, ok, raise, stream_blocked}
use aioquic.H3.Headers.Valid.{IsValid}
use aioquic.H3.Name
use aioquic.H3.{
  Headers, H3Event, data_received, headers_received, push_promise_received,
  web_transport_stream_data_received, datagram_received,
}
use aioquic.H3.State.{HeadersState, initial, after_headers, after_trailers, H3Stream, Handling}

-- Where a message is: its headers, the content length that they declared, and the content so far.
pub record View : Type 0 where
  pub state : HeadersState
  pub expected : Option ℕ
  pub length : ℕ

abbrev pub view : H3Stream → View
view s = record {
  state = s.headers_recv_state;
  expected = s.expected_content_length;
  length = s.content_length;
}

-- The content is not what was declared.
abbrev pub mismatch : View → Bool
mismatch v = elim v.expected [ none ↦ false | some n ↦ not (v.length == n) ]

-- At the end of a message its content has the length that was declared.
abbrev pub Matches : Bool → View → Type 0
Matches ended v = (ended ≡ false) ⊎ (mismatch v ≡ false)

-- Headers that are valid as those of a request or of a response, and the content length that they
-- declare, `before` being the one of before.
abbrev pub IsHead : Headers → Option ℕ → Option ℕ → Type 0
IsHead headers before expected =
    IsValid (Name.method ∷ Name.scheme ∷ Name.authority ∷ Name.path ∷ Name.protocol ∷ [])
      (Name.method ∷ Name.authority ∷ []) headers before expected
    ⊎ IsValid (Name.status ∷ []) (Name.status ∷ []) headers before expected

-- Headers that are valid as trailers.
abbrev pub IsTrailers : Headers → Type 0
IsTrailers headers = (expected : Option ℕ) × IsValid [] [] headers none expected

-- The event takes the message from `v` to `w`: headers, then content, then trailers, and nothing
-- after those but an empty end.
abbrev pub Step : View → H3Event → View → Type 0
Step v (headers_received headers push_id stream_id ended) w =
    (((v.state ≡ initial) × (w.state ≡ after_headers) × IsHead headers v.expected w.expected)
      ⊎ ((v.state ≡ after_headers)
          × (w.state ≡ after_trailers)
          × (w.expected ≡ v.expected)
          × IsTrailers headers))
    × (w.length ≡ v.length)
    × Matches ended w
Step v (data_received bytes push_id stream_id ended) w =
    ((v.state ≡ after_headers) ⊎ ((bytes ≡ []) × (ended ≡ true)))
    × (w.state ≡ v.state)
    × (w.expected ≡ v.expected)
    × (w.length ≡ v.length + length bytes)
    × Matches ended w
Step v (push_promise_received headers push_id stream_id) w = w ≡ v
Step v (web_transport_stream_data_received bytes session_id stream_id ended) w = w ≡ v
Step v (datagram_received bytes stream_id) w = w ≡ v

abbrev pub Steps : View → List H3Event → View → Type 0
Steps v [] w = w ≡ v
Steps v (event ∷ events) w = (u : View) × Step v event u × Steps u events w

pub Steps-append :
    (es fs : List H3Event) (u v w : View) → Steps u es v → Steps v fs w → Steps u (es ++ fs) w
Steps-append [] fs u v w h k = subst (λ t. Steps t fs w) h k
Steps-append (e ∷ es) fs u v w (t, s, h) k = (t, s, Steps-append es fs t v w h k)
