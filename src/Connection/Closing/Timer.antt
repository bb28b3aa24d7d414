-- ===== src/Connection/Closing/Timer.antt =====
-- `get_timer` and `handle_timer` of src/aioquic/quic/connection.py.
use aioquic.Base.{
  ℕ, Bool, true, false, Option, none, some, List, [], ◌∷◌, ltb, leb, is_none, if◌then◌else◌,
}
use aioquic.Base.Exception.{Result, ok, raise, type_error}
use aioquic.Base.Run.{Run, return, lift, get, modify, ◌>>=◌, ◌>>◌}
use aioquic.Congestion.{QuicCongestionControl}
use aioquic.Recovery.Space.{QuicPacketSpace, Report}
use aioquic.Recovery.LossTimer.{loss_space, on_loss_detection_timeout, get_loss_detection_time}
use aioquic.Connection.Closing.Frame.{ConnectionTerminated}
use aioquic.Connection.Closing.State.{Closing, is_end, close_end}

-- `if timer is not None and timer < timer_at: timer_at = timer`
abbrev pub sooner : Option ℕ → Option ℕ → Result (Option ℕ)
sooner none timer_at = ok timer_at
sooner (some time) none = raise type_error
sooner (some time) (some timer_at) = ok (some (if ltb time timer_at then time else timer_at))

-- The first `None` that is compared raises.
abbrev pub ack_timers : List QuicPacketSpace → Option ℕ → Result (Option ℕ)
ack_timers [] timer_at = ok timer_at
ack_timers (space ∷ spaces) timer_at = elim (sooner space.ack_at timer_at) [
  | raise e ↦ raise e
  | ok timer_at ↦ ack_timers spaces timer_at
]

-- `now >= timer`
abbrev pub is_due : ℕ → Option ℕ → Result Bool
is_due now none = raise type_error
is_due now (some time) = ok (leb time now)

-- `timer is not None and now >= timer`
abbrev pub is_over : ℕ → Option ℕ → Bool
is_over now none = false
is_over now (some time) = leb time now

-- INTERNAL_ERROR with PADDING.
abbrev pub idle_event : ConnectionTerminated
idle_event = record {
  error_code = 0x1;
  frame_type = some 0x0;
  reason_phrase = 73 ∷ 100 ∷ 108 ∷ 101 ∷ 32 ∷ 116 ∷ 105 ∷ 109 ∷ 101 ∷ 111 ∷ 117 ∷ 116 ∷ [];
}

abbrev pub or_idle : Option ConnectionTerminated → Option ConnectionTerminated
or_idle none = some idle_event
or_idle (some event) = some event

module _ (algorithm : QuicCongestionControl) where
  abbrev pub set_loss_at : Closing algorithm → Closing algorithm
  set_loss_at c = record c {
    loss_at = get_loss_detection_time algorithm c.loss c.spaces c.peer_completed_address_validation;
  }

  unfoldable pub get_timer : Run (Closing algorithm) (Option ℕ)
  get_timer = do
    c ← get
    if is_end c.state then return c.close_at else (do
      timer_at ← lift (ack_timers c.spaces c.close_at)
      modify set_loss_at
      c ← get
      timer_at ← lift (sooner c.loss_at timer_at)
      lift (sooner c.pacing_at timer_at))

  -- The loss detection timeout; without a loss time it ends with `_send_probe`.
  abbrev pub loss_timeout : ℕ → Closing algorithm → Result (List Report) × Closing algorithm
  loss_timeout now c =
      let (loss, spaces, reports) = on_loss_detection_timeout algorithm c.loss c.spaces now in
      (
        ok reports,
        record c {
          loss = loss;
          spaces = spaces;
          probe_pending = if is_none (loss_space c.spaces 0 none) then true else c.probe_pending;
        },
      )

  -- The calls of delivery handlers are returned.
  unfoldable pub handle_timer : ℕ → Run (Closing algorithm) (List Report)
  handle_timer now = do
    c ← get
    is_closed ← lift (is_due now c.close_at)
    if is_closed
        then (modify (λ c. close_end algorithm (record c { close_event = or_idle c.close_event }))
            >> return [])
        else if is_over now c.loss_at
        then loss_timeout now
        else return []
