-- ===== src/H3/Control/Order.antt =====
-- The order of the frames on a control stream (_handle_control_frame of
-- src/aioquic/h3/connection.py).
use aioquic.Base.{
  ℕ, Bool, true, false, not, ◌&&◌, Option, none, some, List, [], ◌≡◌, refl, sym, ◌≢◌, ◌⊎◌, inl, inr,
  arith, ◌==◌, ◌≤◌,
}
use mathlib.Core.Path.{subst}
use aioquic.Base.Exception.{Exception, Result, ok, raise}
use aioquic.Base.Run.{Out, Out-then, Out-if, Out-test, lift, modify, ◌>>◌, ◌>>=◌}
use aioquic.H3.{frame_unexpected, missing_settings_error}
use aioquic.H3.Settings.{Settings, lookup, parse_settings, parse_max_push_id, validate_settings}
use aioquic.H3.Settings.RoundTrip.{IsParsed}
use aioquic.H3.Settings.Parsing.{parse_settings-outcome}
use aioquic.H3.State.{Qpack, H3Connection, send_local}
use aioquic.H3.Control.{
  apply_settings, receive_settings, receive_max_push_id, is_unexpected, handle_control_frame,
}

equal : (a b : ℕ) → (a == b) ≡ true → a ≡ b
equal a b h = ground arith

differ : (a b : ℕ) → (a == b) ≡ false → a ≢ b
differ a b h e = ground (arith, h, e)

-- A frame that is not of settings was not refused: the settings were received.
received : (a b : Bool) → (not a && not b) ≡ false → a ≡ false → b ≡ true
received true b h e = absurd (ground (arith, e))
received false true h e = refl
received false false h e = absurd (ground (arith, h))

-- A setting that is not there, or is 0 or 1.
abbrev pub IsBoolean : Option ℕ → Type 0
IsBoolean none = Unit
IsBoolean (some value) = value ≤ 1

-- What the settings of ENABLE_CONNECT_PROTOCOL, ENABLE_WEBTRANSPORT and H3_DATAGRAM must be: the
-- third needs datagrams in the transport parameters, and the second needs the third.
pub record IsConsistent (remote_max_datagram_frame_size : Option ℕ) (settings : Settings)
    : Type 0 where
  pub connect_protocol : IsBoolean (lookup 0x8 settings)
  pub webtransport : IsBoolean (lookup 0x2B603742 settings)
  pub datagram : IsBoolean (lookup 0x33 settings)
  pub with_datagrams : (lookup 0x33 settings ≢ some 1) ⊎ (remote_max_datagram_frame_size ≢ none)
  pub with_datagram : (lookup 0x2B603742 settings ≢ some 1) ⊎ (lookup 0x33 settings ≡ some 1)

validate_settings-IsConsistent :
    (size : Option ℕ) (settings : Settings)
    → validate_settings size settings ≡ ok tt
    → IsConsistent size settings
unfolding validate_settings
validate_settings-IsConsistent size settings h = ground (arith, h)

module _ {D E : Type 0} where
  abbrev Any : Exception → H3Connection D E → Type 0
  Any e c = Unit

  -- The first frame holds the settings, and is the only one that does.
  abbrev pub Ordered : ℕ → List ℕ → H3Connection D E → Unit {0} → H3Connection D E → Type 0
  Ordered frame_type frame_data c u d =
      (d.settings_received ≡ true)
      × (((c.settings_received ≡ true)
            × (frame_type ≢ 0x4)
            × (d.received_settings ≡ c.received_settings))
          ⊎ ((c.settings_received ≡ false)
              × (frame_type ≡ 0x4)
              × ((settings : Settings) × (d.received_settings ≡ some settings)
                  × (parse_settings frame_data ≡ ok settings)
                  × IsParsed [] settings
                  × IsConsistent c.quic.remote_max_datagram_frame_size settings)))
      × (((frame_type ≢ 0xD) × (d.max_push_id ≡ c.max_push_id))
          ⊎ ((c.is_client ≡ false)
              × (frame_type ≡ 0xD)
              × ((n : ℕ) × (d.max_push_id ≡ some n) × (parse_max_push_id frame_data ≡ ok n))))

  -- Only the encoder and the calls change.
  abbrev Applied : H3Connection D E → Unit {0} → H3Connection D E → Type 0
  Applied c u d = (d.received_settings ≡ c.received_settings) × (d.max_push_id ≡ c.max_push_id)

  send_local-Applied :
      (stream_id : Option ℕ) (bytes : List ℕ) (c : H3Connection D E)
      → Out Any (Applied c) (send_local stream_id bytes c)
  send_local-Applied none bytes c = tt
  send_local-Applied (some stream_id) bytes c = (refl, refl)

module _ {D E : Type 0} (q : Qpack D E) where
  apply_settings-Applied :
      (settings : Settings) (c : H3Connection D E)
      → Out Any (Applied c) (apply_settings q settings c)
  unfolding apply_settings
  apply_settings-Applied settings c = send_local-Applied c.local_encoder_stream_id _ _

  receive_settings-Ordered :
      (frame_data : List ℕ) (c : H3Connection D E)
      → Out Any (Ordered 0x4 frame_data c) (receive_settings q frame_data c)
  unfolding receive_settings
  receive_settings-Ordered frame_data c =
      Out-test Any (Ordered 0x4 frame_data c) c.settings_received frame_unexpected _ c tt (λ t.
        elim (parse_settings-outcome frame_data).1 [
          | inr (inl e) ↦ rw e tt
          | inr (inr e) ↦ rw e tt
          | inl (settings, e, p) ↦ rw e (
              validated settings e p t
                (validate_settings c.quic.remote_max_datagram_frame_size settings) refl)
        ])
    where
      validated :
          (settings : Settings)
          → parse_settings frame_data ≡ ok settings
          → IsParsed [] settings
          → c.settings_received ≡ false
          → (r : Result (Unit {0}))
          → validate_settings c.quic.remote_max_datagram_frame_size settings ≡ r
          → Out Any (Ordered 0x4 frame_data c) (
              (lift r
                  >> (modify (λ c. record c { received_settings = some settings })
                      >> (apply_settings q settings
                          >> modify (λ c. record c { settings_received = true }))))
                c)
      validated settings f p t (raise e) v = tt
      validated settings f p t (ok u) v =
          let d = record c { received_settings = some settings } in
          Out-then Any Any (Applied d) (Ordered 0x4 frame_data c) (apply_settings q settings) _ d
            (apply_settings-Applied settings d) (λ e g x. tt)
            (λ u g (x, y). (
              refl,
              inr (
                t,
                refl,
                (
                  settings,
                  x,
                  f,
                  p,
                  validate_settings-IsConsistent c.quic.remote_max_datagram_frame_size settings v,
                ),
              ),
              inl ((λ e. ground (arith, e)), y),
            ))

  receive_max_push_id-Ordered :
      (frame_data : List ℕ) (c : H3Connection D E)
      → c.settings_received ≡ true
      → Out Any (Ordered 0xD frame_data c) (receive_max_push_id frame_data c)
  unfolding receive_max_push_id
  receive_max_push_id-Ordered frame_data c r =
      Out-test Any (Ordered 0xD frame_data c) c.is_client frame_unexpected _ c tt
        (λ t. parsed t (parse_max_push_id frame_data) refl)
    where
      parsed :
          c.is_client ≡ false
          → (r : Result ℕ) → parse_max_push_id frame_data ≡ r
          → Out Any
              (Ordered 0xD frame_data c)
              ((lift r >>= λ n. modify (λ c. record c { max_push_id = some n })) c)
      parsed t (raise e) v = tt
      parsed t (ok n) v = (r, inl (r, (λ e. ground (arith, e)), refl), inr (t, refl, (n, refl, v)))

  frame-Ordered :
      (frame_type : ℕ) (frame_data : List ℕ) (c : H3Connection D E)
      → Out Any (Ordered frame_type frame_data c) (handle_control_frame q frame_type frame_data c)
  unfolding handle_control_frame
  frame-Ordered frame_type frame_data c =
      Out-test Any (Ordered frame_type frame_data c)
        (not (frame_type == 0x4) && not c.settings_received) missing_settings_error _ c tt
        (λ t.
          Out-if Any (Ordered frame_type frame_data c) (frame_type == 0x4) _ _ c
            (λ a.
              subst (λ (n : ℕ). Out Any (Ordered n frame_data c) (receive_settings q frame_data c))
                (sym (equal frame_type 0x4 a)) (receive_settings-Ordered frame_data c))
            (λ a.
              Out-if Any (Ordered frame_type frame_data c) (frame_type == 0xD) _ _ c
                (λ b.
                  subst
                    (λ (n : ℕ). Out Any (Ordered n frame_data c) (receive_max_push_id frame_data c))
                    (sym (equal frame_type 0xD b))
                    (receive_max_push_id-Ordered frame_data c (received _ _ t a)))
                (λ b.
                  Out-if Any (Ordered frame_type frame_data c) (is_unexpected frame_type) _ _ c
                    (λ d. tt)
                    (λ d. (
                      received _ _ t a,
                      inl (received _ _ t a, differ frame_type 0x4 a, refl),
                      inl (differ frame_type 0xD b, refl),
                    )))))

  -- A frame that is handled on the control stream is the first one and holds the settings, and these
  -- are the ones that the frame's data are parsed as: none is reserved, none is there twice, those
  -- that are flags are 0 or 1, datagrams are announced only where the transport parameters have them,
  -- and WebTransport only with datagrams; or the settings were received before, it is not a frame of
  -- settings, and they stay as they are. Afterwards they were received; and the limit for push
  -- identifiers changes only at a server, with a MAX_PUSH_ID frame, to the number in its data.
  pub handle_control_frame-Ordered :
      (frame_type : ℕ) (frame_data : List ℕ) (c d : H3Connection D E)
      → handle_control_frame q frame_type frame_data c ≡ (ok tt, d)
      → Ordered frame_type frame_data c tt d
  handle_control_frame-Ordered frame_type frame_data c d e =
      subst
        (λ (out : Result (Unit {0}) × H3Connection D E).
          Out Any (Ordered frame_type frame_data c) out)
        e (frame-Ordered frame_type frame_data c)
