-- ===== src/H3/Errors.antt =====
-- What becomes of the exceptions in handle_event of src/aioquic/h3/connection.py.
use aioquic.Base.{
  ℕ, Bool, true, false, List, [], ◌∷◌, ◌++◌, ◌≡◌, refl, sym, ap, ◌∙◌, ◌≢◌, ◌⊎◌, inl, inr, arith,
}
use aioquic.Base.Exception.{Exception, Result, ok, raise, protocol_error}
use mathlib.Core.Path.{subst}
use aioquic.H3.{H3Event}
use aioquic.H3.State.{Qpack, closes, H3Connection}
use aioquic.H3.Connection.{QuicEvent, dispatch, catch_protocol_error, handle_event}

abbrev is_protocol_error : Exception → Bool
is_protocol_error e = elim e [ protocol_error code ↦ true | _ ↦ false ]

module _ {D E : Type 0} where
  -- Closed with the code, after what the handler did.
  abbrev pub closed : H3Connection D E → ℕ → H3Connection D E
  closed c code = record c {
    is_done = true;
    quic = record c.quic { calls = c.quic.calls ++ (closes code ∷ []) };
  }

  -- What is made of an exception.
  abbrev Caught : Exception → H3Connection D E → Result (List H3Event) × H3Connection D E → Type 0
  Caught e c out =
      ((code : ℕ) × (e ≡ protocol_error code) × (out ≡ (ok [], closed c code)))
      ⊎ (((code : ℕ) → e ≢ protocol_error code) × (out ≡ (raise e, c)))

  caught : (e : Exception) (c : H3Connection D E) → Caught e c (catch_protocol_error (raise e, c))
  caught e c = elim e as (λ e. Caught e c (catch_protocol_error (raise e, c))) [
    | protocol_error code ↦ inl (code, refl, refl)
    | _ ↦ inr (λ code h. other (ap is_protocol_error h), refl)
  ]
    where
      other : false ≢ true
      other h = ground (arith, h)

  -- The result of a handler, when its ProtocolErrors are caught.
  caught_result :
      (out : Result (List H3Event) × H3Connection D E)
      → ((code : ℕ) × (out.0 ≡ raise (protocol_error code))
          × (catch_protocol_error out ≡ (ok [], closed out.1 code)))
        ⊎ (((code : ℕ) → out.0 ≢ raise (protocol_error code)) × (catch_protocol_error out ≡ out))
  caught_result (ok events, c) = inr (λ code h. ground (arith, h), refl)
  caught_result (raise e, c) = elim (caught e c) [
    | inl (code, h, k) ↦ inl (code, ap (λ x. raise x) h, k)
    | inr (h, k) ↦ inr (λ code l. h code (ground (arith, l)), k)
  ]

module _ {D E : Type 0} (q : Qpack D E) where
  -- A ProtocolError never leaves handle_event: where the handler of an event raises one, there are
  -- no events, the connection is closed with its code after the calls that the handler made, and
  -- every later event is ignored and changes nothing. Another exception, and what the handler
  -- returns, is passed on.
  pub handle_event-errors :
      (event : QuicEvent) (c : H3Connection D E)
      → c.is_done ≡ false
      → ((code : ℕ) × ((dispatch q event c).0 ≡ raise (protocol_error code))
          × (handle_event q event c ≡ (ok [], closed (dispatch q event c).1 code))
          × ((later : QuicEvent)
              → handle_event q later (handle_event q event c).1
                ≡ (ok [], (handle_event q event c).1)))
        ⊎ (((code : ℕ) → (handle_event q event c).0 ≢ raise (protocol_error code))
            × (handle_event q event c ≡ dispatch q event c))
  unfolding handle_event
  handle_event-errors event c h =
      let passed : handle_event q event c ≡ catch_protocol_error (dispatch q event c) = rw h refl in
      elim (caught_result (dispatch q event c)) [
        | inl (code, e, k) ↦ inl (
          code,
          e,
          passed ∙ k,
          λ later.
              subst
                (λ (out : Result (List H3Event) × H3Connection D E).
                  handle_event q later out.1 ≡ (ok [], out.1))
                (sym (passed ∙ k)) refl,
        )
        | inr (e, k) ↦ inr (
          subst
              (λ (out : Result (List H3Event) × H3Connection D E).
                (code : ℕ) → out.0 ≢ raise (protocol_error code))
              (sym (passed ∙ k)) e,
          passed ∙ k,
        )
      ]
