-- ===== src/H3/Headers/Outcomes.antt =====
-- The results of the four validations of src/aioquic/h3/connection.py: a MessageError is all that
-- they raise.
use aioquic.Base.{◌≡◌, refl, ◌⊎◌, inl, inr, List, [], ℕ, Option, none}
use aioquic.Base.Exception.{Result, ok, raise, ◌>>=◌}
use aioquic.H3.{Headers, message_error}
use aioquic.H3.Headers.{
  validate_headers, validate_push_promise_headers, validate_request_headers,
  validate_response_headers, validate_trailers,
}
use aioquic.H3.Headers.Valid.{validate_headers_lem}

abbrev pub Validates {ℓ} : {A : Type ℓ} → Result A → Type ℓ
Validates {A = A} r = (r ≡ raise message_error) ⊎ ((a : A) × (r ≡ ok a))

validates :
    (allowed required : List (List ℕ)) (headers : Headers) (before : Option ℕ)
    → Validates (validate_headers allowed required headers before)
validates allowed required headers before =
    elim (validate_headers_lem allowed required headers before) [
      | inl e ↦ inl e
      | inr (expected, e, v) ↦ inr (expected, e)
    ]

abbrev ValidatesUnit : Result (Unit {0}) → Type 0
ValidatesUnit r = (r ≡ raise message_error) ⊎ ((a : Unit {0}) × (r ≡ ok a))

no_stream : (r : Result (Option ℕ)) → Validates r → ValidatesUnit (r >>= λ expected. ok tt)
no_stream r (inl e) = inl (rw e refl)
no_stream r (inr (a, e)) = inr (tt, rw e refl)

pub validate_request_headers-Validates :
    (headers : Headers) (before : Option ℕ) → Validates (validate_request_headers headers before)
unfolding validate_request_headers
validate_request_headers-Validates headers before = validates _ _ headers before

pub validate_response_headers-Validates :
    (headers : Headers) (before : Option ℕ) → Validates (validate_response_headers headers before)
unfolding validate_response_headers
validate_response_headers-Validates headers before = validates _ _ headers before

pub validate_trailers-Validates : (headers : Headers) → Validates (validate_trailers headers)
unfolding validate_trailers
validate_trailers-Validates headers = no_stream _ (validates [] [] headers none)

pub validate_push_promise_headers-Validates :
    (headers : Headers) → Validates (validate_push_promise_headers headers)
unfolding validate_push_promise_headers
validate_push_promise_headers-Validates headers = no_stream _ (validates _ _ headers none)
