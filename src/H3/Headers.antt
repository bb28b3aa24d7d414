-- ===== src/H3/Headers.antt =====
-- The validation of headers in src/aioquic/h3/connection.py (validate_header_name to
-- validate_trailers). What the loop over the headers keeps is a record, and the stream's
-- expected_content_length is one of its fields.
pub mod Fields
pub mod Lines
pub mod Single
pub mod Splits
pub mod Valid
pub mod Outcomes
use aioquic.Base.{
  ℕ, zero, suc, Bool, true, false, not, ◌&&◌, ◌||◌, Option, none, some, List, [], ◌∷◌, ◌++◌, ltb,
  leb, ◌==◌, if◌then◌else◌,
}
use aioquic.Base.Exception.{Result, ok, raise, ◌>>=◌, ◌>>◌, ensure}
use aioquic.Base.Bytes.{eq_bytes, elem, int}
use aioquic.H3.{Headers, message_error}
use aioquic.H3.Name

-- The loop of `validate_header_name`; `i` is the index of the first character.
unfoldable pub validate_name_from : ℕ → List ℕ → Result (Unit {0})
validate_name_from i [] = ok tt
validate_name_from i (c ∷ key) = do
  ensure (not (leb c 0x20 || ((leb 0x41 c && leb c 0x5A) || leb 0x7F c))) message_error
  ensure (not ((c == 0x3A) && ltb 0 i)) message_error
  validate_name_from (suc i) key

unfoldable pub validate_header_name : List ℕ → Result (Unit {0})
validate_header_name key = validate_name_from 0 key

unfoldable pub no_forbidden : List ℕ → Result (Unit {0})
no_forbidden [] = ok tt
no_forbidden (c ∷ value) = do
  ensure (not ((c == 0) || ((c == 0x0A) || (c == 0x0D)))) message_error
  no_forbidden value

abbrev pub is_whitespace : ℕ → Bool
is_whitespace c = (c == 0x20) || (c == 0x09)

-- `value[-1]` of a value that starts with `c`.
abbrev pub last_of : ℕ → List ℕ → ℕ
last_of c [] = c
last_of c (d ∷ value) = last_of d value

-- A value of one character has no last character that is looked at.
unfoldable pub validate_ends : List ℕ → Result (Unit {0})
validate_ends [] = ok tt
validate_ends (c ∷ []) = ensure (not (is_whitespace c)) message_error
validate_ends (c ∷ d ∷ value) = do
  ensure (not (is_whitespace c)) message_error
  ensure (not (is_whitespace (last_of d value))) message_error

unfoldable pub validate_header_value : List ℕ → Result (Unit {0})
validate_header_value value = do no_forbidden value; validate_ends value

-- The variables of `validate_headers`.
pub record Seen : Type 0 where
  pub after_pseudo_headers : Bool
  pub authority : Option (List ℕ)
  pub path : Option (List ℕ)
  pub scheme : Option (List ℕ)
  pub seen_pseudo_headers : List (List ℕ)
  pub expected_content_length : Option ℕ

abbrev pub starts_with_colon : List ℕ → Bool
starts_with_colon [] = false
starts_with_colon (c ∷ key) = c == 0x3A

unfoldable pub store_value : Seen → List ℕ → List ℕ → Seen
store_value s key value =
    if eq_bytes key Name.authority
    then record s { authority = some value }
    else if eq_bytes key Name.path
    then record s { path = some value }
    else if eq_bytes key Name.scheme
    then record s { scheme = some value }
    else s

unfoldable pub validate_pseudo_header : List (List ℕ) → Seen → List ℕ → List ℕ → Result Seen
validate_pseudo_header allowed s key value = do
  ensure (not s.after_pseudo_headers) message_error
  ensure (elem key allowed) message_error
  ensure (not (elem key s.seen_pseudo_headers)) message_error
  ok (store_value (record s { seen_pseudo_headers = key ∷ s.seen_pseudo_headers }) key value)

-- What `except ValueError` makes of the number.
unfoldable pub content_length_of : Result (Bool × ℕ) → Result ℕ
content_length_of (raise e) = raise message_error
content_length_of (ok (true, n)) = raise message_error
content_length_of (ok (false, n)) = ok n

unfoldable pub validate_regular_header : Seen → List ℕ → List ℕ → Result Seen
validate_regular_header s key value =
    let after = record s { after_pseudo_headers = true } in
    if eq_bytes key Name.content_length
    then (content_length_of (int value) >>= λ n.
        ok (record after { expected_content_length = some n }))
    else if eq_bytes key Name.transfer_encoding && not (eq_bytes value Name.trailers)
    then raise message_error
    else ok after

unfoldable pub validate_header : List (List ℕ) → Seen → List ℕ → List ℕ → Result Seen
validate_header allowed s key value = do
  validate_header_name key
  validate_header_value value
  if starts_with_colon key
      then validate_pseudo_header allowed s key value
      else validate_regular_header s key value

unfoldable pub validate_each : List (List ℕ) → Headers → Seen → Result Seen
validate_each allowed [] s = ok s
validate_each allowed ((key, value) ∷ headers) s = do
  s ← validate_header allowed s key value
  validate_each allowed headers s

-- `not missing`
unfoldable pub includes : List (List ℕ) → List (List ℕ) → Bool
includes seen [] = true
includes seen (key ∷ required) = elem key seen && includes seen required

-- `not x` of an optional byte string.
unfoldable pub is_empty : Option (List ℕ) → Bool
is_empty none = true
is_empty (some []) = true
is_empty (some (c ∷ cs)) = false

unfoldable pub is_http : Option (List ℕ) → Bool
is_http none = false
is_http (some scheme) = eq_bytes scheme Name.http || eq_bytes scheme Name.https

-- The expected content length of the stream afterwards: a header sets it.
unfoldable pub validate_headers :
    List (List ℕ) → List (List ℕ) → Headers → Option ℕ → Result (Option ℕ)
validate_headers allowed required headers expected = do
  s ← validate_each allowed headers (record {
    after_pseudo_headers = false;
    authority = none;
    path = none;
    scheme = none;
    seen_pseudo_headers = [];
    expected_content_length = expected;
  })
  ensure (includes s.seen_pseudo_headers required) message_error
  ensure (not (is_http s.scheme && is_empty s.authority)) message_error
  ensure (not (is_http s.scheme && is_empty s.path)) message_error
  ok s.expected_content_length

-- No stream is passed.
unfoldable pub validate_push_promise_headers : Headers → Result (Unit {0})
validate_push_promise_headers headers =
    let names = Name.method ∷ Name.scheme ∷ Name.authority ∷ Name.path ∷ [] in
    validate_headers names names headers none >>= λ expected. ok tt

unfoldable pub validate_request_headers : Headers → Option ℕ → Result (Option ℕ)
validate_request_headers headers expected =
    validate_headers (Name.method ∷ Name.scheme ∷ Name.authority ∷ Name.path ∷ Name.protocol ∷ [])
      (Name.method ∷ Name.authority ∷ []) headers expected

unfoldable pub validate_response_headers : Headers → Option ℕ → Result (Option ℕ)
validate_response_headers headers expected =
    validate_headers (Name.status ∷ []) (Name.status ∷ []) headers expected

unfoldable pub validate_trailers : Headers → Result (Unit {0})
validate_trailers headers = validate_headers [] [] headers none >>= λ expected. ok tt
