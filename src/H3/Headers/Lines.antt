-- ===== src/H3/Headers/Lines.antt =====
-- One header, as the loop of validate_headers of src/aioquic/h3/connection.py checks it.
use aioquic.Base.{ℕ, ◌≡◌, ◌≢◌, ◌⊎◌, Bool, true, false, Option, some, List, [], ◌∷◌, if◌then◌else◌}
use aioquic.Base.Exception.{Result, ok, raise}
use aioquic.Base.Bytes.{eq_bytes, elem, int}
use aioquic.H3.{Headers}
use aioquic.H3.Name
use aioquic.H3.Headers.{starts_with_colon}
use aioquic.H3.Headers.Fields.{IsHeader}

-- The two parts of the headers: pseudo-headers that are allowed and not repeated, `seen` being the
-- names before them, and regular headers.
abbrev pub IsPseudo : List (List ℕ) → List (List ℕ) → Headers → Type 0
IsPseudo allowed seen [] = Unit
IsPseudo allowed seen ((key, value) ∷ headers) =
    IsHeader (key, value)
    × (starts_with_colon key ≡ true)
    × (elem key allowed ≡ true)
    × (elem key seen ≡ false)
    × IsPseudo allowed (key ∷ seen) headers

-- A content length is a number that is not negative, a transfer encoding is `trailers`.
abbrev pub IsRegular : Headers → Type 0
IsRegular [] = Unit
IsRegular ((key, value) ∷ headers) =
    IsHeader (key, value)
    × (starts_with_colon key ≡ false)
    × ((key ≢ Name.content_length) ⊎ ((n : ℕ) × (int value ≡ ok (false, n))))
    × ((key ≢ Name.transfer_encoding) ⊎ (value ≡ Name.trailers))
    × IsRegular headers

-- The value of the last header of a name, or what was there before.
abbrev pub value_of : List ℕ → Headers → Option (List ℕ) → Option (List ℕ)
value_of name [] before = before
value_of name ((key, value) ∷ headers) before =
    value_of name headers (if eq_bytes key name then some value else before)

abbrev pub names_after : List (List ℕ) → Headers → List (List ℕ)
names_after seen [] = seen
names_after seen ((key, value) ∷ headers) = names_after (key ∷ seen) headers

abbrev pub as_length : Result (Bool × ℕ) → Option ℕ → Option ℕ
as_length (ok (false, n)) before = some n
as_length (ok (true, n)) before = before
as_length (raise e) before = before

-- The content length that the headers declare.
abbrev pub declared : Headers → Option ℕ → Option ℕ
declared [] before = before
declared ((key, value) ∷ headers) before =
    declared headers
      (if eq_bytes key Name.content_length then as_length (int value) before else before)
