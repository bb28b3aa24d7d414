-- ===== src/H3/Headers/Valid.antt =====
-- What the headers that validate_headers of src/aioquic/h3/connection.py lets through look like.
use aioquic.Base.{
  ℕ, ◌≡◌, refl, arith, ◌⊎◌, inl, inr, Bool, true, false, not, ◌&&◌, Bool-cases, Option, none, List,
  [], ◌∷◌, ◌++◌,
}
use aioquic.Base.Exception.{ok, raise}
use aioquic.Base.Bytes.{eq_bytes, elem}
use aioquic.H3.{Headers, message_error}
use aioquic.H3.Name
use aioquic.H3.Headers.{includes, is_empty, is_http, validate_headers}
use aioquic.H3.Headers.Fields.{Checks-then, Checks-ensure}
use aioquic.H3.Headers.Lines.{IsPseudo, IsRegular, value_of, names_after, declared}
use aioquic.H3.Headers.Splits.{validate_each-Splits}

-- Every name of `required` is that of a header.
abbrev names : Headers → List (List ℕ)
names [] = []
names ((key, value) ∷ headers) = key ∷ names headers

abbrev AllNamed : List (List ℕ) → Headers → Type 0
AllNamed [] headers = Unit
AllNamed (key ∷ required) headers = (elem key (names headers) ≡ true) × AllNamed required headers

elem-names_after :
    (key : List ℕ) (headers : Headers) (seen : List (List ℕ))
    → elem key (names_after seen headers) ≡ true
    → (elem key seen ≡ true) ⊎ (elem key (names headers) ≡ true)
elem-names_after key [] seen h = inl h
elem-names_after key ((k, v) ∷ headers) seen h = elim (elem-names_after key headers (k ∷ seen) h) [
  | inl e ↦ elim (Bool-cases (eq_bytes key k)) [
    | inl f ↦ inr (rw f refl)
    | inr f ↦ inl (ground (arith, e, f))
  ]
  | inr e ↦ inr (ground (arith, e))
]

includes-AllNamed :
    (required : List (List ℕ)) (headers : Headers)
    → includes (names_after [] headers) required ≡ true
    → AllNamed required headers
unfolding includes
includes-AllNamed [] headers h = tt
includes-AllNamed (key ∷ required) headers h =
    let here : elem key (names_after [] headers) ≡ true = ground (arith, h) in
    let there : includes (names_after [] headers) required ≡ true = ground (arith, h) in
    (
      elim (elem-names_after key headers [] here) [
        | inl e ↦ absurd (ground (arith, e))
        | inr e ↦ e
      ],
      includes-AllNamed required headers there,
    )

-- What was let through: pseudo-headers that are allowed, each at most once and among them the
-- required ones, and after them regular headers; `expected` is the content length declared.
pub record IsValid (allowed required : List (List ℕ)) (headers : Headers)
    (before expected : Option ℕ) : Type 0 where
  pseudo : Headers
  regular : Headers
  split : headers ≡ pseudo ++ regular
  first : IsPseudo allowed [] pseudo
  second : IsRegular regular
  complete : AllNamed required pseudo
  -- With the scheme http or https, neither the authority nor the path is empty.
  authority :
      (is_http (value_of Name.scheme pseudo none) ≡ false)
      ⊎ (is_empty (value_of Name.authority pseudo none) ≡ false)
  path :
      (is_http (value_of Name.scheme pseudo none) ≡ false)
      ⊎ (is_empty (value_of Name.path pseudo none) ≡ false)
  length : expected ≡ declared regular before

not-both : (a b : Bool) → not (a && b) ≡ true → (a ≡ false) ⊎ (b ≡ false)
not-both true true h = absurd (ground (arith, h))
not-both true false h = inr refl
not-both false b h = inl refl

-- Headers are refused with a MessageError or they are valid: the names and values consist of
-- characters that are allowed there, pseudo-headers come first, are allowed and not repeated, the
-- required ones are there, a content length is a number that is not negative, a transfer encoding
-- is `trailers`, and with the scheme http or https the authority and the path are not empty. The
-- content length that is expected afterwards is the one that the headers declare.
pub validate_headers_lem :
    (allowed required : List (List ℕ)) (headers : Headers) (before : Option ℕ)
    → (validate_headers allowed required headers before ≡ raise message_error)
      ⊎ ((expected : Option ℕ) × (validate_headers allowed required headers before ≡ ok expected)
          × IsValid allowed required headers before expected)
unfolding validate_headers
validate_headers_lem allowed required headers before =
    Checks-then _ (IsValid allowed required headers before) _ _
      (validate_each-Splits allowed headers _ refl)
      (λ s r. Checks-ensure _ (includes s.seen_pseudo_headers required) _ (λ a.
        Checks-ensure _ (not (is_http s.scheme && is_empty s.authority)) _ (λ b.
          Checks-ensure _ (not (is_http s.scheme && is_empty s.path)) _ (λ c. inr (
            s.expected_content_length,
            refl,
            record {
              pseudo = r.pseudo;
              regular = r.regular;
              split = r.split;
              first = r.first;
              second = r.second;
              complete = includes-AllNamed required r.pseudo (rw r.seen at a);
              authority = not-both _ _ (rw (r.scheme, r.authority) at b);
              path = not-both _ _ (rw (r.scheme, r.path) at c);
              length = r.expected;
            },
          )))))
