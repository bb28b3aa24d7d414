-- ===== src/H3/Headers/Single.antt =====
-- What validate_headers of src/aioquic/h3/connection.py does with a single header.
use aioquic.Base.{
  ℕ, ◌≡◌, refl, ap, sym, ◌∙◌, arith, ◌≢◌, ◌⊎◌, inl, inr, Bool, true, false, not, Bool-cases, List,
  ◌∷◌, if◌then◌else◌, get_or,
}
use aioquic.Base.Exception.{Result, ok, raise}
use aioquic.Base.Bytes.{eq_bytes, elem, int, eq_bytes-eq, eq_bytes_self}
use aioquic.H3.{Headers}
use aioquic.H3.Name
use aioquic.H3.Headers.{
  validate_header_name, validate_header_value, Seen, starts_with_colon, store_value,
  validate_pseudo_header, content_length_of, validate_regular_header, validate_header,
}
use aioquic.H3.Headers.Fields.{
  Checks, Checks-then, Checks-ensure, IsNamed, validate_name_from-IsNamed, IsClean, IsTrimmed,
  IsHeader, validate_header_value-Checked,
}
use aioquic.H3.Headers.Lines.{IsRegular, as_length, declared}

-- What the loop does from the first regular header on.
pub record Ends (headers : Headers) (s s' : Seen) : Type 0 where
  pub regular : IsRegular headers
  pub seen : s'.seen_pseudo_headers ≡ s.seen_pseudo_headers
  pub authority : s'.authority ≡ s.authority
  pub path : s'.path ≡ s.path
  pub scheme : s'.scheme ≡ s.scheme
  pub expected : s'.expected_content_length ≡ declared headers s.expected_content_length

-- One regular header.
abbrev pub One : List ℕ → List ℕ → Seen → Seen → Type 0
One key value s s' =
    ((key ≢ Name.content_length) ⊎ ((n : ℕ) × (int value ≡ ok (false, n))))
    × ((key ≢ Name.transfer_encoding) ⊎ (value ≡ Name.trailers))
    × (s' ≡ record s {
      after_pseudo_headers = true;
      expected_content_length =
          if eq_bytes key Name.content_length
          then as_length (int value) s.expected_content_length
          else s.expected_content_length;
    })

differs : (xs ys : List ℕ) → eq_bytes xs ys ≡ false → xs ≢ ys
differs xs ys h e = let t : eq_bytes xs ys ≡ true = rw e (eq_bytes_self ys) in ground (arith, t, h)

validate_regular_header-One :
    (s : Seen) (key value : List ℕ) → Checks (One key value s) (validate_regular_header s key value)
unfolding validate_regular_header content_length_of
validate_regular_header-One s key value = elim (Bool-cases (eq_bytes key Name.content_length)) [
  | inl e ↦ counted (int value) refl e (eq_bytes-eq key Name.content_length e)
  | inr e ↦ elim (Bool-cases (eq_bytes key Name.transfer_encoding)) [
    | inl f ↦ elim (Bool-cases (eq_bytes value Name.trailers)) [
      | inl g ↦
          rw (e, f, g)
            (inr (
              _,
              refl,
              (
                inl (differs key Name.content_length e),
                inr (eq_bytes-eq value Name.trailers g),
                refl,
              ),
            ))
      | inr g ↦ rw (e, f, g) (inl refl)
    ]
    | inr f ↦
        rw (e, f)
          (inr (
            _,
            refl,
            (
              inl (differs key Name.content_length e),
              inl (differs key Name.transfer_encoding f),
              refl,
            ),
          ))
  ]
]
  where
    other : Name.content_length ≢ Name.transfer_encoding
    other e = ground (arith, ap (λ t. get_or t 0 0) e)

    counted :
        (r : Result (Bool × ℕ))
        → int value ≡ r
        → eq_bytes key Name.content_length ≡ true
        → key ≡ Name.content_length
        → Checks (One key value s) (validate_regular_header s key value)
    counted (raise x) h e k = rw (e, h) (inl refl)
    counted (ok (true, n)) h e k = rw (e, h) (inl refl)
    counted (ok (false, n)) h e k =
        rw (e, h) (inr (_, refl, (inr (n, refl), inl (λ f. other (sym k ∙ f)), refl)))

abbrev pub recorded : Seen → List ℕ → List ℕ → Seen
recorded s key value =
    store_value (record s { seen_pseudo_headers = key ∷ s.seen_pseudo_headers }) key value

-- One pseudo-header.
abbrev pub OnePseudo : List (List ℕ) → List ℕ → List ℕ → Seen → Seen → Type 0
OnePseudo allowed key value s s' =
    (s.after_pseudo_headers ≡ false)
    × (elem key allowed ≡ true)
    × (elem key s.seen_pseudo_headers ≡ false)
    × (s' ≡ recorded s key value)

validate_pseudo_header-One :
    (allowed : List (List ℕ)) (s : Seen) (key value : List ℕ)
    → Checks (OnePseudo allowed key value s) (validate_pseudo_header allowed s key value)
unfolding validate_pseudo_header
validate_pseudo_header-One allowed s key value =
    Checks-ensure _ (not s.after_pseudo_headers) _ (λ a. Checks-ensure _ (elem key allowed) _ (λ b.
      Checks-ensure _ (not (elem key s.seen_pseudo_headers)) _
        (λ c. inr (recorded s key value, refl, (not-inv _ a, b, not-inv _ c, refl)))))
  where
    not-inv : (t : Bool) → not t ≡ true → t ≡ false
    not-inv true h = absurd (ground (arith, h))
    not-inv false h = refl

abbrev Head : List (List ℕ) → List ℕ → List ℕ → Seen → Seen → Type 0
Head allowed key value s s' =
    IsHeader (key, value)
    × (((starts_with_colon key ≡ true) × OnePseudo allowed key value s s')
        ⊎ ((starts_with_colon key ≡ false) × One key value s s'))

pub validate_header-Head :
    (allowed : List (List ℕ)) (s : Seen) (key value : List ℕ)
    → Checks (Head allowed key value s) (validate_header allowed s key value)
unfolding validate_header validate_header_name
validate_header-Head allowed s key value =
    Checks-then (λ _. IsNamed 0 key) _ (validate_header_name key) _
      (validate_name_from-IsNamed 0 key)
      (λ _ a.
        Checks-then (λ _. IsClean value × IsTrimmed value) _ (validate_header_value value) _
          (validate_header_value-Checked value)
          (λ _ (b, b'). kind (a, b, b') (Bool-cases (starts_with_colon key))))
  where
    kind :
        IsHeader (key, value)
        → ((starts_with_colon key ≡ true) ⊎ (starts_with_colon key ≡ false))
        → Checks (Head allowed key value s) (
            if starts_with_colon key
            then validate_pseudo_header allowed s key value
            else validate_regular_header s key value)
    kind h (inl c) = rw c (elim (validate_pseudo_header-One allowed s key value) [
      | inl e ↦ inl e
      | inr (s', e, p) ↦ inr (s', e, (h, inl (refl, p)))
    ])
    kind h (inr c) = rw c (elim (validate_regular_header-One s key value) [
      | inl e ↦ inl e
      | inr (s', e, p) ↦ inr (s', e, (h, inr (refl, p)))
    ])
