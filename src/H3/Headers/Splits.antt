-- ===== src/H3/Headers/Splits.antt =====
-- Valid headers are pseudo-headers and then other headers (src/aioquic/h3/connection.py).
use aioquic.Base.{
  ℕ, ◌≡◌, refl, ap, sym, ◌∙◌, arith, inl, inr, true, false, Bool-cases, Option, some, List, [], ◌∷◌,
  ◌++◌, if◌then◌else◌,
}
use aioquic.Base.Bytes.{eq_bytes, eq_bytes-eq}
use aioquic.H3.{Headers}
use aioquic.H3.Name
use aioquic.H3.Headers.{Seen, starts_with_colon, store_value, validate_header, validate_each}
use aioquic.H3.Headers.Fields.{Checks, Checks-then, IsHeader}
use aioquic.H3.Headers.Lines.{IsPseudo, IsRegular, value_of, names_after, declared}
use aioquic.H3.Headers.Single.{Ends, One, recorded, OnePseudo, validate_header-Head}

step_from_Ends :
    (allowed : List (List ℕ)) (headers : Headers) (s s1 : Seen) (key value : List ℕ)
    → IsHeader (key, value)
    → starts_with_colon key ≡ false
    → One key value s s1
    → Checks (Ends headers s1) (validate_each allowed headers s1)
    → Checks (Ends ((key, value) ∷ headers) s) (validate_each allowed headers s1)
step_from_Ends allowed headers s s1 key value head c one (inl x) = inl x
step_from_Ends allowed headers s s1 key value head c (l, t, e) (inr (s2, x, r)) = inr (
  s2,
  x,
  record {
    regular = (head, c, l, t, r.regular);
    seen = r.seen ∙ ap (λ z. z.seen_pseudo_headers) e;
    authority = r.authority ∙ ap (λ z. z.authority) e;
    path = r.path ∙ ap (λ z. z.path) e;
    scheme = r.scheme ∙ ap (λ z. z.scheme) e;
    expected = r.expected ∙ ap (λ z. declared headers z.expected_content_length) e;
  },
)

-- After a regular header there are regular headers only.
validate_each-Ends :
    (allowed : List (List ℕ)) (headers : Headers) (s : Seen)
    → s.after_pseudo_headers ≡ true
    → Checks (Ends headers s) (validate_each allowed headers s)
unfolding validate_each
validate_each-Ends allowed [] s h = inr (
  s,
  refl,
  record {
    regular = tt;
    seen = refl;
    authority = refl;
    path = refl;
    scheme = refl;
    expected = refl;
  },
)
validate_each-Ends allowed ((key, value) ∷ headers) s h =
    Checks-then _ _ (validate_header allowed s key value) _
      (validate_header-Head allowed s key value)
      (λ s1 (head, kind). elim kind [
        | inl (c, p) ↦ absurd (ground (arith, sym h ∙ p.0))
        | inr (c, one) ↦
            step_from_Ends allowed headers s s1 key value head c one
              (validate_each-Ends allowed headers s1 (ap (λ z. z.after_pseudo_headers) one.2))
      ])

-- What the whole loop does.
pub record Splits (allowed : List (List ℕ)) (headers : Headers) (s s' : Seen) : Type 0 where
  pub pseudo : Headers
  pub regular : Headers
  pub split : headers ≡ pseudo ++ regular
  pub first : IsPseudo allowed s.seen_pseudo_headers pseudo
  pub second : IsRegular regular
  pub seen : s'.seen_pseudo_headers ≡ names_after s.seen_pseudo_headers pseudo
  pub authority : s'.authority ≡ value_of Name.authority pseudo s.authority
  pub path : s'.path ≡ value_of Name.path pseudo s.path
  pub scheme : s'.scheme ≡ value_of Name.scheme pseudo s.scheme
  pub expected : s'.expected_content_length ≡ declared regular s.expected_content_length

abbrev if_named : List ℕ → List ℕ → List ℕ → Option (List ℕ) → Option (List ℕ)
if_named name key value before = if eq_bytes key name then some value else before

recorded_lem :
    (s : Seen) (key value : List ℕ)
    → ((recorded s key value).authority ≡ if_named Name.authority key value s.authority)
      × ((recorded s key value).path ≡ if_named Name.path key value s.path)
      × ((recorded s key value).scheme ≡ if_named Name.scheme key value s.scheme)
      × ((recorded s key value).seen_pseudo_headers ≡ key ∷ s.seen_pseudo_headers)
      × ((recorded s key value).expected_content_length ≡ s.expected_content_length)
      × ((recorded s key value).after_pseudo_headers ≡ s.after_pseudo_headers)
unfolding store_value
recorded_lem s key value = elim (Bool-cases (eq_bytes key Name.authority)) [
  | inl e ↦ rw (eq_bytes-eq key Name.authority e) (refl, refl, refl, refl, refl, refl)
  | inr e ↦ elim (Bool-cases (eq_bytes key Name.path)) [
    | inl f ↦ rw (eq_bytes-eq key Name.path f) (refl, refl, refl, refl, refl, refl)
    | inr f ↦ elim (Bool-cases (eq_bytes key Name.scheme)) [
      | inl g ↦ rw (eq_bytes-eq key Name.scheme g) (refl, refl, refl, refl, refl, refl)
      | inr g ↦ rw (e, f, g) (refl, refl, refl, refl, refl, refl)
    ]
  ]
]

step_from_Splits :
    (allowed : List (List ℕ)) (headers : Headers) (s s1 : Seen) (key value : List ℕ)
    → IsHeader (key, value)
    → starts_with_colon key ≡ true
    → OnePseudo allowed key value s s1
    → Checks (Splits allowed headers s1) (validate_each allowed headers s1)
    → Checks (Splits allowed ((key, value) ∷ headers) s) (validate_each allowed headers s1)
step_from_Splits allowed headers s s1 key value head c one (inl x) = inl x
step_from_Splits allowed headers s s1 key value head c (a, b, n, e) (inr (s2, x, r)) =
    let (f1, f2, f3, f4, f5, f6) = recorded_lem s key value in
    let seen : s1.seen_pseudo_headers ≡ key ∷ s.seen_pseudo_headers =
      ap (λ z. z.seen_pseudo_headers) e ∙ f4 in
    inr (
      s2,
      x,
      record {
        pseudo = (key, value) ∷ r.pseudo;
        regular = r.regular;
        split = ap (λ t. (key, value) ∷ t) r.split;
        first = (head, c, b, n, rw seen at r.first);
        second = r.second;
        seen = r.seen ∙ ap (λ z. names_after z r.pseudo) seen;
        authority =
            r.authority ∙ ap (value_of Name.authority r.pseudo) (ap (λ z. z.authority) e ∙ f1);
        path = r.path ∙ ap (value_of Name.path r.pseudo) (ap (λ z. z.path) e ∙ f2);
        scheme = r.scheme ∙ ap (value_of Name.scheme r.pseudo) (ap (λ z. z.scheme) e ∙ f3);
        expected =
            r.expected ∙ ap (declared r.regular) (ap (λ z. z.expected_content_length) e ∙ f5);
      },
    )

Ends-Splits :
    (allowed : List (List ℕ)) (headers : Headers) (s s1 : Seen) (key value : List ℕ)
    → Checks (Ends ((key, value) ∷ headers) s) (validate_each allowed headers s1)
    → Checks (Splits allowed ((key, value) ∷ headers) s) (validate_each allowed headers s1)
Ends-Splits allowed headers s s1 key value (inl x) = inl x
Ends-Splits allowed headers s s1 key value (inr (s2, x, r)) = inr (
  s2,
  x,
  record {
    pseudo = [];
    regular = (key, value) ∷ headers;
    split = refl;
    first = tt;
    second = r.regular;
    seen = r.seen;
    authority = r.authority;
    path = r.path;
    scheme = r.scheme;
    expected = r.expected;
  },
)

pub validate_each-Splits :
    (allowed : List (List ℕ)) (headers : Headers) (s : Seen)
    → s.after_pseudo_headers ≡ false
    → Checks (Splits allowed headers s) (validate_each allowed headers s)
unfolding validate_each
validate_each-Splits allowed [] s h = inr (
  s,
  refl,
  record {
    pseudo = [];
    regular = [];
    split = refl;
    first = tt;
    second = tt;
    seen = refl;
    authority = refl;
    path = refl;
    scheme = refl;
    expected = refl;
  },
)
validate_each-Splits allowed ((key, value) ∷ headers) s h =
    Checks-then _ _ (validate_header allowed s key value) _
      (validate_header-Head allowed s key value)
      (λ s1 (head, kind). elim kind [
        | inl (c, one) ↦ step_from_Splits allowed headers s s1 key value head c one (
            validate_each-Splits allowed headers s1
              (ap (λ z. z.after_pseudo_headers) one.3 ∙ (recorded_lem s key value).5 ∙ h))
        | inr (c, one) ↦ Ends-Splits allowed headers s s1 key value (
            step_from_Ends allowed headers s s1 key value head c one
              (validate_each-Ends allowed headers s1 (ap (λ z. z.after_pseudo_headers) one.2)))
      ])
