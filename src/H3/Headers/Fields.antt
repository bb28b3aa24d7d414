-- ===== src/H3/Headers/Fields.antt =====
-- Names and values that validate_header_name and validate_header_value of src/aioquic/h3/connection.py let through.
use aioquic.Base.{
  ℕ, suc, ◌<◌, ◌≡◌, refl, arith, ◌≢◌, ◌⊎◌, inl, inr, Bool, true, false, not, ◌&&◌, Bool-cases, List,
  [], ◌∷◌, ltb, ◌==◌,
}
use aioquic.Base.Exception.{Result, ok, raise, ◌>>=◌, ◌>>◌, ensure}
use aioquic.H3.{message_error}
use aioquic.H3.Headers.{
  validate_name_from, no_forbidden, validate_ends, validate_header_value, is_whitespace, last_of,
}

-- A result that is a MessageError or has the property.
module _ {ℓ κ} {A : Type ℓ} where
  abbrev pub Checks : (A → Type κ) → Result A → Type (ℓ ⊔ κ)
  Checks P r = (r ≡ raise message_error) ⊎ ((a : A) × (r ≡ ok a) × P a)

module _ {ℓ κ μ ν} {A : Type ℓ} {B : Type μ} where
  pub Checks-then :
      (P : A → Type κ) (Q : B → Type ν) (m : Result A) (f : A → Result B)
      → Checks P m
      → ((a : A) → P a → Checks Q (f a))
      → Checks Q (m >>= f)
  Checks-then P Q m f (inl e) k = inl (rw e refl)
  Checks-then P Q m f (inr (a, e, p)) k = rw e (k a p)

module _ {μ ν} {B : Type μ} where
  pub Checks-ensure :
      (Q : B → Type ν) (t : Bool) (m : Result B)
      → (t ≡ true → Checks Q m)
      → Checks Q (ensure t message_error >> m)
  Checks-ensure Q true m k = k refl
  Checks-ensure Q false m k = inl refl

-- A check that returns nothing, at the end.
Checks-last : (t : Bool) → Checks (λ _. t ≡ true) (ensure t message_error)
Checks-last true = inr (tt, refl, refl)
Checks-last false = inl refl

abbrev Checked : Type 0 → Result (Unit {0}) → Type 0
Checked P r = Checks (λ _. P) r

Checked-map : (P Q : Type 0) (r : Result (Unit {0})) → (P → Q) → Checked P r → Checked Q r
Checked-map P Q r f (inl e) = inl e
Checked-map P Q r f (inr (a, e, p)) = inr (a, e, f p)

-- The characters of a name, from index `i` on: no control characters, spaces or capitals, and a
-- colon in front only.
abbrev pub IsNamed : ℕ → List ℕ → Type 0
IsNamed i [] = Unit
IsNamed i (c ∷ key) =
    (0x20 < c)
    × (c < 0x7F)
    × ((c < 0x41) ⊎ (0x5A < c))
    × ((c ≢ 0x3A) ⊎ (i ≡ 0))
    × IsNamed (suc i) key

pub validate_name_from-IsNamed :
    (i : ℕ) (key : List ℕ) → Checked (IsNamed i key) (validate_name_from i key)
unfolding validate_name_from
validate_name_from-IsNamed i [] = inr (tt, refl, tt)
validate_name_from-IsNamed i (c ∷ key) = Checks-ensure _ _ _ (λ a. Checks-ensure _ _ _ (λ b.
    Checked-map (IsNamed (suc i) key) (IsNamed i (c ∷ key)) _
      (λ rest. (ground (arith, a), ground (arith, a), ground (arith, a), colon b, rest))
      (validate_name_from-IsNamed (suc i) key)))
  where
    colon : not ((c == 0x3A) && ltb 0 i) ≡ true → (c ≢ 0x3A) ⊎ (i ≡ 0)
    colon b = elim (Bool-cases (c == 0x3A)) [
      | inl e ↦ inr (ground (arith, b, e))
      | inr e ↦ inl (ground (arith, e))
    ]

-- No NUL, LF or CR.
abbrev pub IsClean : List ℕ → Type 0
IsClean [] = Unit
IsClean (c ∷ value) = (c ≢ 0) × (c ≢ 0x0A) × (c ≢ 0x0D) × IsClean value

-- Neither end is a space or a tab.
abbrev pub IsTrimmed : List ℕ → Type 0
IsTrimmed [] = Unit
IsTrimmed (c ∷ value) = (is_whitespace c ≡ false) × (is_whitespace (last_of c value) ≡ false)

no_forbidden-IsClean : (value : List ℕ) → Checked (IsClean value) (no_forbidden value)
unfolding no_forbidden
no_forbidden-IsClean [] = inr (tt, refl, tt)
no_forbidden-IsClean (c ∷ value) = Checks-ensure _ _ _ (λ a.
    Checked-map (IsClean value) (IsClean (c ∷ value)) _
      (λ rest. (ground (arith, a), ground (arith, a), ground (arith, a), rest))
      (no_forbidden-IsClean value))

validate_ends-IsTrimmed : (value : List ℕ) → Checked (IsTrimmed value) (validate_ends value)
unfolding validate_ends
validate_ends-IsTrimmed [] = inr (tt, refl, tt)
validate_ends-IsTrimmed (c ∷ []) =
    Checked-map _ (IsTrimmed (c ∷ [])) _ (λ a. (ground (arith, a), ground (arith, a)))
      (Checks-last _)
validate_ends-IsTrimmed (c ∷ d ∷ value) = Checks-ensure _ (not (is_whitespace c)) _ (λ a.
    Checked-map (not (is_whitespace (last_of d value)) ≡ true) (IsTrimmed (c ∷ d ∷ value)) _
      (λ b. (ground (arith, a), ground (arith, b))) (Checks-last _))

-- A name of valid characters and a value that is clean and trimmed.
abbrev pub IsHeader : List ℕ × List ℕ → Type 0
IsHeader (key, value) = IsNamed 0 key × IsClean value × IsTrimmed value

pub validate_header_value-Checked :
    (value : List ℕ) → Checked (IsClean value × IsTrimmed value) (validate_header_value value)
unfolding validate_header_value
validate_header_value-Checked value =
    Checks-then _ _ (no_forbidden value) _ (no_forbidden-IsClean value) (λ _ a.
      Checked-map (IsTrimmed value) (IsClean value × IsTrimmed value) _ (λ b. (a, b))
        (validate_ends-IsTrimmed value))
