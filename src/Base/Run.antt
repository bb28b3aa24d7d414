-- ===== src/Base/Run.antt =====
-- Calls that change a state and may raise: what was changed before an exception stays changed.
use aioquic.Base.{Bool, true, false, ◌≡◌, refl, if◌then◌else◌}
use aioquic.Base.Exception.{Exception, Result, ok, raise}

abbrev pub Run {ℓ} : Type 0 → Type ℓ → Type ℓ
Run S A = S → Result A × S

module _ {ℓ} {S : Type 0} {A : Type ℓ} where
  abbrev pub return : A → Run S A
  return a = λ s. (ok a, s)

  abbrev pub throw : Exception → Run S A
  throw e = λ s. (raise e, s)

  abbrev pub lift : Result A → Run S A
  lift r = λ s. (r, s)

module _ {S : Type 0} where
  abbrev pub get : Run S S
  get = λ s. (ok s, s)

  abbrev pub modify : (S → S) → Run S (Unit {0})
  modify f = λ s. (ok tt, f s)

  -- `if test: raise error`
  abbrev pub refuse : Bool → Exception → Run S (Unit {0})
  refuse test e = λ s. (elim test [ true ↦ raise e | false ↦ ok tt ], s)

module _ {ℓ κ} {S : Type 0} {A : Type ℓ} {B : Type κ} where
  abbrev pub continue : (A → Run S B) → Result A × S → Result B × S
  continue f (raise e, s) = (raise e, s)
  continue f (ok a, s) = f a s

  infixl 5 ◌>>=◌
  abbrev pub ◌>>=◌ : Run S A → (A → Run S B) → Run S B
  m >>= f = λ s. continue f (m s)

module _ {ℓ} {S : Type 0} {B : Type ℓ} where
  infixl 5 ◌>>◌
  abbrev pub ◌>>◌ : Run S (Unit {0}) → Run S B → Run S B
  m >> n = m >>= λ _. n

-- What holds of an exception and the state it leaves, and of what a call returns and its state.
module _ {ℓ κ} {S : Type 0} {A : Type ℓ} where
  abbrev pub Out : (Exception → S → Type κ) → (A → S → Type κ) → Result A × S → Type κ
  Out R Q (raise e, s) = R e s
  Out R Q (ok a, s) = Q a s

module _ {ℓ κ} {S : Type 0} {A : Type ℓ} where
  pub Out-map :
      (R R' : Exception → S → Type κ) (Q : A → S → Type κ) (out : Result A × S)
      → Out R Q out
      → ((e : Exception) (t : S) → R e t → R' e t)
      → Out R' Q out
  Out-map R R' Q (raise e, s) h k = k e s h
  Out-map R R' Q (ok a, s) h k = h

module _ {ℓ κ μ} {S : Type 0} {A : Type ℓ} {B : Type μ} where
  pub Out-then :
      (R R' : Exception → S → Type κ) (P : A → S → Type κ) (Q : B → S → Type κ) (m : Run S A)
      (f : A → Run S B) (s : S)
      → Out R P (m s)
      → ((e : Exception) (t : S) → R e t → R' e t)
      → ((a : A) (t : S) → P a t → Out R' Q (f a t))
      → Out R' Q ((m >>= f) s)
  Out-then R R' P Q m f s h k l = continued (m s) h
    where
      continued : (out : Result A × S) → Out R P out → Out R' Q (continue f out)
      continued (raise e, t) j = k e t j
      continued (ok a, t) j = l a t j

  -- A function that changes no state, before `f`.
  pub Out-lift :
      (R : Exception → S → Type κ) (Q : B → S → Type κ) (r : Result A) (f : A → Run S B) (s : S)
      → ((e : Exception) → R e s)
      → ((a : A) → Out R Q (f a s))
      → Out R Q ((lift r >>= f) s)
  Out-lift R Q (raise e) f s h k = h e
  Out-lift R Q (ok a) f s h k = k a

  -- The same, where `f` may use what the function returned.
  pub Out-lifted :
      (R : Exception → S → Type κ) (Q : B → S → Type κ) (r : Result A) (f : A → Run S B) (s : S)
      → ((e : Exception) → R e s)
      → ((a : A) → r ≡ ok a → Out R Q (f a s))
      → Out R Q ((lift r >>= f) s)
  Out-lifted R Q (raise e) f s h k = h e
  Out-lifted R Q (ok a) f s h k = k a refl

  -- Two calls that go on in the same way go on to the same.
  pub bind-eq :
      (R : Exception → S → Type κ) (P : A → S → Type κ) (m : Run S A) (f g : A → Run S B) (s : S)
      → Out R P (m s)
      → ((a : A) (t : S) → P a t → f a t ≡ g a t)
      → (m >>= f) s ≡ (m >>= g) s
  bind-eq R P m f g s h k = continued (m s) h
    where
      continued : (out : Result A × S) → Out R P out → continue f out ≡ continue g out
      continued (raise e, t) j = refl
      continued (ok a, t) j = k a t j

module _ {ℓ κ} {S : Type 0} {B : Type ℓ} where
  -- `if test: raise e`, before `m`.
  pub Out-test :
      (R : Exception → S → Type κ) (Q : B → S → Type κ) (test : Bool) (e : Exception) (m : Run S B)
      (s : S)
      → R e s
      → (test ≡ false → Out R Q (m s))
      → Out R Q ((refuse test e >> m) s)
  Out-test R Q true e m s h k = h
  Out-test R Q false e m s h k = k refl

  pub Out-if :
      (R : Exception → S → Type κ) (Q : B → S → Type κ) (test : Bool) (m n : Run S B) (s : S)
      → (test ≡ true → Out R Q (m s))
      → (test ≡ false → Out R Q (n s))
      → Out R Q ((if test then m else n) s)
  Out-if R Q true m n s h k = h refl
  Out-if R Q false m n s h k = k refl
