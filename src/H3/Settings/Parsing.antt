-- ===== src/H3/Settings/Parsing.antt =====
-- What parse_settings of src/aioquic/h3/connection.py makes of any payload.
use aioquic.Base.{
  ℕ, zero, suc, ◌+◌, ◌-◌, ◌≤◌, ◌≡◌, refl, ap, sym, arith, true, false, none, List, [], ◌∷◌, ◌++◌,
  length, append_assoc, append-nil, ◌⊎◌, inl, inr, Bool-cases, Option-cases,
}
use mathlib.Core.Path.{subst}
use native.Mathlib.Nat.{zero-add, suc-add}
use aioquic.Base.Exception.{ok, raise, Result, buffer_read_error}
use aioquic.Buffer.{Buffer, new, eof, pull_uint_var}
use aioquic.Buffer.Moves.{Moves, Moves-trans, pull_uint_var-Reads, pull_uint_var-Moves}
use aioquic.Buffer.Pulls.{InBounds}
use aioquic.H3.{settings_error}
use aioquic.H3.Settings.{Settings, lookup, is_reserved, parse_from, parse_settings}
use aioquic.H3.Settings.RoundTrip.{IsParsed}

IsParsed-snoc :
    (before settings : Settings) (setting value : ℕ)
    → IsParsed before settings
    → is_reserved setting ≡ false
    → lookup setting (before ++ settings) ≡ none
    → IsParsed before (settings ++ ((setting, value) ∷ []))
IsParsed-snoc before [] setting value p r n =
    (r, subst (λ t. lookup setting t ≡ none) (append-nil before) n, tt)
IsParsed-snoc before ((k, v) ∷ settings) setting value (a, b, p) r n = (
  a,
  b,
  IsParsed-snoc (before ++ ((k, v) ∷ [])) settings setting value p r
      (subst (λ t. lookup setting t ≡ none) (sym (append_assoc before ((k, v) ∷ []) settings)) n),
)

-- The next item is read, or a BufferReadError is raised.
record Next (b : Buffer) : Type 0 where
  setting : ℕ
  value : ℕ
  c : Buffer
  d : Buffer
  first : pull_uint_var b ≡ ok (setting, c)
  second : pull_uint_var c ≡ ok (value, d)
  moves : Moves 2 b d

abbrev Truncated : Buffer → Type 0
Truncated b =
    (pull_uint_var b ≡ raise buffer_read_error)
    ⊎ ((v : ℕ) × (c : Buffer) × (pull_uint_var b ≡ ok (v, c))
        × (pull_uint_var c ≡ raise buffer_read_error))

next : (b : Buffer) → Truncated b ⊎ Next b
next b = elim (pull_uint_var-Reads b) [
  | inl e ↦ inl (inl e)
  | inr (v, c, e) ↦ elim (pull_uint_var-Reads c) [
    | inl f ↦ inl (inr (v, c, e, f))
    | inr (w, d, f) ↦ inr (record {
      setting = v;
      value = w;
      c = c;
      d = d;
      first = e;
      second = f;
      moves = Moves-trans (pull_uint_var-Moves b c v e) (pull_uint_var-Moves c d w f);
    })
  ]
]

abbrev Outcome : Result Settings → Type 0
Outcome r =
    ((settings : Settings) × (r ≡ ok settings) × IsParsed [] settings)
    ⊎ (r ≡ raise settings_error)
    ⊎ (r ≡ raise buffer_read_error)

parse_from-Outcome :
    (fuel : ℕ) (b : Buffer) (before : Settings)
    → IsParsed [] before
    → Outcome (parse_from fuel b before)
unfolding parse_from
parse_from-Outcome zero b before p = inl (before, refl, p)
parse_from-Outcome (suc fuel) b before p = elim (Bool-cases (eof b)) [
  | inl e ↦ rw e (inl (before, refl, p))
  | inr e ↦ elim (next b) [
    | inl (inl x) ↦ rw (e, x) (inr (inr refl))
    | inl (inr (v, c, x, y)) ↦ rw (e, x, y) (inr (inr refl))
    | inr n ↦ elim (Bool-cases (is_reserved n.setting)) [
      | inl f ↦ rw (e, n.first, n.second, f) (inr (inl refl))
      | inr f ↦ elim (Option-cases (lookup n.setting before)) [
        | inl g ↦
            rw (e, n.first, n.second, f, g)
              (parse_from-Outcome fuel n.d (before ++ ((n.setting, n.value) ∷ []))
                (IsParsed-snoc [] before n.setting n.value p f g))
        | inr (w, g) ↦ rw (e, n.first, n.second, f, g) (inr (inl refl))
      ]
    ]
  ]
]

-- More rounds than there are bytes change nothing.
parse_from-fuel :
    (fuel more : ℕ) (b : Buffer) (before : Settings)
    → InBounds b
    → length b.memory - b.pos ≤ fuel
    → parse_from (fuel + more) b before ≡ parse_from fuel b before
unfolding parse_from
parse_from-fuel zero zero b before i h = refl
parse_from-fuel zero (suc more) b before i h =
    let done : eof b ≡ true = ground (arith, i, h) in rw (zero-add (suc more), done) refl
parse_from-fuel (suc fuel) more b before i h = elim (Bool-cases (eof b)) [
  | inl e ↦ rw (suc-add fuel more, e) refl
  | inr e ↦ elim (next b) [
    | inl (inl x) ↦ rw (suc-add fuel more, e, x) refl
    | inl (inr (v, c, x, y)) ↦ rw (suc-add fuel more, e, x, y) refl
    | inr n ↦
        let rest = λ (s : Settings).
          parse_from-fuel fuel more n.d s (omega (arith, n.moves.within, ap length n.moves.memory))
            (omega (arith, n.moves.forward, n.moves.within, ap length n.moves.memory, h)) in
        rw (suc-add fuel more, e, n.first, n.second, rest (before ++ ((n.setting, n.value) ∷ [])))
          refl
  ]
]

-- A payload is parsed as settings of which none is reserved and none is there twice, or
-- SettingsError is raised, or BufferReadError. The rounds suffice: with more of them the result is
-- the same.
pub parse_settings-outcome :
    (bytes : List ℕ)
    → ((more : ℕ) → parse_from (length bytes + more) (new bytes) [] ≡ parse_settings bytes)
      × (((settings : Settings) × (parse_settings bytes ≡ ok settings) × IsParsed [] settings)
          ⊎ (parse_settings bytes ≡ raise settings_error)
          ⊎ (parse_settings bytes ≡ raise buffer_read_error))
unfolding parse_settings
parse_settings-outcome bytes = (
  λ more. parse_from-fuel (length bytes) more (new bytes) [] (omega arith) (omega arith),
  parse_from-Outcome (length bytes) (new bytes) [] tt,
)
