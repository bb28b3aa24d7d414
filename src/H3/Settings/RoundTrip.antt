-- ===== src/H3/Settings/RoundTrip.antt =====
-- Settings that are encoded are parsed back (src/aioquic/h3/connection.py).
use aioquic.Base.{
  ℕ, zero, suc, ◌≤◌, ◌<◌, ◌≡◌, refl, ap, sym, ◌∙◌, arith, true, false, none, List, [], ◌∷◌, ◌++◌,
  length, length-append, length-replicate, append_assoc, append-nil, length-drop,
}
use aioquic.Base.Exception.{ok, ◌>>=◌}
use aioquic.Buffer.{Buffer, new, eof, advance, written, pull_uint_var, push_uint_var}
use aioquic.Buffer.Codes.{Pushes-then, Pushes-written, put-nil}
use aioquic.Buffer.Pulls.{Pushes, rest, rest-advance, InBounds, advance-InBounds}
use aioquic.Buffer.Varint.{Fits, uint_var, pull_uint_var_lem, push_uint_var_lem}
use aioquic.H3.Settings.{
  Settings, push_settings, encode_settings, lookup, is_reserved, parse_from, parse_settings, zeros,
}

-- Settings that can be parsed after those of `before`: none is reserved, none is there twice.
abbrev pub IsParsed : Settings → Settings → Type 0
IsParsed before [] = Unit
IsParsed before ((setting, value) ∷ settings) =
    (is_reserved setting ≡ false)
    × (lookup setting before ≡ none)
    × IsParsed (before ++ ((setting, value) ∷ [])) settings

-- What variable-length integers hold.
abbrev AllFit : Settings → Type 0
AllFit [] = Unit
AllFit ((setting, value) ∷ settings) = Fits setting × Fits value × AllFit settings

abbrev pub setting_bytes : Settings → List ℕ
setting_bytes [] = []
setting_bytes ((setting, value) ∷ settings) =
    uint_var setting ++ (uint_var value ++ setting_bytes settings)

uint_var-filled : (v : ℕ) → Fits v → 0 < length (uint_var v)
uint_var-filled v h = ground arith

push_settings_lem :
    (settings : Settings)
    → AllFit settings
    → Pushes (push_settings settings) (setting_bytes settings)
unfolding push_settings
push_settings_lem [] f = λ b h. ap ok (sym (put-nil b))
push_settings_lem ((setting, value) ∷ settings) (f, g, fs) =
    Pushes-then (λ b. push_uint_var b setting) _ (uint_var setting) _ (push_uint_var_lem setting f)
      (Pushes-then (λ b. push_uint_var b value) _ (uint_var value) _ (push_uint_var_lem value g)
        (push_settings_lem settings fs))

-- Both integers of an item are read, and what is left is what follows them.
record Item (b : Buffer) (setting value : ℕ) (after : List ℕ) : Type 0 where
  c : Buffer
  d : Buffer
  first : pull_uint_var b ≡ ok (setting, c)
  second : pull_uint_var c ≡ ok (value, d)
  left : rest d ≡ after
  bound : InBounds d
  more : eof b ≡ false

item :
    (b : Buffer) (setting value : ℕ) (after : List ℕ)
    → Fits setting
    → Fits value
    → InBounds b
    → rest b ≡ uint_var setting ++ (uint_var value ++ after)
    → Item b setting value after
item b setting value after f g i e =
    let c = advance b (length (uint_var setting)) in
    let left = rest-advance b (uint_var setting) (uint_var value ++ after) e in
    let j = advance-InBounds b (uint_var setting) (uint_var value ++ after) i e in
    record {
      c = c;
      d = advance c (length (uint_var value));
      first = pull_uint_var_lem setting f b (uint_var value ++ after) i e;
      second = pull_uint_var_lem value g c after j left;
      left = rest-advance c (uint_var value) after left;
      bound = advance-InBounds c (uint_var value) after j left;
      more = ground (arith, uint_var-filled setting f, j);
    }

parse_from_lem :
    (settings before : Settings) (fuel : ℕ) (b : Buffer)
    → AllFit settings
    → IsParsed before settings
    → InBounds b
    → rest b ≡ setting_bytes settings
    → length (setting_bytes settings) ≤ fuel
    → parse_from fuel b before ≡ ok (before ++ settings)
unfolding parse_from
parse_from_lem [] before zero b f p i e h = ap ok (sym (append-nil before))
parse_from_lem [] before (suc fuel) b f p i e h =
    let done : eof b ≡ true = ground (arith, ap length e, length-drop b.pos b.memory, i) in
    rw done (ap ok (sym (append-nil before)))
parse_from_lem ((setting, value) ∷ settings) before zero b (f, g, fs) p i e h = absurd (
    omega (
      arith,
      uint_var-filled setting f,
      length-append (uint_var setting) (uint_var value ++ setting_bytes settings),
    ))
parse_from_lem ((setting, value) ∷ settings) before (suc fuel) b (f, g, fs) (r, n, ps) i e h =
    let t = item b setting value (setting_bytes settings) f g i e in
    let enough : length (setting_bytes settings) ≤ fuel = omega (
      arith,
      uint_var-filled setting f,
      length-append (uint_var setting) (uint_var value ++ setting_bytes settings),
      length-append (uint_var value) (setting_bytes settings),
    ) in
    rw (t.more, t.first, t.second, r, n)
      (parse_from_lem settings (before ++ ((setting, value) ∷ [])) fuel t.d fs ps t.bound t.left
          enough
        ∙ ap ok (append_assoc before ((setting, value) ∷ []) settings))

-- Settings that fit a buffer of 1024 bytes, none of them reserved or there twice, are parsed from
-- their encoding as they were, in the same order.
pub parse-encode_settings :
    (settings : Settings)
    → AllFit settings
    → IsParsed [] settings
    → length (setting_bytes settings) ≤ 1024
    → (encode_settings settings >>= parse_settings) ≡ ok settings
unfolding encode_settings parse_settings
parse-encode_settings settings f p h =
    let bytes = setting_bytes settings in
    let made : (push_settings settings (new (zeros 1024)) >>= λ b. ok (written b)) ≡ ok bytes =
      Pushes-written (push_settings settings) bytes (zeros 1024) (push_settings_lem settings f)
        (omega (arith, length-replicate {A = ℕ} 1024 0)) in
    rw made
      (parse_from_lem settings [] (length bytes) (new bytes) f p (omega arith) refl (omega arith))
