-- ===== src/Packet/TransportParameters/Reading.antt =====
-- The loop over transport parameters reads what was written (src/aioquic/quic/packet.py).
use aioquic.Base.{
  ℕ, zero, suc, ◌+◌, ◌-◌, ◌≤◌, ◌<◌, ◌≡◌, refl, ap, sym, ◌∙◌, arith, true, false, inl, inr,
  Option-cases, Option, some, List, [], ◌∷◌, ◌++◌, ◌==◌, length, length-append, length-drop,
  append_assoc,
}
use mathlib.Core.Path.{subst}
use aioquic.Base.Exception.{ok}
use aioquic.Buffer.{Buffer, eof, tell, advance}
use aioquic.Buffer.Pulls.{Pulls, rest, rest-advance, InBounds, advance-InBounds, Pulls-ok}
use aioquic.Buffer.Varint.{Fits, uint_var, pull_uint_var_lem}
use aioquic.Packet.TransportParameters.{
  ParamType, Value, QuicTransportParameters, params, type_of, set_param, pull_value, pull_typed,
  pull_param, pull_params,
}
use aioquic.Packet.TransportParameters.Values.{value_type, IsValue, value_bytes, pull_value_lem}
use aioquic.Packet.TransportParameters.Writing.{AllParams, all_bytes, AllFit, set_all, Known}

pull_param_lem :
    (param_id : ℕ) (value : Value) (acc : QuicTransportParameters)
    → type_of params param_id ≡ some (value_type value)
    → IsValue value
    → Pulls
        (pull_param param_id (length (value_bytes value)) acc)
        (value_bytes value)
        (set_param acc param_id value)
unfolding pull_param
pull_param_lem param_id value acc k v =
    subst
      (λ (t : Option ParamType).
        Pulls (pull_typed t param_id (length (value_bytes value)) acc) (value_bytes value)
          (set_param acc param_id value))
      (sym k)
      (Pulls-ok (pull_value (value_type value) (length (value_bytes value)))
        (λ w. set_param acc param_id w) (value_bytes value) value (pull_value_lem value v))

uint_var_filled : (v : ℕ) → Fits v → 0 < length (uint_var v)
uint_var_filled v h = ground arith

more_left : (b : Buffer) (n : ℕ) → 0 < n → b.pos + n ≤ length b.memory → eof b ≡ false
more_left b n h k = ground (arith, h, k)

pub equal_self : (n : ℕ) → (n == n) ≡ true
equal_self n = ground arith

-- The buffer after one parameter, and the round that reads it.
pub record Read (b : Buffer) (param_id : ℕ) (value : Value) (acc : QuicTransportParameters)
    (after : List ℕ) : Type 0 where
  pub c : Buffer
  pub left : rest c ≡ after
  pub bound : InBounds c
  pub round :
      (rounds : ℕ)
      → pull_params (suc rounds) acc b ≡ pull_params rounds (set_param acc param_id value) c

pub read :
    (b : Buffer) (param_id : ℕ) (value : Value) (acc : QuicTransportParameters) (after : List ℕ)
    → Fits param_id
    → type_of params param_id ≡ some (value_type value)
    → IsValue value
    → length (value_bytes value) ≤ 65536
    → InBounds b
    → rest b
      ≡ uint_var param_id ++ (uint_var (length (value_bytes value)) ++ (value_bytes value ++ after))
    → Read b param_id value acc after
unfolding pull_params
read b param_id value acc after f k v l i e =
    let bytes = value_bytes value in
    let c = advance b (length (uint_var param_id)) in
    let d = advance c (length (uint_var (length bytes))) in
    let e1 = rest-advance b (uint_var param_id) (uint_var (length bytes) ++ (bytes ++ after)) e in
    let i1 =
      advance-InBounds b (uint_var param_id) (uint_var (length bytes) ++ (bytes ++ after)) i e in
    let e2 = rest-advance c (uint_var (length bytes)) (bytes ++ after) e1 in
    let i2 = advance-InBounds c (uint_var (length bytes)) (bytes ++ after) i1 e1 in
    let more : eof b ≡ false =
      more_left b (length (uint_var param_id)) (uint_var_filled param_id f) i1 in
    let whole : (tell (advance d (length bytes)) == (tell d + length bytes)) ≡ true =
      equal_self (tell d + length bytes) in
    record {
      c = advance d (length bytes);
      left = rest-advance d bytes after e2;
      bound = advance-InBounds d bytes after i2 e2;
      round = λ rounds.
          rw
            (
              more,
              pull_uint_var_lem param_id f b (uint_var (length bytes) ++ (bytes ++ after)) i e,
              pull_uint_var_lem (length bytes) (omega arith) c (bytes ++ after) i1 e1,
              pull_param_lem param_id value acc k v d after i2 e2,
              whole,
            )
            refl;
    }

-- A parameter takes a round.
fewer :
    (param_id : ℕ) (value : Value) (after : List ℕ) (rounds : ℕ)
    → Fits param_id
    → length (
        (uint_var param_id ++ (uint_var (length (value_bytes value)) ++ value_bytes value))
        ++ after)
      ≤ rounds
    → (r : ℕ) × (rounds ≡ suc r) × (length after ≤ r)
fewer param_id value after rounds f h =
    let bytes = value_bytes value in
    let front = uint_var (length bytes) ++ bytes in
    let one = uint_var_filled param_id f in
    let sum = length-append (uint_var param_id ++ front) after in
    let part = length-append (uint_var param_id) front in
    (rounds - 1, omega (arith, h, one, sum, part), omega (arith, h, one, sum, part))

pub pull_params_lem :
    (ids : List (ℕ × ParamType)) (p acc : QuicTransportParameters) (rounds : ℕ) (b : Buffer)
    → AllFit ids
    → Known ids
    → AllParams ids p
    → InBounds b
    → rest b ≡ all_bytes ids p
    → length (all_bytes ids p) ≤ rounds
    → pull_params rounds acc b ≡ ok (set_all ids p acc)
unfolding pull_params
pull_params_lem [] p acc zero b f k v i e h = refl
pull_params_lem [] p acc (suc rounds) b f k v i e h =
    let done : eof b ≡ true = ground (arith, ap length e, length-drop b.pos b.memory, i) in
    rw done refl
pull_params_lem ((param_id, param_type) ∷ ids) p acc rounds b (f, fs) (k, ks) (v, vs) i e h =
    elim (Option-cases (p param_id)) [
      | inl n ↦ rw n (pull_params_lem ids p acc rounds b fs ks vs i (rw n at e) (rw n at h))
      | inr (value, n) ↦
          let (t, w, l) = rw n at v in
          let bytes = value_bytes value in
          let r = read b param_id value acc (all_bytes ids p) f (k ∙ ap some (sym t)) w l i (
            (rw n at e)
            ∙ append_assoc (uint_var param_id) (uint_var (length bytes) ++ bytes) (all_bytes ids p)
            ∙ ap (λ xs. uint_var param_id ++ xs)
                (append_assoc (uint_var (length bytes)) bytes (all_bytes ids p))) in
          let size = fewer param_id value (all_bytes ids p) rounds f (rw n at h) in
          rw (n, size.1)
            (r.round size.0
              ∙ pull_params_lem ids p (set_param acc param_id value) size.0 r.c fs ks vs r.bound
                  r.left size.2)
    ]
