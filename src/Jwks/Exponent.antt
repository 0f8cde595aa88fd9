-- ===== src/Jwks/Exponent.antt =====
-- `parseRSAJWK`: the modulus and the exponent of a key.
use caddy_dynamic_routing.Base.{
  ℕ, ◌+◌, ◌*◌, ◌<◌, ◌≤◌, ◌==◌, ◌≡◌, ◌≢◌, refl, sym, ap, ◌∙◌, not, ◌||◌, [], ◌∷◌, some, guard,
  bind-some, guarded, some_inj, Text, bytes, is_nil, arith,
}
use caddy_dynamic_routing.Base.Int.{pos, int_limit, ◌+ℤ◌, ◌*ℤ◌, *ℤ-pos, +ℤ-pos, eq_ℤ}
use caddy_dynamic_routing.Json.{Fields}
use caddy_dynamic_routing.Jwks.{
  Decoders, PublicKey, rsa, set_bytes, exponent, text_of, parse_rsa_jwk,
}

le-set_bytes : (s : Text) (n : ℕ) → n ≤ set_bytes n s
unfolding set_bytes
le-set_bytes [] n = omega arith
le-set_bytes (b ∷ s) n = omega (arith, le-set_bytes s (256 * n + b))

exponent-set_bytes :
    (s : Text) (n : ℕ) → set_bytes n s < int_limit → exponent (pos n) s ≡ pos (set_bytes n s)
unfolding exponent set_bytes
exponent-set_bytes [] n h = refl
exponent-set_bytes (b ∷ s) n h =
    let bound = le-set_bytes s (256 * n + b) in
    let step : (pos n *ℤ pos 256) +ℤ pos b ≡ pos (256 * n + b) =
      ap (λ z. z +ℤ pos b) (*ℤ-pos n 256 (omega (arith, bound, h)))
      ∙ +ℤ-pos (n * 256) b (omega (arith, bound, h))
      ∙ ap pos (omega arith) in
    ap (λ z. exponent z s) step ∙ exponent-set_bytes s (256 * n + b) h

-- The texts of the fields, decoded, and the numbers that they spell
pub record IsRsa (decoders : Decoders) (jwk : Fields) (key : PublicKey) : Type 0 where
  pub modulus : Text
  pub power : Text
  pub decoded_modulus : decoders.base64 (text_of (bytes "n") jwk) ≡ some modulus
  pub decoded_power : decoders.base64 (text_of (bytes "e") jwk) ≡ some power
  pub built : key ≡ rsa (set_bytes 0 modulus) (exponent (pos 0) power)
  pub positive : 0 < set_bytes 0 modulus
  pub nonzero : exponent (pos 0) power ≢ pos 0
  pub exact :
      set_bytes 0 power < int_limit → key ≡ rsa (set_bytes 0 modulus) (pos (set_bytes 0 power))

-- An RSA key that is accepted has for its modulus the number that the decoded bytes of "n" spell, and
-- it is not zero, nor is the exponent, which is the number that the bytes of "e" spell wherever that is
-- below 2 ^ 63. (A longer exponent wraps around.)
pub parse_rsa_jwk-IsRsa :
    (decoders : Decoders) (jwk : Fields) (key : PublicKey)
    → parse_rsa_jwk decoders jwk ≡ some key
    → IsRsa decoders jwk key
unfolding parse_rsa_jwk
parse_rsa_jwk-IsRsa decoders jwk key h =
    let (_, _, h1) =
      bind-some (guard (not (is_nil (text_of (bytes "n") jwk) || is_nil (text_of (bytes "e") jwk))))
        _ key h in
    let (n_bytes, d_n, h2) = bind-some (decoders.base64 (text_of (bytes "n") jwk)) _ key h1 in
    let (e_bytes, d_e, h3) = bind-some (decoders.base64 (text_of (bytes "e") jwk)) _ key h2 in
    let (_, g_e, h4) = bind-some (guard (not (eq_ℤ (exponent (pos 0) e_bytes) (pos 0)))) _ key h3 in
    let (_, g_n, h5) = bind-some (guard (not (set_bytes 0 n_bytes == 0))) _ key h4 in
    let made : key ≡ rsa (set_bytes 0 n_bytes) (exponent (pos 0) e_bytes) = sym (some_inj h5) in
    let tested_e = guarded (not (eq_ℤ (exponent (pos 0) e_bytes) (pos 0))) g_e in
    let tested_n = guarded (not (set_bytes 0 n_bytes == 0)) g_n in
    record {
      modulus = n_bytes;
      power = e_bytes;
      decoded_modulus = d_n;
      decoded_power = d_e;
      built = made;
      positive = ground arith;
      nonzero = λ e. absurd (cc (tested_e, ap (λ z. not (eq_ℤ z (pos 0))) e));
      exact = λ k. made ∙ ap (λ z. rsa (set_bytes 0 n_bytes) z) (exponent-set_bytes e_bytes 0 k);
    }
