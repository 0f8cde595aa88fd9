-- ===== src/Jwks.antt =====
-- gateway_jwt.go: the set of public keys (JWKS) that tokens are checked with, its parsing and its
-- refreshes. The decoders, the curves and the server are parameters; a time is a number of
-- nanoseconds, and 0 is the zero time.
pub mod Exponent
pub mod Keys
pub mod Refresh
use caddy_dynamic_routing.Base.{
  ℕ, suc, ◌+◌, ◌-◌, ◌*◌, ◌==◌, Bool, true, false, List, [], ◌∷◌, Option, none, some, ◌>>=◌, guard,
  Text, bytes, is_nil, not, ◌&&◌, ◌||◌, if◌then◌else◌, ltb, leb, str_eq,
}
use caddy_dynamic_routing.Base.Int.{ℤ, pos, negsuc, ◌+ℤ◌, ◌*ℤ◌, eq_ℤ}
use caddy_dynamic_routing.Base.Maps.{load}
use caddy_dynamic_routing.Json.{
  Json, text, array, object, other, Items, nil, item, Fields, lookup, as_text,
}

pub data Curve : Type 0 where
  p256 p384 p521 : Curve

pub data PublicKey : Type 0 where
  rsa : ℕ → ℤ → PublicKey
  ec : Curve → ℕ → ℕ → PublicKey

-- `json.Unmarshal` into a map, `base64.RawURLEncoding.DecodeString`, and `Curve.IsOnCurve`
pub record Decoders : Type 0 where
  pub json_object : Text → Option Fields
  pub base64 : Text → Option Text
  pub is_on_curve : Curve → ℕ → ℕ → Bool

-- `parseECCurve`
unfoldable pub parse_ec_curve : Text → Option Curve
parse_ec_curve crv =
    if str_eq crv (bytes "P-256")
    then some p256
    else if str_eq crv (bytes "P-384")
    then some p384
    else if str_eq crv (bytes "P-521")
    then some p521
    else none

-- `big.Int.SetBytes`, on top of the number that the bytes before make
unfoldable pub set_bytes : ℕ → Text → ℕ
set_bytes n [] = n
set_bytes n (b ∷ s) = set_bytes (256 * n + b) s

-- The loop over the bytes of the exponent, an `int`; a shift by 8 is a product that wraps around.
unfoldable pub exponent : ℤ → Text → ℤ
exponent e [] = e
exponent e (b ∷ s) = exponent ((e *ℤ pos 256) +ℤ pos b) s

-- The text of a field, which is empty where it is none
abbrev pub text_of : Text → Fields → Text
text_of name jwk = as_text (lookup name jwk)

-- `parseRSAJWK`
unfoldable pub parse_rsa_jwk : Decoders → Fields → Option PublicKey
parse_rsa_jwk decoders jwk = do
  _ ← guard (not (is_nil (text_of (bytes "n") jwk) || is_nil (text_of (bytes "e") jwk)))
  n_bytes ← decoders.base64 (text_of (bytes "n") jwk)
  e_bytes ← decoders.base64 (text_of (bytes "e") jwk)
  _ ← guard (not (eq_ℤ (exponent (pos 0) e_bytes) (pos 0)))
  _ ← guard (not (set_bytes 0 n_bytes == 0))
  some (rsa (set_bytes 0 n_bytes) (exponent (pos 0) e_bytes))

-- `parseECJWK`; a coordinate is not negative.
unfoldable pub parse_ec_jwk : Decoders → Fields → Option PublicKey
parse_ec_jwk decoders jwk = do
  _ ← guard (
      not (
        is_nil (text_of (bytes "crv") jwk)
        || (is_nil (text_of (bytes "x") jwk) || is_nil (text_of (bytes "y") jwk))))
  x_bytes ← decoders.base64 (text_of (bytes "x") jwk)
  y_bytes ← decoders.base64 (text_of (bytes "y") jwk)
  curve ← parse_ec_curve (text_of (bytes "crv") jwk)
  _ ← guard (decoders.is_on_curve curve (set_bytes 0 x_bytes) (set_bytes 0 y_bytes))
  some (ec curve (set_bytes 0 x_bytes) (set_bytes 0 y_bytes))

-- `jwkToPublicKey`
unfoldable pub jwk_to_public_key : Decoders → Fields → Option PublicKey
jwk_to_public_key decoders jwk =
    let kty = text_of (bytes "kty") jwk in
    let rsa_key = parse_rsa_jwk decoders jwk in
    let ec_key = parse_ec_jwk decoders jwk in
    if str_eq kty (bytes "RSA") then rsa_key else if str_eq kty (bytes "EC") then ec_key else none

-- The keys by their IDs, the last insertion first
abbrev pub KeyMap : Type 0
KeyMap = List (Text × PublicKey)

-- An item of the set: none where it is passed over, else its ID and its key, if it has a good one
unfoldable pub parse_item : Decoders → Json → Option (Text × Option PublicKey)
parse_item decoders (object m) =
    if is_nil (text_of (bytes "kid") m) || is_nil (text_of (bytes "kty") m)
    then none
    else some (text_of (bytes "kid") m, jwk_to_public_key decoders m)
parse_item decoders _ = none

-- The loop over the items
unfoldable pub parse_items : Decoders → KeyMap → Items → Option KeyMap
parse_items decoders out nil = some out
parse_items decoders out (item j rest) =
    let skipped = parse_items decoders out rest in
    elim (parse_item decoders j) [
      | none ↦ skipped
      | some found ↦ elim found.1 [
        | none ↦ none
        | some key ↦ parse_items decoders ((found.0, key) ∷ out) rest
      ]
    ]

-- `parseJWKSKeysByKID`
unfoldable pub parse_keys_field : Decoders → Option Json → Option KeyMap
parse_keys_field decoders (some (array items)) = parse_items decoders [] items
parse_keys_field decoders _ = none

unfoldable pub parse_jwks_keys_by_kid : Decoders → Text → Option KeyMap
parse_jwks_keys_by_kid decoders body = do
  raw ← decoders.json_object body
  parse_keys_field decoders (lookup (bytes "keys") raw)

-- The scheme of the URL, missing where the URL does not parse
pub record JwksConfig : Type 0 where
  pub scheme : Option Text
  pub allow_insecure : Bool
  pub refresh : ℤ

pub record JwksCache : Type 0 where
  pub keys_by_kid : KeyMap
  pub last_fetched : ℕ
  pub etag : Text
  pub last_modified : Text
  pub next_refresh_at : ℕ

-- `newJWKSCache`
abbrev pub new_jwks_cache : JwksCache
new_jwks_cache = record {
  keys_by_kid = [];
  last_fetched = 0;
  etag = [];
  last_modified = [];
  next_refresh_at = 0;
}

-- What a request to the server comes to: no response, or one whose body may fail to be read
pub data Reply : Type 0 where
  unreachable : Reply
  answered : ℕ → Option Text → Text → Text → Reply

-- `shouldRefresh`
unfoldable pub should_refresh : ℕ → JwksCache → Bool
should_refresh now c = c.next_refresh_at == 0 || ltb c.next_refresh_at now

-- `now.Add(d)`
abbrev pub add_time : ℕ → ℤ → ℕ
add_time now (pos d) = now + d
add_time now (negsuc d) = now - suc d

abbrev pub is_empty : KeyMap → Bool
is_empty [] = true
is_empty (_ ∷ _) = false

-- The keys of a response that are taken over: not from an error, nor an empty set
unfoldable pub usable_keys : Decoders → ℕ → Option Text → Option KeyMap
usable_keys decoders status none = none
usable_keys decoders status (some body) = do
  _ ← guard (leb 200 status && ltb status 300)
  keys ← parse_jwks_keys_by_kid decoders body
  _ ← guard (not (is_empty keys))
  some keys

-- What `Refresh` makes of the server's reply: whether it succeeds, and the cache
unfoldable pub use_reply : Decoders → ℤ → ℕ → Reply → JwksCache → Bool × JwksCache
use_reply decoders interval now unreachable c = (false, c)
use_reply decoders interval now (answered status body new_etag new_last_mod) c =
    if status == 304
    then (true, record c { last_fetched = now; next_refresh_at = add_time now interval })
    else (elim (usable_keys decoders status body) [
      | none ↦ (false, c)
      | some keys ↦ (
        true,
        record {
          keys_by_kid = keys;
          last_fetched = now;
          etag = new_etag;
          last_modified = new_last_mod;
          next_refresh_at = add_time now interval;
        },
      )
    ])

-- The check of the URL
unfoldable pub is_url_allowed : JwksConfig → Bool
is_url_allowed conf = elim conf.scheme [
  | none ↦ false
  | some scheme ↦ conf.allow_insecure || str_eq scheme (bytes "https")
]

-- `Refresh`, at the time `now`; the server is asked with the values of the conditional headers.
unfoldable pub refresh_jwks :
    Decoders → JwksConfig → (Text → Text → Reply) → ℕ → JwksCache → Bool × JwksCache
refresh_jwks decoders conf server now c =
    let refreshed = use_reply decoders conf.refresh now (server c.etag c.last_modified) c in
    if not (should_refresh now c)
    then (true, c)
    else if not (is_url_allowed conf)
    then (false, c)
    else refreshed

-- The key of a token with an ID that the set does not have yet
unfoldable pub key_of_unknown :
    Decoders
    → JwksConfig
    → (Text → Text → Reply)
    → ℕ
    → Text
    → JwksCache
    → Option PublicKey × JwksCache
key_of_unknown decoders conf server now kid c =
    let (ok, after) = refresh_jwks decoders conf server now c in
    (if ok then load kid after.keys_by_kid else none, after)

unfoldable pub all_named : Text → KeyMap → Bool
all_named kid [] = true
all_named kid ((j, key) ∷ keys) = str_eq j kid && all_named kid keys

-- The only key of the set; a map counts an ID once.
unfoldable pub only_key : KeyMap → Option PublicKey
only_key [] = none
only_key ((kid, key) ∷ keys) = if all_named kid keys then some key else none

-- `KeyForToken`, for the text of the token's header `kid`
unfoldable pub key_for_token :
    Decoders
    → JwksConfig
    → (Text → Text → Reply)
    → ℕ
    → Text
    → JwksCache
    → Option PublicKey × JwksCache
key_for_token decoders conf server now kid c =
    if is_nil kid then (only_key c.keys_by_kid, c) else (elim (load kid c.keys_by_kid) [
      | some key ↦ (some key, c)
      | none ↦ key_of_unknown decoders conf server now kid c
    ])
