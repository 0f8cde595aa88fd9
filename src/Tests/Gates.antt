-- ===== src/Tests/Gates.antt =====
-- Tests of gateway_jwt.go.
use caddy_dynamic_routing.Base.{
  ◌≡◌, ◌⊎◌, refl, ap, arith, Bool, true, false, [], ◌∷◌, none, some, Text, bytes, str_eq,
  has_prefix, contains, trim_space, In,
}
use caddy_dynamic_routing.Base.Int.{pos, ◌+ℤ◌, ◌*ℤ◌}
use caddy_dynamic_routing.Base.Maps.{load}
use caddy_dynamic_routing.Base.Replace.{replace_all}
use caddy_dynamic_routing.Json.{text, array, object, nil, item, Fields, no_field, field, lookup}
use caddy_dynamic_routing.Jwks.{
  Decoders, PublicKey, rsa, JwksConfig, JwksCache, KeyMap, Reply, answered, new_jwks_cache,
  parse_jwks_keys_by_kid, parse_keys_field, parse_items, parse_item, jwk_to_public_key,
  parse_rsa_jwk, parse_ec_jwk, set_bytes, exponent, refresh_jwks, use_reply, usable_keys,
  should_refresh, is_url_allowed, key_for_token,
}
use caddy_dynamic_routing.Jwks.Keys.{IsKey, parse_jwks-IsKey}
use caddy_dynamic_routing.Jwks.Refresh.{
  IsTrusted, IsRefreshed, key_for_token-IsTrusted, refresh_jwks-refresh_jwks,
}
use caddy_dynamic_routing.Gateway.{
  Network, Jwt, GatewayJwt, Request, Visit, serve_http, render_key_template, render_with,
}
use caddy_dynamic_routing.Gateway.Serve.{IsRight, serve_http-IsRight}
use caddy_dynamic_routing.Gateway.Lists.{parse_prefixes, parse_fingerprints}
use caddy_dynamic_routing.Gateway.Setup.{
  provision, with_defaults, Provisioned, IsProvisioned, provision-IsProvisioned,
}

-- An address is a text, a prefix the beginning of one, and a fingerprint what is hashed.
abbrev net : Network
net = record {
  Addr = Text;
  Prefix = Text;
  split_host = λ t. none;
  parse_addr = λ t. some t;
  parse_prefix = λ t. some t;
  contains_addr = λ p a. has_prefix a p;
  sum256 = λ t. t;
  decode_hex = λ t. some t;
  to_lower = λ t. t;
  url_scheme = λ t. some (bytes "https");
}

abbrev jwk : Fields
jwk = field (bytes "kid") (text (bytes "k1")) (
    field (bytes "kty") (text (bytes "RSA"))
      (field (bytes "n") (text (bytes "N")) (field (bytes "e") (text (bytes "E")) no_field)))

-- Every body is a set of the one key, and base64 is left as it is.
abbrev decoders : Decoders
decoders = record {
  json_object = λ body. some (field (bytes "keys") (array (item (object jwk) nil)) no_field);
  base64 = λ t. some t;
  is_on_curve = λ c x y. true;
}

abbrev one_key : KeyMap
one_key = (bytes "k1", rsa 78 (pos 69)) ∷ []

parse_jwks_test : parse_jwks_keys_by_kid decoders [] ≡ some one_key
unfolding parse_jwks_keys_by_kid parse_keys_field parse_items parse_item jwk_to_public_key
    parse_rsa_jwk parse_ec_jwk set_bytes exponent lookup str_eq ◌+ℤ◌ ◌*ℤ◌
parse_jwks_test = refl

parse_jwks-IsKey_example :
    (raw : Fields) × (items : _) × (decoders.json_object [] ≡ some raw)
    × (lookup (bytes "keys") raw ≡ some (array items))
    × ((entry : Text × PublicKey) → In entry one_key → IsKey decoders items entry)
parse_jwks-IsKey_example = parse_jwks-IsKey decoders [] one_key parse_jwks_test

abbrev conf : JwksConfig
conf = record { scheme = some (bytes "https"); allow_insecure = false; refresh = pos 100 }

abbrev server : Text → Text → Reply
server tag modified = answered 200 (some []) (bytes "v1") []

abbrev down : Text → Text → Reply
down tag modified = answered 500 none [] []

-- The cache after a first refresh
abbrev filled : JwksCache
filled = record {
  keys_by_kid = one_key;
  last_fetched = 5;
  etag = bytes "v1";
  last_modified = [];
  next_refresh_at = 105;
}

refresh_test : refresh_jwks decoders conf server 5 new_jwks_cache ≡ (true, filled)
unfolding refresh_jwks should_refresh is_url_allowed use_reply usable_keys parse_jwks_keys_by_kid
    parse_keys_field parse_items parse_item jwk_to_public_key parse_rsa_jwk parse_ec_jwk set_bytes
    exponent lookup str_eq ◌+ℤ◌ ◌*ℤ◌
refresh_test = refl

key_for_token-IsTrusted_example :
    ((key : PublicKey)
      → (key_for_token decoders conf server 5 (bytes "k1") new_jwks_cache).0 ≡ some key
      → IsTrusted
          (bytes "k1")
          key
          (key_for_token decoders conf server 5 (bytes "k1") new_jwks_cache).1)
    × (((bytes "k1" ≡ []) ⊎ (load {V = PublicKey} (bytes "k1") [] ≡ none → ⊥))
        → (key_for_token decoders conf server 5 (bytes "k1") new_jwks_cache).1 ≡ new_jwks_cache)
    × ((ok : Bool) × IsRefreshed decoders new_jwks_cache
          (ok, (key_for_token decoders conf server 5 (bytes "k1") new_jwks_cache).1))
key_for_token-IsTrusted_example =
    key_for_token-IsTrusted decoders conf server 5 (bytes "k1") new_jwks_cache

refresh_jwks-refresh_jwks_example :
    refresh_jwks decoders conf down 60 (refresh_jwks decoders conf server 5 new_jwks_cache).1
    ≡ (true, (refresh_jwks decoders conf server 5 new_jwks_cache).1)
unfolding should_refresh
refresh_jwks-refresh_jwks_example =
    refresh_jwks-refresh_jwks decoders (some (bytes "https")) false 100 5 60 server down
      new_jwks_cache refl (omega arith) (omega arith) (ap (λ p. p.0) refresh_test)

abbrev claims : Fields
claims = field (bytes "tenant") (text (bytes "t")) (
    field (bytes "service") (text (bytes "s"))
      (field (bytes "version") (text (bytes "v")) no_field))

-- Every token names the key, and is signed.
abbrev jwt : Jwt
jwt = record {
  key_id = λ algs token. some (bytes "k1");
  claims = λ leeway now key token. some claims;
}

abbrev raw : GatewayJwt
raw = record {
  jwks_url = bytes "https://idp/keys";
  issuer = [];
  audiences = [];
  allowed_algs = [];
  leeway = pos 0;
  token_header = [];
  token_prefix = [];
  optional = false;
  trusted_sources = bytes "10." ∷ [];
  require_mtls = false;
  allowed_client_cert_sha256 = [];
  claim_tenant = [];
  claim_service = [];
  claim_version = [];
  claim_instance = [];
  version_key_template = [];
  instance_key_template = [];
  key_prefix = [];
  version_key_var = [];
  instance_key_var = [];
  tenant_var = [];
  service_var = [];
  version_var = [];
  instance_var = [];
  jwks_refresh_interval = pos 100;
  jwks_timeout = pos 0;
  allow_insecure_jwks = false;
}

abbrev ready : Provisioned net
ready = record {
  gateway = with_defaults raw;
  allowed = record { trusted_source_prefixes = bytes "10." ∷ []; allowed_cert_fp = [] };
  jwks = filled;
}

provision_test : provision net decoders server 5 raw ≡ some ready
unfolding provision parse_prefixes parse_fingerprints with_defaults refresh_jwks should_refresh
    is_url_allowed use_reply usable_keys parse_jwks_keys_by_kid parse_keys_field parse_items
    parse_item jwk_to_public_key parse_rsa_jwk parse_ec_jwk set_bytes exponent lookup str_eq
    trim_space ◌+ℤ◌ ◌*ℤ◌
provision_test = refl

provision-IsProvisioned_example : IsProvisioned net raw ready
provision-IsProvisioned_example =
    provision-IsProvisioned net decoders server 5 raw ready provision_test

abbrev request : Request
request = record { remote_addr = bytes "10.0.0.1"; header = λ name. bytes "Bearer abc"; tls = none }

abbrev as_given : Visit
as_given vars = vars

serve_http-IsRight_example :
    IsRight net decoders jwt 6 as_given ready.gateway ready.allowed request (
      serve_http net decoders jwt conf server 6 as_given ready.gateway ready.allowed request filled)
serve_http-IsRight_example =
    serve_http-IsRight net decoders jwt conf server 6 as_given ready.gateway ready.allowed request
      filled

-- The order in which the map of claims is visited shows where a claim has a placeholder for its value.
render_test :
    (render_key_template
        (bytes "{tenant}/{service}")
        ((bytes "tenant", bytes "{service}") ∷ (bytes "service", bytes "s") ∷ [])
      ≡ some (bytes "s/s"))
    × (render_key_template
          (bytes "{tenant}/{service}")
          ((bytes "service", bytes "s") ∷ (bytes "tenant", bytes "{service}") ∷ [])
        ≡ none)
unfolding render_key_template render_with replace_all contains has_prefix trim_space
render_test = (refl, refl)
