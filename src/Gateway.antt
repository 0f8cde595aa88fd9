-- ===== src/Gateway.antt =====
-- gateway_jwt.go: the middleware that admits a request by its source, its client certificate and its
-- token, and turns the token's claims into the variables that routing reads. Addresses, hashes and
-- the JWT library are parameters; the tokens' keys are those of Jwks.
pub mod Guards
pub mod Claims
pub mod Serve
pub mod Lists
pub mod Setup
use caddy_dynamic_routing.Base.{
  ℕ, ◌-◌, ◌==◌, Bool, true, false, List, [], ◌∷◌, ◌++◌, Option, none, some, ◌>>=◌, guard, Text,
  bytes, is_nil, str_eq, not, ◌&&◌, ◌||◌, if◌then◌else◌, ltb, length, contains, has_prefix,
  trim_prefix, trim_space,
}
use caddy_dynamic_routing.Base.Int.{ℤ, pos, eq_ℤ}
use caddy_dynamic_routing.Base.Replace.{replace_all}
use caddy_dynamic_routing.Base.Texts.{has}
use caddy_dynamic_routing.Json.{
  Json, text, array, object, other, Items, nil, item, Fields, lookup, as_text,
}
use caddy_dynamic_routing.Jwks.{
  Decoders, PublicKey, JwksConfig, JwksCache, Reply, new_jwks_cache, refresh_jwks, key_for_token,
}

-- net.SplitHostPort's host, net/netip, sha256.Sum256, hex.DecodeString, strings.ToLower, and the
-- scheme that url.Parse finds
pub record Network : Type 1 where
  pub Addr : Type 0
  pub Prefix : Type 0
  pub split_host : Text → Option Text
  pub parse_addr : Text → Option Addr
  pub parse_prefix : Text → Option Prefix
  pub contains_addr : Prefix → Addr → Bool
  pub sum256 : Text → Text
  pub decode_hex : Text → Option Text
  pub to_lower : Text → Text
  pub url_scheme : Text → Option Text

-- `jwt.ParseWithClaims` before and after it asks for the key: the text of the header "kid" of a token
-- that has the form of one and an allowed method; and the claims of a token that is signed with the
-- key and valid at the time, with the leeway.
pub record Jwt : Type 0 where
  pub key_id : List Text → Text → Option Text
  pub claims : ℤ → ℕ → PublicKey → Text → Option Fields

-- The fields that the configuration gives
pub record GatewayJwt : Type 0 where
  pub jwks_url : Text
  pub issuer : Text
  pub audiences : List Text
  pub allowed_algs : List Text
  pub leeway : ℤ
  pub token_header : Text
  pub token_prefix : Text
  pub optional : Bool
  pub trusted_sources : List Text
  pub require_mtls : Bool
  pub allowed_client_cert_sha256 : List Text
  pub claim_tenant : Text
  pub claim_service : Text
  pub claim_version : Text
  pub claim_instance : Text
  pub version_key_template : Text
  pub instance_key_template : Text
  pub key_prefix : Text
  pub version_key_var : Text
  pub instance_key_var : Text
  pub tenant_var : Text
  pub service_var : Text
  pub version_var : Text
  pub instance_var : Text
  pub jwks_refresh_interval : ℤ
  pub jwks_timeout : ℤ
  pub allow_insecure_jwks : Bool

-- `tls.ConnectionState`: the number of verified chains, and the certificates' bytes
pub record Tls : Type 0 where
  pub verified_chains : ℕ
  pub peer_certificates : List Text

pub record Request : Type 0 where
  pub remote_addr : Text
  pub header : Text → Text
  pub tls : Option Tls

-- The next handler runs as for any request, or with variables set, in order, a missing value for nil;
-- or the request is refused with a status.
pub data Outcome : Type 0 where
  passed : Outcome
  forwarded : List (Text × Option Text) → Outcome
  refused : ℕ → Outcome

-- `extractToken`, where a missing token is none
unfoldable pub extract_token : Text → Text → (Text → Text) → Option Text
extract_token token_header token_prefix header =
    let v = trim_space (header token_header) in
    let rest = trim_space (trim_prefix v token_prefix) in
    if is_nil v
    then none
    else if not (is_nil token_prefix)
    then (if not (has_prefix v token_prefix) then none else if is_nil rest then none else some rest)
    else some v

-- `hasVerifiedClientCert`
unfoldable pub has_verified_client_cert : Option Tls → Bool
has_verified_client_cert none = false
has_verified_client_cert (some tls) = ltb 0 tls.verified_chains

-- The loop of `audienceAllowed` over an array
unfoldable pub any_audience : Items → List Text → Bool
any_audience nil allowed = false
any_audience (item (text s) rest) allowed =
    let later = any_audience rest allowed in if has s allowed then true else later
any_audience (item _ rest) allowed = any_audience rest allowed

-- `audienceAllowed`
unfoldable pub audience_allowed : Option Json → List Text → Bool
audience_allowed aud [] = true
audience_allowed (some (text v)) (a ∷ allowed) = has v (a ∷ allowed)
audience_allowed (some (array v)) (a ∷ allowed) = any_audience v (a ∷ allowed)
audience_allowed _ (a ∷ allowed) = false

-- `claimStringRequired`: the claim as it is, though it is tested without its white space
unfoldable pub claim_string_required : Fields → Text → Option Text
claim_string_required claims key =
    let s = as_text (lookup key claims) in
    if is_nil key then none else if is_nil (trim_space s) then none else some s

-- `claimStringOptional`: the claim without its white space, empty where it is missing
unfoldable pub claim_string_optional : Fields → Text → Text
claim_string_optional claims key =
    if is_nil key then [] else trim_space (as_text (lookup key claims))

-- The loop of `renderKeyTemplate` over the map, in the order in which it is visited
unfoldable pub render_with : List (Text × Text) → Text → Text
render_with [] out = out
render_with ((k, v) ∷ vars) out =
    render_with vars (replace_all out (bytes "{" ++ (k ++ bytes "}")) v)

-- `renderKeyTemplate`
unfoldable pub render_key_template : Text → List (Text × Text) → Option Text
render_key_template tmpl vars =
    let out = render_with vars tmpl in
    if is_nil (trim_space tmpl)
    then none
    else if contains out (bytes "{") || contains out (bytes "}")
    then none
    else some out

-- The instance's key, which is empty where there is no instance
unfoldable pub render_instance : Text → Text → List (Text × Text) → Option Text
render_instance tmpl instance_claim vars =
    let rendered = render_key_template tmpl vars in
    if is_nil instance_claim then some [] else rendered

abbrev pub with_prefix : Text → Text → Text
with_prefix prefix key = if is_nil key then [] else prefix ++ key

-- `iss, _ := claims["iss"].(string)`, and the test of it
unfoldable pub is_issued_by : Text → Option Json → Bool
is_issued_by issuer iss = str_eq (as_text iss) issuer

-- The order in which a map is visited
abbrev pub Visit : Type 0
Visit = List (Text × Text) → List (Text × Text)

-- `ServeHTTP` from the claims to the variables; none stands for the status 401.
unfoldable pub route_vars : GatewayJwt → Visit → Fields → Option (List (Text × Option Text))
route_vars g visit claims = do
  _ ← guard (is_nil g.issuer || is_issued_by g.issuer (lookup (bytes "iss") claims))
  _ ← guard (audience_allowed (lookup (bytes "aud") claims) g.audiences)
  tenant ← claim_string_required claims g.claim_tenant
  service ← claim_string_required claims g.claim_service
  version ← claim_string_required claims g.claim_version
  version_key ← render_key_template g.version_key_template (
      visit
        ((bytes "tenant", tenant) ∷ (bytes "service", service) ∷ (bytes "version", version) ∷ []))
  instance_key ←
      render_instance g.instance_key_template (claim_string_optional claims g.claim_instance) (
        visit (
          (bytes "tenant", tenant)
          ∷ (bytes "service", service)
          ∷ (bytes "version", version)
          ∷ (bytes "instance", claim_string_optional claims g.claim_instance)
          ∷ []))
  some (
      (g.tenant_var, some tenant)
      ∷ (g.service_var, some service)
      ∷ (g.version_var, some version)
      ∷ (g.instance_var, some (claim_string_optional claims g.claim_instance))
      ∷ (g.version_key_var, some (g.key_prefix ++ version_key))
      ∷ (
        g.instance_key_var,
        if is_nil instance_key then none else some (with_prefix g.key_prefix instance_key),
      )
      ∷ [])

-- The end of a checked request
abbrev pub outcome_of : Option (List (Text × Option Text)) → Outcome
outcome_of none = refused 401
outcome_of (some vars) = forwarded vars

module _ (net : Network) where
  -- What `Provision` makes of the lists of the configuration
  pub record Allowed : Type 0 where
    pub trusted_source_prefixes : List net.Prefix
    pub allowed_cert_fp : List Text

  -- `remoteIP`
  unfoldable pub remote_ip : Request → Option net.Addr
  remote_ip r =
      let host = trim_space r.remote_addr in
      let parsed = net.parse_addr (elim (net.split_host host) [ some h ↦ h | none ↦ host ]) in
      if is_nil host then none else parsed

  -- The loop over the prefixes
  unfoldable pub any_contains : net.Addr → List net.Prefix → Bool
  any_contains ip [] = false
  any_contains ip (p ∷ ps) =
      let rest = any_contains ip ps in if net.contains_addr p ip then true else rest

  -- The check of the source
  unfoldable pub is_source_allowed : Allowed → Request → Bool
  is_source_allowed allowed r = elim allowed.trusted_source_prefixes [
    | [] ↦ true
    | p ∷ ps ↦ elim (remote_ip r) [ none ↦ false | some ip ↦ any_contains ip (p ∷ ps) ]
  ]

  -- The loop over the certificates
  unfoldable pub any_fingerprint : List Text → List Text → Bool
  any_fingerprint fps [] = false
  any_fingerprint fps (raw ∷ rest) =
      let later = any_fingerprint fps rest in if has (net.sum256 raw) fps then true else later

  unfoldable pub is_fingerprint_allowed : List Text → List Text → Bool
  is_fingerprint_allowed [] certs = true
  is_fingerprint_allowed (fp ∷ fps) certs = any_fingerprint (fp ∷ fps) certs

  abbrev pub certificates : Option Tls → List Text
  certificates none = []
  certificates (some tls) = tls.peer_certificates

  -- The check of the client certificate
  unfoldable pub is_cert_allowed : GatewayJwt → Allowed → Request → Bool
  is_cert_allowed g allowed r =
      let checked = is_fingerprint_allowed allowed.allowed_cert_fp (certificates r.tls) in
      if not g.require_mtls
      then true
      else if not (has_verified_client_cert r.tls)
      then false
      else checked

  -- `ServeHTTP` for a token, at the time `now`: the key may be fetched from the server.
  unfoldable pub serve_token :
      Decoders
      → Jwt
      → JwksConfig
      → (Text → Text → Reply)
      → ℕ
      → Visit
      → GatewayJwt
      → Text
      → JwksCache
      → Outcome × JwksCache
  serve_token decoders jwt conf server now visit g token c =
      elim (jwt.key_id g.allowed_algs token) [
        | none ↦ (refused 401, c)
        | some kid ↦
            let (key?, after) = key_for_token decoders conf server now kid c in
            (
              outcome_of (do
                key ← key?
                claims ← jwt.claims g.leeway now key token
                route_vars g visit claims),
              after,
            )
      ]

  -- `ServeHTTP`
  unfoldable pub serve_http :
      Decoders
      → Jwt
      → JwksConfig
      → (Text → Text → Reply)
      → ℕ
      → Visit
      → GatewayJwt
      → Allowed
      → Request
      → JwksCache
      → Outcome × JwksCache
  serve_http decoders jwt conf server now visit g allowed r c =
      let checked : Outcome × JwksCache =
        elim (extract_token g.token_header g.token_prefix r.header) [
          | none ↦ (if g.optional then passed else refused 401, c)
          | some token ↦ serve_token decoders jwt conf server now visit g token c
        ] in
      if not (is_source_allowed allowed r)
      then (refused 403, c)
      else if not (is_cert_allowed g allowed r)
      then (refused 403, c)
      else checked
