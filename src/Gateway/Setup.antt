-- ===== src/Gateway/Setup.antt =====
-- `Provision`: the defaults, the parsed lists, and the first fetch of the keys.
use mathlib.Core.Path.{subst}
use caddy_dynamic_routing.Base.{
  ℕ, ◌≡◌, ◌⊎◌, refl, ap, Bool, true, false, not, ◌||◌, List, [], ◌∷◌, Option, none, some, ◌>>=◌,
  guard, guarded, bind-some, some_inj, Text, bytes, is_nil, str_eq, trim_space, inl, inr, In,
  if◌then◌else◌, length, str_eq→eq,
}
use caddy_dynamic_routing.Base.Int.{ℤ, pos, eq_ℤ}
use caddy_dynamic_routing.Jwks.{
  Decoders, JwksConfig, JwksCache, Reply, new_jwks_cache, refresh_jwks,
}
use caddy_dynamic_routing.Gateway.Lists.{
  parse_prefixes, parse_fingerprints, parse_prefixes_lem, parse_fingerprints_lem, parse_prefixes-In,
  required-In,
}
use caddy_dynamic_routing.Gateway.{Network, GatewayJwt, Allowed}

-- The value of a field, or the default where it is missing
abbrev or_default : Text → Text → Text
or_default s d = if is_nil s then d else s

abbrev or_duration : ℤ → ℤ → ℤ
or_duration x d = if eq_ℤ x (pos 0) then d else x

abbrev or_algs : List Text → List Text
or_algs [] = bytes "RS256" ∷ bytes "ES256" ∷ []
or_algs (a ∷ algs) = a ∷ algs

-- The defaults
unfoldable pub with_defaults : GatewayJwt → GatewayJwt
with_defaults g = record g {
  token_header = or_default g.token_header (bytes "Authorization");
  token_prefix = or_default g.token_prefix (bytes "Bearer ");
  allowed_algs = or_algs g.allowed_algs;
  claim_tenant = or_default g.claim_tenant (bytes "tenant");
  claim_service = or_default g.claim_service (bytes "service");
  claim_version = or_default g.claim_version (bytes "version");
  claim_instance = or_default g.claim_instance (bytes "instance");
  version_key_template = or_default g.version_key_template (bytes "{tenant}/{service}/{version}");
  instance_key_template =
      or_default g.instance_key_template (bytes "{tenant}/{service}/{version}/{instance}");
  version_key_var = or_default g.version_key_var (bytes "route_version_key");
  instance_key_var = or_default g.instance_key_var (bytes "route_instance_key");
  tenant_var = or_default g.tenant_var (bytes "route_tenant");
  service_var = or_default g.service_var (bytes "route_service");
  version_var = or_default g.version_var (bytes "route_version");
  instance_var = or_default g.instance_var (bytes "route_instance");
  jwks_timeout = or_duration g.jwks_timeout (pos 5000000000);
  jwks_refresh_interval = or_duration g.jwks_refresh_interval (pos 600000000000);
}

-- `Validate`
unfoldable pub is_valid_gateway : GatewayJwt → Bool
is_valid_gateway g = not (is_nil g.jwks_url)

module _ (net : Network) where
  -- What is ready to serve
  pub record Provisioned : Type 0 where
    pub gateway : GatewayJwt
    pub allowed : Allowed net
    pub jwks : JwksCache

  abbrev pub jwks_config : GatewayJwt → JwksConfig
  jwks_config g = record {
    scheme = net.url_scheme g.jwks_url;
    allow_insecure = g.allow_insecure_jwks;
    refresh = g.jwks_refresh_interval;
  }

  abbrev is_https : Option Text → Bool
  is_https none = false
  is_https (some scheme) = str_eq scheme (bytes "https")

  abbrev parses : Option Text → Bool
  parses none = false
  parses (some scheme) = true

  -- `Provision`
  unfoldable pub provision : Decoders → (Text → Text → Reply) → ℕ → GatewayJwt → Option Provisioned
  provision decoders server now raw = do
    _ ← guard (not (is_nil raw.jwks_url))
    _ ← guard (parses (net.url_scheme raw.jwks_url))
    _ ← guard (raw.allow_insecure_jwks || is_https (net.url_scheme raw.jwks_url))
    prefixes ← parse_prefixes net raw.trusted_sources
    fps ←
        (if raw.require_mtls
          then parse_fingerprints net raw.allowed_client_cert_sha256
          else some [])
    _ ← guard (refresh_jwks decoders (jwks_config (with_defaults raw)) server now new_jwks_cache).0
    some (record {
      gateway = with_defaults raw;
      allowed = record { trusted_source_prefixes = prefixes; allowed_cert_fp = fps };
      jwks = (refresh_jwks decoders (jwks_config (with_defaults raw)) server now new_jwks_cache).1;
    })

  -- The configuration, as it is served
  pub record IsProvisioned (raw : GatewayJwt) (ready : Provisioned) : Type 0 where
    pub sources :
        (cidr : Text)
        → In cidr raw.trusted_sources
        → is_nil (trim_space cidr) ≡ false
        → (p : net.Prefix) × (net.parse_prefix (trim_space cidr) ≡ some p)
          × In p ready.allowed.trusted_source_prefixes
    pub fingerprints :
        raw.require_mtls ≡ true
        → (hex : Text) → In hex raw.allowed_client_cert_sha256
        → (fp : Text) × (net.decode_hex (trim_space (net.to_lower hex)) ≡ some fp)
          × (length fp ≡ 32)
          × In fp ready.allowed.allowed_cert_fp
    pub no_other_sources :
        (p : net.Prefix)
        → In p ready.allowed.trusted_source_prefixes
        → (cidr : Text) × In cidr raw.trusted_sources
          × (is_nil (trim_space cidr) ≡ false)
          × (net.parse_prefix (trim_space cidr) ≡ some p)
    pub no_other_fingerprints :
        (fp : Text)
        → In fp ready.allowed.allowed_cert_fp
        → (raw.require_mtls ≡ true)
          × ((hex : Text) × In hex raw.allowed_client_cert_sha256
              × (net.decode_hex (trim_space (net.to_lower hex)) ≡ some fp))
    pub secure :
        (raw.allow_insecure_jwks ≡ true) ⊎ (net.url_scheme raw.jwks_url ≡ some (bytes "https"))
    pub required : ready.gateway.require_mtls ≡ raw.require_mtls

  secure_lem :
      (b : Bool) (o : Option Text)
      → (b || is_https o) ≡ true
      → (b ≡ true) ⊎ (o ≡ some (bytes "https"))
  secure_lem true o h = inl refl
  secure_lem false none h = absurd (cc)
  secure_lem false (some scheme) h = inr (ap some (str_eq→eq scheme (bytes "https") h))

  -- A gateway is provisioned only with a JWKS URL over https, unless that is waived. Each of its
  -- trusted sources that is not blank is then parsed into one of the prefixes, and, where a client
  -- certificate is required, each of its fingerprints is decoded to one of 32 bytes; a source or such
  -- a fingerprint that is malformed makes the start fail. No prefix and no fingerprint comes from
  -- elsewhere, and whether a client certificate is required is taken over.
  pub provision-IsProvisioned :
      (decoders : Decoders) (server : Text → Text → Reply) (now : ℕ) (raw : GatewayJwt)
      (ready : Provisioned)
      → provision decoders server now raw ≡ some ready
      → IsProvisioned raw ready
  unfolding provision with_defaults
  provision-IsProvisioned decoders server now raw ready h =
      let tested = raw.allow_insecure_jwks || is_https (net.url_scheme raw.jwks_url) in
      let fetched =
        refresh_jwks decoders (jwks_config (with_defaults raw)) server now new_jwks_cache in
      let (_, _, h1) = bind-some (guard (not (is_nil raw.jwks_url))) _ ready h in
      let (_, _, h2) = bind-some (guard (parses (net.url_scheme raw.jwks_url))) _ ready h1 in
      let (_, s, h3) = bind-some (guard tested) _ ready h2 in
      let (ps, p, h4) = bind-some (parse_prefixes net raw.trusted_sources) _ ready h3 in
      let (fps, f, h5) =
        bind-some
          (if raw.require_mtls
            then parse_fingerprints net raw.allowed_client_cert_sha256
            else some [])
          _ ready h4 in
      let (_, _, h6) = bind-some (guard fetched.0) _ ready h5 in
      let made : record {
        gateway = with_defaults raw;
        allowed = record { trusted_source_prefixes = ps; allowed_cert_fp = fps };
        jwks = fetched.1;
      }
          ≡ ready =
        some_inj h6 in
      subst (IsProvisioned raw) made (record {
        sources = λ cidr m n. parse_prefixes_lem net raw.trusted_sources ps cidr p m n;
        fingerprints = λ r hex m.
            parse_fingerprints_lem net raw.allowed_client_cert_sha256 fps hex (rw r at f) m;
        no_other_sources = λ q m. parse_prefixes-In net raw.trusted_sources ps q p m;
        no_other_fingerprints =
            λ fp m. required-In net raw.require_mtls raw.allowed_client_cert_sha256 fps fp f m;
        secure =
            secure_lem raw.allow_insecure_jwks (net.url_scheme raw.jwks_url) (guarded tested s);
        required = refl;
      })
