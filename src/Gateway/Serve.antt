-- ===== src/Gateway/Serve.antt =====
-- `ServeHTTP`: which requests reach the next handler, and with what status the others are refused.
use caddy_dynamic_routing.Base.{
  ℕ, ◌≡◌, ◌⊎◌, refl, true, List, Option, none, some, ◌>>=◌, bind-some, Text, inl, inr, Bool-cases,
  Option-cases,
}
use caddy_dynamic_routing.Json.{Fields}
use caddy_dynamic_routing.Jwks.{Decoders, PublicKey, JwksConfig, JwksCache, Reply, key_for_token}
use caddy_dynamic_routing.Jwks.Refresh.{IsTrusted, key_for_token-IsTrusted}
use caddy_dynamic_routing.Gateway.{
  Network, Jwt, GatewayJwt, Request, Outcome, passed, forwarded, refused, extract_token, Visit,
  route_vars, outcome_of, Allowed, is_source_allowed, is_cert_allowed, serve_token, serve_http,
}
use caddy_dynamic_routing.Gateway.Claims.{IsRouted, route_vars-IsRouted}
use caddy_dynamic_routing.Gateway.Guards.{IsAdmitted, source_lem, cert_lem}

module _ (net : Network) where
  -- What a token is accepted for
  pub record IsAccepted (decoders : Decoders) (jwt : Jwt) (now : ℕ) (visit : Visit) (g : GatewayJwt)
      (token : Text) (after : JwksCache) (vars : List (Text × Option Text)) : Type 0 where
    pub kid : Text
    pub key : PublicKey
    pub claims : Fields
    pub named : jwt.key_id g.allowed_algs token ≡ some kid
    pub trusted : IsTrusted kid key after
    pub verified : jwt.claims g.leeway now key token ≡ some claims
    pub routed : IsRouted g visit claims vars

  -- What an outcome tells of the request and of the keys behind it
  abbrev pub IsRight :
      Decoders → Jwt → ℕ → Visit → GatewayJwt → Allowed net → Request → Outcome × JwksCache → Type 0
  IsRight decoders jwt now visit g allowed r (passed, after) =
      IsAdmitted net g allowed r
      × (g.optional ≡ true)
      × (extract_token g.token_header g.token_prefix r.header ≡ none)
  IsRight decoders jwt now visit g allowed r (forwarded vars, after) =
      IsAdmitted net g allowed r
      × ((token : Text) × (extract_token g.token_header g.token_prefix r.header ≡ some token)
          × IsAccepted decoders jwt now visit g token after vars)
  IsRight decoders jwt now visit g allowed r (refused status, after) =
      ((status ≡ 403) × (IsAdmitted net g allowed r → ⊥))
      ⊎ ((status ≡ 401) × IsAdmitted net g allowed r)

  token_outcome :
      (decoders : Decoders) (jwt : Jwt) (now : ℕ) (visit : Visit) (g : GatewayJwt)
      (allowed : Allowed net) (r : Request) (token kid : Text) (after : JwksCache)
      (key? : Option PublicKey)
      → IsAdmitted net g allowed r
      → extract_token g.token_header g.token_prefix r.header ≡ some token
      → jwt.key_id g.allowed_algs token ≡ some kid
      → ((key : PublicKey) → key? ≡ some key → IsTrusted kid key after)
      → (o : Option (List (Text × Option Text)))
      → (do key ← key?; claims ← jwt.claims g.leeway now key token; route_vars g visit claims) ≡ o
      → IsRight decoders jwt now visit g allowed r (outcome_of o, after)
  token_outcome decoders jwt now visit g allowed r token kid after key? a t n trust none h =
      inr (refl, a)
  token_outcome decoders jwt now visit g allowed r token kid after key? a t n trust (some vars) h =
      let (key, k, h1) = bind-some key? _ vars h in
      let (claims, c, h2) = bind-some (jwt.claims g.leeway now key token) _ vars h1 in
      let accepted : IsAccepted decoders jwt now visit g token after vars = record {
        kid = kid;
        key = key;
        claims = claims;
        named = n;
        trusted = trust key k;
        verified = c;
        routed = route_vars-IsRouted g visit claims vars h2;
      } in
      (a, (token, t, accepted))

  -- `ServeHTTP`. A request reaches the next handler only from a trusted source and with a good client
  -- certificate, where these are asked for; and with a token that is signed with a key of the
  -- set, valid, and of the issuer, for the audience and with the claims asked for, from which its
  -- variables are made, or, where tokens are optional, without any token and then with no
  -- variable set. Every other request is refused: with 403 if its source or its certificate is not
  -- good, and with 401 otherwise.
  pub serve_http-IsRight :
      (decoders : Decoders) (jwt : Jwt) (conf : JwksConfig) (server : Text → Text → Reply) (now : ℕ)
      (visit : Visit) (g : GatewayJwt) (allowed : Allowed net) (r : Request) (c : JwksCache)
      → IsRight decoders jwt now visit g allowed r
          (serve_http net decoders jwt conf server now visit g allowed r c)
  unfolding serve_http serve_token
  serve_http-IsRight decoders jwt conf server now visit g allowed r c =
      elim (Bool-cases (is_source_allowed net allowed r)) [
        | inr e ↦
            rw (serve_http, e) (inl (refl, λ a. absurd (cc (e, (source_lem net allowed r).1 a.0))))
        | inl e ↦ elim (Bool-cases (is_cert_allowed net g allowed r)) [
          | inr f ↦
              rw (serve_http, e, f)
                (inl (refl, λ a. absurd (cc (f, (cert_lem net g allowed r).1 a.1))))
          | inl f ↦
              let a : IsAdmitted net g allowed r =
                ((source_lem net allowed r).0 e, (cert_lem net g allowed r).0 f) in
              elim (Option-cases (extract_token g.token_header g.token_prefix r.header)) [
                | inl t ↦ elim (Bool-cases g.optional) [
                  | inl o ↦ rw (serve_http, e, f, t, o) (a, refl, t)
                  | inr o ↦ rw (serve_http, e, f, t, o) (inr (refl, a))
                ]
                | inr (token, t) ↦ elim (Option-cases (jwt.key_id g.allowed_algs token)) [
                  | inl n ↦ rw (serve_http, e, f, t, serve_token, n) (inr (refl, a))
                  | inr (kid, n) ↦
                      let after : JwksCache = (key_for_token decoders conf server now kid c).1 in
                      rw (serve_http, e, f, t, serve_token, n)
                        (token_outcome decoders jwt now visit g allowed r token kid after
                          (key_for_token decoders conf server now kid c).0 a t n
                          (key_for_token-IsTrusted decoders conf server now kid c).0 _ refl)
                ]
              ]
        ]
      ]
