-- ===== src/Gateway/Guards.antt =====
-- `ServeHTTP`: the requests whose source and client certificate are good.
use mathlib.Core.Path.{subst}
use caddy_dynamic_routing.Base.{
  ◌<◌, ◌≡◌, ◌⊎◌, ◌↔◌, refl, sym, true, false, List, [], ◌∷◌, some, some_inj, Text, inl, inr, Any,
  In, Bool-cases, Option-cases, ltb, ltb→lt, lt→ltb,
}
use caddy_dynamic_routing.Base.Texts.{has, has→In, In→has}
use caddy_dynamic_routing.Gateway.{
  Network, GatewayJwt, Tls, Request, has_verified_client_cert, Allowed, remote_ip, any_contains,
  is_source_allowed, any_fingerprint, is_fingerprint_allowed, is_cert_allowed,
}

List-cases : {A : Type 0} (xs : List A) → (xs ≡ []) ⊎ ((x : A) × (ys : List A) × (xs ≡ x ∷ ys))
List-cases [] = inl refl
List-cases (x ∷ xs) = inr (x, xs, refl)

module _ (net : Network) where
  -- The source is trusted: there is no list, or one of its prefixes has the parsed address.
  abbrev pub IsSource : Allowed net → Request → Type 0
  IsSource allowed r =
      (allowed.trusted_source_prefixes ≡ [])
      ⊎ ((ip : net.Addr) × (remote_ip net r ≡ some ip)
          × Any (λ p. net.contains_addr p ip ≡ true) allowed.trusted_source_prefixes)

  -- The client certificate is good: none is required, or the connection has a verified chain and,
  -- where there is a list of fingerprints, one of its certificates is on it.
  abbrev pub IsCertified : GatewayJwt → Allowed net → Request → Type 0
  IsCertified g allowed r =
      (g.require_mtls ≡ false)
      ⊎ ((tls : Tls) × (r.tls ≡ some tls)
          × (0 < tls.verified_chains)
          × ((allowed.allowed_cert_fp ≡ [])
              ⊎ Any (λ raw. In (net.sum256 raw) allowed.allowed_cert_fp) tls.peer_certificates))

  any_contains_lem :
      (ip : net.Addr) (ps : List net.Prefix)
      → any_contains net ip ps ≡ true
      → Any (λ p. net.contains_addr p ip ≡ true) ps
  unfolding any_contains
  any_contains_lem ip [] h = absurd (cc)
  any_contains_lem ip (p ∷ ps) h = elim (Bool-cases (net.contains_addr p ip)) [
    | inl e ↦ inl e
    | inr e ↦ inr (any_contains_lem ip ps (rw (any_contains, e) at h))
  ]

  contains-Any :
      (ip : net.Addr) (ps : List net.Prefix)
      → Any (λ p. net.contains_addr p ip ≡ true) ps
      → any_contains net ip ps ≡ true
  unfolding any_contains
  contains-Any ip [] h = absurd h
  contains-Any ip (p ∷ ps) (inl e) = rw (any_contains, e) refl
  contains-Any ip (p ∷ ps) (inr m) = elim (Bool-cases (net.contains_addr p ip)) [
    | inl e ↦ rw (any_contains, e) refl
    | inr e ↦ rw (any_contains, e) (contains-Any ip ps m)
  ]

  any_fingerprint_lem :
      (fps certs : List Text)
      → any_fingerprint net fps certs ≡ true
      → Any (λ raw. In (net.sum256 raw) fps) certs
  unfolding any_fingerprint
  any_fingerprint_lem fps [] h = absurd (cc)
  any_fingerprint_lem fps (raw ∷ certs) h = elim (Bool-cases (has (net.sum256 raw) fps)) [
    | inl e ↦ inl (has→In (net.sum256 raw) fps e)
    | inr e ↦ inr (any_fingerprint_lem fps certs (rw (any_fingerprint, e) at h))
  ]

  fingerprint-Any :
      (fps certs : List Text)
      → Any (λ raw. In (net.sum256 raw) fps) certs
      → any_fingerprint net fps certs ≡ true
  unfolding any_fingerprint
  fingerprint-Any fps [] h = absurd h
  fingerprint-Any fps (raw ∷ certs) (inl m) =
      let known : has (net.sum256 raw) fps ≡ true = In→has (net.sum256 raw) fps m in
      rw (any_fingerprint, known) refl
  fingerprint-Any fps (raw ∷ certs) (inr m) = elim (Bool-cases (has (net.sum256 raw) fps)) [
    | inl e ↦ rw (any_fingerprint, e) refl
    | inr e ↦ rw (any_fingerprint, e) (fingerprint-Any fps certs m)
  ]

  pub source_lem :
      (allowed : Allowed net) (r : Request)
      → (is_source_allowed net allowed r ≡ true) ↔ IsSource allowed r
  unfolding is_source_allowed
  source_lem allowed r = elim (List-cases allowed.trusted_source_prefixes) [
    | inl e ↦ rw (is_source_allowed, e) (λ h. inl refl, λ h. refl)
    | inr (p, ps, e) ↦ elim (Option-cases (remote_ip net r)) [
      | inl f ↦
          rw (is_source_allowed, e, f)
            (
              λ h. absurd (cc),
              λ h. elim h [ inl n ↦ absurd (cc) | inr (ip, n, m) ↦ absurd (cc (n)) ],
            )
      | inr (ip, f) ↦
          rw (is_source_allowed, e, f)
            (
              λ h. inr (ip, refl, any_contains_lem ip (p ∷ ps) h),
              λ h. elim h [
                | inl n ↦ absurd (cc)
                | inr (ip', n, m) ↦ contains-Any ip (p ∷ ps) (
                    subst (λ i. Any (λ q. net.contains_addr q i ≡ true) (p ∷ ps)) (sym (some_inj n))
                      m)
              ],
            )
    ]
  ]

  -- The fingerprints of the certificates of a connection
  fingerprints_lem :
      (fps certs : List Text)
      → (is_fingerprint_allowed net fps certs ≡ true)
        ↔ ((fps ≡ []) ⊎ Any (λ raw. In (net.sum256 raw) fps) certs)
  unfolding is_fingerprint_allowed
  fingerprints_lem [] certs = (λ h. inl refl, λ h. refl)
  fingerprints_lem (fp ∷ fps) certs = (
    λ h. inr (any_fingerprint_lem (fp ∷ fps) certs h),
    λ h. elim h [ inl n ↦ absurd (cc (n)) | inr m ↦ fingerprint-Any (fp ∷ fps) certs m ],
  )

  pub cert_lem :
      (g : GatewayJwt) (allowed : Allowed net) (r : Request)
      → (is_cert_allowed net g allowed r ≡ true) ↔ IsCertified g allowed r
  unfolding is_cert_allowed has_verified_client_cert
  cert_lem g allowed r = elim (Bool-cases g.require_mtls) [
    | inr e ↦ rw (is_cert_allowed, e) (λ h. inl refl, λ h. refl)
    | inl e ↦ elim (Option-cases r.tls) [
      | inl f ↦
          rw (is_cert_allowed, e, f)
            (
              λ h. absurd (cc),
              λ h. elim h [ inl n ↦ absurd (cc (n)) | inr (tls, n, k, m) ↦ absurd (cc (n)) ],
            )
      | inr (tls, f) ↦ elim (Bool-cases (ltb 0 tls.verified_chains)) [
        | inl v ↦
            let fingers = fingerprints_lem allowed.allowed_cert_fp tls.peer_certificates in
            rw (is_cert_allowed, e, f, v)
              (
                λ h. inr (tls, refl, ltb→lt 0 tls.verified_chains v, fingers.0 h),
                λ h. elim h [
                  | inl n ↦ absurd (cc (n))
                  | inr (tls', n, k, m) ↦ fingers.1 (
                      subst
                        (λ t.
                          (allowed.allowed_cert_fp ≡ [])
                          ⊎ Any (λ raw. In (net.sum256 raw) allowed.allowed_cert_fp)
                              t.peer_certificates)
                        (sym (some_inj n)) m)
                ],
              )
        | inr v ↦
            rw (is_cert_allowed, e, f, v)
              (
                λ h. absurd (cc),
                λ h. elim h [
                  | inl n ↦ absurd (cc (n))
                  | inr (tls', n, k, m) ↦
                      let k' : 0 < tls.verified_chains =
                        subst (λ t. 0 < t.verified_chains) (sym (some_inj n)) k in
                      absurd (cc (v, lt→ltb 0 tls.verified_chains k'))
                ],
              )
      ]
    ]
  ]

  abbrev pub IsAdmitted : GatewayJwt → Allowed net → Request → Type 0
  IsAdmitted g allowed r = IsSource allowed r × IsCertified g allowed r
