-- ===== src/Gateway/Lists.antt =====
-- `Provision`: the lists of trusted sources and of fingerprints, parsed.
use mathlib.Core.Path.{subst}
use caddy_dynamic_routing.Base.{
  ◌==◌, ◌≡◌, refl, sym, ap, ◌∙◌, Bool, true, false, List, [], ◌∷◌, Option, some, ◌>>=◌, guard,
  guarded, bind-some, some_inj, Text, is_nil, trim_space, inl, inr, In, Bool-cases, if◌then◌else◌,
  length, ==_iff,
}
use caddy_dynamic_routing.Gateway.{Network}

module _ (net : Network) where
  -- The loop over the trusted sources, which passes over blank ones
  unfoldable pub parse_prefixes : List Text → Option (List net.Prefix)
  parse_prefixes [] = some []
  parse_prefixes (cidr ∷ cidrs) =
      let rest = parse_prefixes cidrs in
      if is_nil (trim_space cidr)
      then rest
      else (do p ← net.parse_prefix (trim_space cidr); ps ← rest; some (p ∷ ps))

  -- The loop over the fingerprints
  unfoldable pub parse_fingerprints : List Text → Option (List Text)
  parse_fingerprints [] = some []
  parse_fingerprints (hex_fp ∷ fps) = do
    fp ← net.decode_hex (trim_space (net.to_lower hex_fp))
    _ ← guard (length fp == 32)
    rest ← parse_fingerprints fps
    some (fp ∷ rest)

  -- A trusted source that is not blank is parsed, into one of the prefixes.
  pub parse_prefixes_lem :
      (cidrs : List Text) (ps : List net.Prefix) (cidr : Text)
      → parse_prefixes cidrs ≡ some ps
      → In cidr cidrs
      → is_nil (trim_space cidr) ≡ false
      → (p : net.Prefix) × (net.parse_prefix (trim_space cidr) ≡ some p) × In p ps
  unfolding parse_prefixes
  parse_prefixes_lem [] ps cidr h m n = absurd m
  parse_prefixes_lem (c ∷ cidrs) ps cidr h m n = elim (Bool-cases (is_nil (trim_space c))) [
    | inl e ↦ elim m [
      | inl p ↦ absurd (cc (e, n, p))
      | inr k ↦ parse_prefixes_lem cidrs ps cidr (rw (parse_prefixes, e) at h) k n
    ]
    | inr e ↦
        let (q, d, h1) =
          bind-some (net.parse_prefix (trim_space c)) _ ps (rw (parse_prefixes, e) at h) in
        let (qs, r, h2) = bind-some (parse_prefixes cidrs) _ ps h1 in
        let same : q ∷ qs ≡ ps = some_inj h2 in
        elim m [
          | inl p ↦ (
            q,
            ap (λ t. net.parse_prefix (trim_space t)) (sym p) ∙ d,
            subst (In q) same (inl refl),
          )
          | inr k ↦
              let (p, f, l) = parse_prefixes_lem cidrs qs cidr r k n in
              (p, f, subst (In p) same (inr l))
        ]
  ]

  pub parse_fingerprints_lem :
      (hexes fps : List Text) (hex : Text)
      → parse_fingerprints hexes ≡ some fps
      → In hex hexes
      → (fp : Text) × (net.decode_hex (trim_space (net.to_lower hex)) ≡ some fp)
        × (length fp ≡ 32)
        × In fp fps
  unfolding parse_fingerprints
  parse_fingerprints_lem [] fps hex h m = absurd m
  parse_fingerprints_lem (x ∷ hexes) fps hex h m =
      let (fp, d, h1) = bind-some (net.decode_hex (trim_space (net.to_lower x))) _ fps h in
      let (_, g, h2) = bind-some (guard (length fp == 32)) _ fps h1 in
      let (rest, r, h3) = bind-some (parse_fingerprints hexes) _ fps h2 in
      let same : fp ∷ rest ≡ fps = some_inj h3 in
      elim m [
        | inl p ↦ (
          fp,
          ap (λ t. net.decode_hex (trim_space (net.to_lower t))) (sym p) ∙ d,
          (==_iff (length fp) 32).0 (guarded (length fp == 32) g),
          subst (In fp) same (inl refl),
        )
        | inr k ↦
            let (q, f, n, l) = parse_fingerprints_lem hexes rest hex r k in
            (q, f, n, subst (In q) same (inr l))
      ]

  -- And there are no other prefixes and no other fingerprints.
  pub parse_prefixes-In :
      (cidrs : List Text) (ps : List net.Prefix) (p : net.Prefix)
      → parse_prefixes cidrs ≡ some ps
      → In p ps
      → (cidr : Text) × In cidr cidrs
        × (is_nil (trim_space cidr) ≡ false)
        × (net.parse_prefix (trim_space cidr) ≡ some p)
  unfolding parse_prefixes
  parse_prefixes-In [] ps p h m =
      let none_there : In p [] = subst (In p) (sym (some_inj h)) m in absurd none_there
  parse_prefixes-In (c ∷ cidrs) ps p h m = elim (Bool-cases (is_nil (trim_space c))) [
    | inl e ↦
        let (cidr, i, n, d) = parse_prefixes-In cidrs ps p (rw (parse_prefixes, e) at h) m in
        (cidr, inr i, n, d)
    | inr e ↦
        let (q, d, h1) =
          bind-some (net.parse_prefix (trim_space c)) _ ps (rw (parse_prefixes, e) at h) in
        let (qs, r, h2) = bind-some (parse_prefixes cidrs) _ ps h1 in
        let there : In p (q ∷ qs) = subst (In p) (sym (some_inj h2)) m in
        elim there [
          | inl s ↦ (c, inl refl, e, d ∙ ap some s)
          | inr k ↦ let (cidr, i, n, f) = parse_prefixes-In cidrs qs p r k in (cidr, inr i, n, f)
        ]
  ]

  parse_fingerprints-In :
      (hexes fps : List Text) (fp : Text)
      → parse_fingerprints hexes ≡ some fps
      → In fp fps
      → (hex : Text) × In hex hexes × (net.decode_hex (trim_space (net.to_lower hex)) ≡ some fp)
  unfolding parse_fingerprints
  parse_fingerprints-In [] fps fp h m =
      let none_there : In fp [] = subst (In fp) (sym (some_inj h)) m in absurd none_there
  parse_fingerprints-In (x ∷ hexes) fps fp h m =
      let (q, d, h1) = bind-some (net.decode_hex (trim_space (net.to_lower x))) _ fps h in
      let (_, g, h2) = bind-some (guard (length q == 32)) _ fps h1 in
      let (rest, r, h3) = bind-some (parse_fingerprints hexes) _ fps h2 in
      let there : In fp (q ∷ rest) = subst (In fp) (sym (some_inj h3)) m in
      elim there [
        | inl s ↦ (x, inl refl, d ∙ ap some s)
        | inr k ↦ let (hex, i, f) = parse_fingerprints-In hexes rest fp r k in (hex, inr i, f)
      ]

  pub required-In :
      (b : Bool) (hexes fps : List Text) (fp : Text)
      → (if b then parse_fingerprints hexes else some []) ≡ some fps
      → In fp fps
      → (b ≡ true)
        × ((hex : Text) × In hex hexes × (net.decode_hex (trim_space (net.to_lower hex)) ≡ some fp))
  required-In true hexes fps fp h m = (refl, parse_fingerprints-In hexes fps fp h m)
  required-In false hexes fps fp h m =
      let none_there : In fp [] = subst (In fp) (sym (some_inj h)) m in absurd none_there
