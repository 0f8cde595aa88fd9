-- ===== src/Config/Parse/Outcome.antt =====
-- What a parsed configuration is like, and when parsing fails.
use caddy_dynamic_routing.Base.{
  ◌≡◌, refl, sym, map, ◌&&◌, ◌==◌, ◌≢◌, ◌⊎◌, inl, inr, false, List, [], ◌∷◌, Option, none, some,
  arith, Text, Option-cases, Bool-cases, trim_space, is_nil,
}
use caddy_dynamic_routing.Base.Sort.{SortSlice}
use caddy_dynamic_routing.Config.{Rule, RouteConfig, higher, default_weights, normalize_config}
use mathlib.Core.List.{Permᴰ}
use mathlib.Core.Path.{subst}
use caddy_dynamic_routing.Config.Normal.{IsNormal, normalize_config-IsNormal}
use caddy_dynamic_routing.Config.Parse.{
  Format, auto, json, yaml, simple, ok, Decoders, no_rules, plain, finish, decode, resolve_format,
  format_of, parse_with_format,
}

-- A configuration that can route something
abbrev pub IsUsable : RouteConfig → Type 0
IsUsable c = (c.upstream ≢ []) ⊎ (c.rules ≢ [])

plain-IsNormal : (u : Text) → IsNormal (plain u)
plain-IsNormal u = record { ordered = tt; weighted = tt }

eq-nil_of_perm : {xs ys : List Rule} → Permᴰ xs ys → ys ≡ [] → xs ≡ []
eq-nil_of_perm Permᴰ.nil h = refl
eq-nil_of_perm (Permᴰ.cons e p) h = absurd (cc)
eq-nil_of_perm (Permᴰ.swap e f) h = absurd (cc)
eq-nil_of_perm (Permᴰ.trans p q) h = eq-nil_of_perm p (eq-nil_of_perm q h)

eq-nil_of_map : (rs : List Rule) → map default_weights rs ≡ [] → rs ≡ []
eq-nil_of_map [] h = refl
eq-nil_of_map (r ∷ rs) h = absurd (cc)

normalize_config-IsUsable :
    (s : SortSlice Rule) (b : RouteConfig) → IsUsable b → IsUsable (normalize_config s b)
unfolding normalize_config
normalize_config-IsUsable s b (inl u) = inl u
normalize_config-IsUsable s b (inr r) =
    inr (λ e. r (eq-nil_of_perm (s.sort-perm higher b.rules) (eq-nil_of_map _ e)))

-- What a successful parse gives: a configuration that is normal, and usable unless `empty` holds.
abbrev pub Outcome : Type 0 → RouteConfig → Type 0
Outcome empty c = IsNormal c × (IsUsable c ⊎ empty)

IsUsable-of_test : (b : RouteConfig) → (is_nil b.upstream && no_rules b.rules) ≡ false → IsUsable b
IsUsable-of_test b h = ground arith

module _ (d : Decoders) (s : SortSlice Rule) where
  finish-Outcome :
      (E : Type 0) (f : Format) (o : Option RouteConfig) {c : RouteConfig}
      → finish d s f o ≡ ok (some c)
      → Outcome E c
  unfolding finish
  finish-Outcome E f none h = absurd (cc)
  finish-Outcome E f (some b) {c} h = elim (Bool-cases (is_nil b.upstream && no_rules b.rules)) [
    | inl e ↦ absurd (ground arith)
    | inr e ↦
        let same : normalize_config s b ≡ c = ground arith in
        subst (Outcome E) same (
          (normalize_config-IsNormal s b).0,
          inl (normalize_config-IsUsable s b (IsUsable-of_test b e)),
        )
  ]

  -- The exception: JSON's empty string
  abbrev pub EmptyString : Text → RouteConfig → Type 0
  EmptyString raw c = (d.json_string raw ≡ some []) × (c ≡ plain [])

  plain-Outcome :
      (raw u : Text) {c : RouteConfig}
      → d.json_string raw ≡ some u
      → ok (some (plain u)) ≡ ok (some c)
      → Outcome (EmptyString raw c) c
  plain-Outcome raw [] {c} h e =
      let same : plain [] ≡ c = ground arith in
      (subst IsNormal same (plain-IsNormal []), inr (h, sym same))
  plain-Outcome raw (x ∷ u) {c} h e =
      let same : plain (x ∷ u) ≡ c = ground arith in
      subst (Outcome _) same (plain-IsNormal (x ∷ u), inl (inl (λ z. cc)))

  plain_result-Outcome :
      (raw t : Text) {c : RouteConfig}
      → t ≢ []
      → ok (some (plain t)) ≡ ok (some c)
      → Outcome (EmptyString raw c) c
  plain_result-Outcome raw t {c} k h =
      let same : plain t ≡ c = ground arith in
      subst (Outcome _) same (plain-IsNormal t, inl (inl k))

  decode-Outcome :
      (f : Format) (raw trimmed : Text) {c : RouteConfig}
      → trimmed ≢ []
      → decode d s f raw trimmed ≡ ok (some c)
      → Outcome (EmptyString raw c) c
  unfolding decode
  decode-Outcome json raw [] k h = absurd (k refl)
  decode-Outcome json raw (x ∷ t) k h = elim (Bool-cases (x == 34)) [
    | inl e ↦ elim (Option-cases (d.json_string raw)) [
      | inl n ↦ finish-Outcome _ json (d.json_config raw) (ground arith)
      | inr (u, m) ↦ plain-Outcome raw u m (ground arith)
    ]
    | inr e ↦ finish-Outcome _ json (d.json_config raw) (ground arith)
  ]
  decode-Outcome yaml raw t k h = finish-Outcome _ yaml (d.yaml_config raw) h
  decode-Outcome simple raw t k h = plain_result-Outcome raw t k h
  decode-Outcome auto raw t k h = plain_result-Outcome raw t k h

  -- A configuration that parsing returns, in whatever format, has its rules in order of priority and
  -- a positive weight on every upstream, and it names an upstream or has a rule; the one exception
  -- is JSON's empty string, which gives the configuration with neither.
  pub parse_with_format_lem :
      (raw format : Text) (c : RouteConfig)
      → parse_with_format d s raw format ≡ ok (some c)
      → IsNormal c × (IsUsable c ⊎ ((d.json_string raw ≡ some []) × (c ≡ plain [])))
  unfolding parse_with_format
  parse_with_format_lem raw format c h = elim (Bool-cases (is_nil (trim_space raw))) [
    | inl e ↦ absurd (ground arith)
    | inr e ↦
        decode-Outcome (resolve_format (format_of format) (trim_space raw)) raw (trim_space raw)
          (λ n. ground arith) (ground arith)
  ]
