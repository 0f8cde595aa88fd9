-- ===== src/Upstreams/Addresses.antt =====
-- `configToUpstreams`: each address once.
use caddy_dynamic_routing.Base.{
  ◌≡◌, ◌⊎◌, ◌↔◌, false, List, [], ◌∷◌, ◌++◌, Text, is_nil, inl, inr, In, Any, map, Bool-cases,
  if◌then◌else◌, In-append, In-append_left, In-append_right,
}
use caddy_dynamic_routing.Base.Texts.{IsDistinct, dedupe_lem}
use caddy_dynamic_routing.Config.{RouteConfig, Rule, WeightedUpstream}
use caddy_dynamic_routing.Upstreams.{rule_addresses, config_to_upstreams}

-- An upstream of the list, or of a rule, has the address.
abbrev pub IsListed : Text → List WeightedUpstream → Type 0
IsListed x us = Any (λ u. u.address ≡ x) us

abbrev pub IsRouted : Text → List Rule → Type 0
IsRouted x rules = Any (λ r. IsListed x r.upstreams) rules

In-map : (x : Text) (us : List WeightedUpstream) → In x (map (λ u. u.address) us) ↔ IsListed x us
In-map x [] = (λ m. m, λ m. m)
In-map x (u ∷ us) = (
  λ m. elim m [ inl e ↦ inl e | inr n ↦ inr ((In-map x us).0 n) ],
  λ m. elim m [ inl e ↦ inl e | inr n ↦ inr ((In-map x us).1 n) ],
)

In-rule_addresses : (x : Text) (rs : List Rule) → In x (rule_addresses rs) ↔ IsRouted x rs
unfolding rule_addresses
In-rule_addresses x [] = (λ m. m, λ m. m)
In-rule_addresses x (r ∷ rs) =
    let own = map (λ u. u.address) r.upstreams in
    (
      λ m. elim (In-append x own (rule_addresses rs) m) [
        | inl n ↦ inl ((In-map x r.upstreams).0 n)
        | inr n ↦ inr ((In-rule_addresses x rs).0 n)
      ],
      λ m. elim m [
        | inl n ↦ In-append_left x own (rule_addresses rs) ((In-map x r.upstreams).1 n)
        | inr n ↦ In-append_right x own (rule_addresses rs) ((In-rule_addresses x rs).1 n)
      ],
    )

-- The addresses of a configuration
abbrev pub IsNamed : Text → RouteConfig → Type 0
IsNamed x config = ((config.upstream ≡ x) × (is_nil x ≡ false)) ⊎ IsRouted x config.rules

In-simple :
    (x up : Text) → In x (if is_nil up then [] else up ∷ []) ↔ ((up ≡ x) × (is_nil x ≡ false))
In-simple x up = elim (Bool-cases (is_nil up)) [
  | inl e ↦ rw e (λ m. absurd m, λ m. absurd (cc (m.0, m.1, e)))
  | inr e ↦ rw e (λ m. elim m [ inl p ↦ (p, rw p at e) | inr n ↦ absurd n ], λ m. inl m.0)
]

-- The pool that a configuration is turned into names every address at most once, and its addresses
-- are just those of the simple upstream, where it is not empty, and of the upstreams of all the rules.
pub config_to_upstreams-IsDistinct :
    (config : RouteConfig)
    → IsDistinct (config_to_upstreams config)
      × ((x : Text) → In x (config_to_upstreams config) ↔ IsNamed x config)
unfolding config_to_upstreams
config_to_upstreams-IsDistinct config =
    let simple : List Text = if is_nil config.upstream then [] else config.upstream ∷ [] in
    let (d, same) = dedupe_lem (simple ++ rule_addresses config.rules) in
    (
      d,
      λ x. (
        λ m. elim (In-append x simple (rule_addresses config.rules) ((same x).0 m)) [
          | inl n ↦ inl ((In-simple x config.upstream).0 n)
          | inr n ↦ inr ((In-rule_addresses x config.rules).0 n)
        ],
        λ m. (same x).1 (elim m [
          | inl n ↦
              In-append_left x simple (rule_addresses config.rules)
                ((In-simple x config.upstream).1 n)
          | inr n ↦
              In-append_right x simple (rule_addresses config.rules)
                ((In-rule_addresses x config.rules).1 n)
        ]),
      ),
    )
