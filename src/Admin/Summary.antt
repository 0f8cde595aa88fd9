-- ===== src/Admin/Summary.antt =====
-- `SummarizeRouteConfig`: the upstreams of the summary.
use caddy_dynamic_routing.Base.{
  ◌≡◌, ◌↔◌, refl, sym, ap, ◌∙◌, List, [], ◌∷◌, ◌++◌, append_assoc, append_nil, some, Text, is_nil,
  inl, inr, In, Bool-cases, if◌then◌else◌,
}
use caddy_dynamic_routing.Base.Texts.{has, dedupe, IsDistinct, dedupe_lem}
use caddy_dynamic_routing.Config.{RouteConfig, Rule, WeightedUpstream}
use caddy_dynamic_routing.Admin.{add_upstreams, add_rules, summarize_route_config}

-- The addresses of a list of upstreams, and of the rules, that are not empty, in order
unfoldable pub present : List WeightedUpstream → List Text
present [] = []
present (u ∷ us) = let rest = present us in if is_nil u.address then rest else u.address ∷ rest

unfoldable pub rules_present : List Rule → List Text
rules_present [] = []
rules_present (r ∷ rs) = present r.upstreams ++ rules_present rs

abbrev pub simple : Text → List Text
simple upstream = if is_nil upstream then [] else upstream ∷ []

add_upstreams_lem :
    (seen : List Text) (us : List WeightedUpstream) (out rest : List Text)
    → (add_upstreams seen us out).1 ++ dedupe (add_upstreams seen us out).0 rest
      ≡ out ++ dedupe seen (present us ++ rest)
unfolding add_upstreams present dedupe
add_upstreams_lem seen [] out rest = refl
add_upstreams_lem seen (u ∷ us) out rest = elim (Bool-cases (is_nil u.address)) [
  | inl e ↦ rw (add_upstreams, present, e) (add_upstreams_lem seen us out rest)
  | inr e ↦ elim (Bool-cases (has u.address seen)) [
    | inl f ↦ rw (add_upstreams, present, e, dedupe, f) (add_upstreams_lem seen us out rest)
    | inr f ↦
        rw (add_upstreams, present, e, dedupe, f)
          (add_upstreams_lem (u.address ∷ seen) us (out ++ (u.address ∷ [])) rest
            ∙ append_assoc out (u.address ∷ []) (dedupe (u.address ∷ seen) (present us ++ rest)))
  ]
]

add_rules_lem :
    (seen : List Text) (rs : List Rule) (out : List Text)
    → add_rules seen rs out ≡ out ++ dedupe seen (rules_present rs)
unfolding add_rules rules_present dedupe
add_rules_lem seen [] out = sym (append_nil out)
add_rules_lem seen (r ∷ rs) out =
    add_rules_lem (add_upstreams seen r.upstreams out).0 rs (add_upstreams seen r.upstreams out).1
    ∙ add_upstreams_lem seen r.upstreams out (rules_present rs)

simple-dedupe :
    (upstream : Text) (rest : List Text)
    → simple upstream ++ dedupe (simple upstream) rest ≡ dedupe [] (simple upstream ++ rest)
unfolding dedupe has
simple-dedupe [] rest = refl
simple-dedupe (c ∷ s) rest = refl

-- The summary of a configuration lists, sorted, the first occurrences of the simple upstream and
-- the upstreams of all the rules, where these are not empty: no address twice, and all of them.
pub summarize_route_config-IsDistinct :
    (sort : List Text → List Text) (key : Text) (config : RouteConfig)
    → let listed = dedupe [] (simple config.upstream ++ rules_present config.rules) in
      ((summarize_route_config sort key (some config)).upstreams ≡ sort listed)
      × IsDistinct listed
      × ((x : Text) → In x listed ↔ In x (simple config.upstream ++ rules_present config.rules))
unfolding summarize_route_config
summarize_route_config-IsDistinct sort key config =
    let (d, same) = dedupe_lem (simple config.upstream ++ rules_present config.rules) in
    (
      ap sort (
          add_rules_lem (simple config.upstream) config.rules (simple config.upstream)
          ∙ simple-dedupe config.upstream (rules_present config.rules)),
      d,
      same,
    )
