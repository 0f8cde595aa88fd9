-- ===== src/Composite/Merged.antt =====
-- `mergeConfig`: what the merged configuration is made of.
use caddy_dynamic_routing.Base.{
  ◌≡◌, refl, ap, ◌∙◌, Bool, false, List, [], ◌∷◌, ◌++◌, Option, none, some, Text, arith,
}
use caddy_dynamic_routing.Base.Int.{ltb_ℤ}
use caddy_dynamic_routing.Config.{RouteConfig, Rule}
use caddy_dynamic_routing.Source.{Answer, failed, found}
use caddy_dynamic_routing.Composite.{or_text, or_enabled, merge_config, merge_next, merge_answers}

-- The rules of the answers that carry a configuration, in the sources' order
unfoldable pub all_rules : List Answer → List Rule
all_rules [] = []
all_rules (failed ∷ xs) = all_rules xs
all_rules (found none ∷ xs) = all_rules xs
all_rules (found (some c) ∷ xs) = c.rules ++ all_rules xs

-- The last configuration that says whether the route is enabled decides.
unfoldable pub last_enabled : Option Bool → List Answer → Option Bool
last_enabled b [] = b
last_enabled b (failed ∷ xs) = last_enabled b xs
last_enabled b (found none ∷ xs) = last_enabled b xs
last_enabled b (found (some c) ∷ xs) = last_enabled (or_enabled c.enabled b) xs

-- The last upstream that is not empty
unfoldable pub last_upstream : Text → List Answer → Text
last_upstream t [] = t
last_upstream t (failed ∷ xs) = last_upstream t xs
last_upstream t (found none ∷ xs) = last_upstream t xs
last_upstream t (found (some c) ∷ xs) = last_upstream (or_text c.upstream t) xs

-- What the merge of further answers into a configuration keeps and takes
pub record IsMerge (m : RouteConfig) (xs : List Answer) (out : RouteConfig) : Type 0 where
  pub rules : out.rules ≡ m.rules ++ all_rules xs
  pub enabled : out.enabled ≡ last_enabled m.enabled xs
  pub upstream : out.upstream ≡ last_upstream m.upstream xs
  pub created : out.created_at ≡ m.created_at
  pub updated : out.updated_at ≡ m.updated_at
  pub no_older : ltb_ℤ out.version m.version ≡ false

append_nil : (xs : List Rule) → xs ≡ xs ++ []
append_nil [] = refl
append_nil (x ∷ xs) = ap (λ t. x ∷ t) (append_nil xs)

append_assoc : (xs ys zs : List Rule) → (xs ++ ys) ++ zs ≡ xs ++ (ys ++ zs)
append_assoc [] ys zs = refl
append_assoc (x ∷ xs) ys zs = ap (λ t. x ∷ t) (append_assoc xs ys zs)

-- Merging further answers into a configuration succeeds, takes over the rules of every configuration
-- in the sources' order, lets the last one that sets them decide the upstream and whether the route is
-- enabled, keeps the times, and never lowers the version.
pub merge_answers-IsMerge :
    (m : RouteConfig) (xs : List Answer)
    → (out : RouteConfig) × (merge_answers (some m) xs ≡ some out) × IsMerge m xs out
unfolding merge_answers merge_next merge_config all_rules last_enabled last_upstream
merge_answers-IsMerge m [] = (
  m,
  refl,
  record {
    rules = append_nil m.rules;
    enabled = refl;
    upstream = refl;
    created = refl;
    updated = refl;
    no_older = ground arith;
  },
)
merge_answers-IsMerge m (failed ∷ xs) =
    let (out, got, is) = merge_answers-IsMerge m xs in
    (
      out,
      got,
      record {
        rules = is.rules;
        enabled = is.enabled;
        upstream = is.upstream;
        created = is.created;
        updated = is.updated;
        no_older = is.no_older;
      },
    )
merge_answers-IsMerge m (found none ∷ xs) =
    let (out, got, is) = merge_answers-IsMerge m xs in
    (
      out,
      got,
      record {
        rules = is.rules;
        enabled = is.enabled;
        upstream = is.upstream;
        created = is.created;
        updated = is.updated;
        no_older = is.no_older;
      },
    )
merge_answers-IsMerge m (found (some c) ∷ xs) =
    let (out, got, is) = merge_answers-IsMerge (merge_config m c) xs in
    (
      out,
      got,
      record {
        rules = is.rules ∙ append_assoc m.rules c.rules (all_rules xs);
        enabled = is.enabled;
        upstream = is.upstream;
        created = is.created;
        updated = is.updated;
        no_older = ground (arith, is.no_older);
      },
    )
